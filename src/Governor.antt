-- ===== src/Governor.antt =====
-- `CapacityGovernor` of src/sf_factory/scheduler.py: the
-- sweep that resumes what the outage had stopped. The probe and the poll of the usage are agents and
-- HTTP, and their percentages are reals: what they find out is when these operations are called.
pub mod Swept
pub mod Hold
pub mod Resumed
pub mod Lift
pub mod Lifted
pub mod Quiet
pub mod Restart
pub mod Tests
use mathlib.Core.List.{reverse}
use sf_f.Base.{
  ℕ, String, Bool, true, false, not, ◌&&◌, ◌||◌, Option, none, some, List, [], ◌∷◌, ◌==◌, string_eq,
  nat_eq, option_eq, any, find, filter, lookup, get_or, ltb, ◌++◌, if◌then◌else◌,
}
use sf_f.Base.Raises.{Result, ok, err, notify_error}
use sf_f.Config.{ModelRoute}
use sf_f.Models.Json.{Json, null, flag, num, str, array, nums, Payload}
use sf_f.Models.Records.{Time, Event, Escalation}
use sf_f.Store.Table
use sf_f.Store.Table.{Table}
use sf_f.Store.Db.{Db}
use sf_f.Store.Tx.{Tx, bind, ◌>>=◌, ◌>>◌, pure, gets}
use sf_f.Store.Events.{NewEvent, insert_event, max_key}
use sf_f.Store.Escalations.{resolve_escalation}
use sf_f.Executor.Writes.{factory_event, log_event}

-- _CAPACITY_RESOLUTIONS
abbrev pub capacity_resolutions : List (String × String)
capacity_resolutions =
    ("SPEC", "rework:SPEC")
    ∷ ("SPEC_AUDIT", "rework:SPEC")
    ∷ ("BUILD", "rework:BUILD")
    ∷ ("VALIDATE", "rework:VALIDATE")
    ∷ ("AUDIT", "rework:VALIDATE")
    ∷ ("MERGE_GATE", "rework:MERGE_GATE")
    ∷ []

-- The rows that the sweep selects, with their ids.
abbrev pub is_in_scope : Escalation → Bool
is_in_scope e = e.status == "open" && (e.trigger == "agent_run_failed" && e.unit_level == "stage")

abbrev pub in_scope_row : ℕ × Escalation → Bool
in_scope_row row = is_in_scope row.1

abbrev pub selected : Db → List (ℕ × Escalation)
selected d = filter in_scope_row d.escalations.rows

abbrev pub is_limit_mark : Event → Bool
is_limit_mark e = elim (lookup "usage_limit" e.payload) [ some (flag b) ↦ b | _ ↦ false ]

-- The evidence of the row: the event under its `event_seq` carries `usage_limit: true`.
abbrev pub is_evident : Option Event → Bool
is_evident none = false
is_evident (some e) = is_limit_mark e

abbrev pub is_fall : String → Event → Bool
is_fall unit_id e =
    e.unit_level == "stage"
    && (e.unit_id == some unit_id
        && (e.event_type == "transition" && e.to_state == some "ESCALATED"))

-- The latest fall of the stage, and the state that it was in before.
abbrev pub last_fall : String → Table Event → Option Event
last_fall unit_id log = find (is_fall unit_id) (reverse (Table.values log))

abbrev pub token_for : Option Event → Option String
token_for none = none
token_for (some fall) = lookup (get_or fall.from_state "") capacity_resolutions

abbrev pub token_if : Bool → String → Table Event → Option String
token_if evident unit_id log = if evident then token_for (last_fall unit_id log) else none

abbrev pub token_by : Option ℕ → String → Table Event → Option String
token_by none unit_id log = none
token_by (some seq) unit_id log = token_if (is_evident (Table.get seq log)) unit_id log

-- The resolution that the row is given; `none` leaves it to the architect.
unfoldable pub resolution_for : Escalation → Db → Option String
resolution_for e d = token_by e.event_seq e.unit_id d.events

abbrev pub resolved_payload : ℕ → String → Payload
resolved_payload id token =
    ("escalation_id", num id)
    ∷ ("resolution", str token)
    ∷ ("reason", str "capacity hold lifted — limit-class failure auto-resumed (D-0037)")
    ∷ ("via", str "capacity_governor")
    ∷ []

abbrev pub resolved_event : ℕ → Escalation → String → NewEvent
resolved_event id e token = record {
  unit_level = "stage";
  unit_id = some e.unit_id;
  event_type = "escalation_resolved";
  actor = "capacity_governor";
  from_state = none;
  to_state = none;
  payload = some (resolved_payload id token);
}

-- One row: it is resolved, with its event, or left alone.
abbrev pub resume : Time → ℕ → Escalation → Option String → Tx (List ℕ)
resume now id e none = pure []
resume now id e (some token) = do
  resolve_escalation now id token
  seq ← insert_event now (resolved_event id e token)
  pure (id ∷ [])

abbrev pub consider : Time → ℕ × Escalation → Tx (List ℕ)
consider now row = do token ← gets (resolution_for row.1); resume now row.0 row.1 token

-- The loop over the rows.
unfoldable pub sweep : Time → List (ℕ × Escalation) → Tx (List ℕ)
sweep now [] d = pure [] d
sweep now (row ∷ rows) d =
    bind (consider now row d) λ done. do rest ← sweep now rows; pure (done ++ rest)

unfoldable pub auto_resolve : Time → Tx (List ℕ)
auto_resolve now = do rows ← gets selected; sweep now rows

-- The transaction of `_lift_hold`.
unfoldable pub lift : Time → ℕ → Tx (List ℕ)
lift now probe_process_id = do
  log_event now
      (factory_event "capacity_hold_ended" (("probe_process_id", num probe_process_id) ∷ []))
  auto_resolve now
