-- ===== src/Governor/Hold.antt =====
-- The hold of `CapacityGovernor` of src/sf_factory/scheduler.py: its state in memory, and the pairs of
-- events that show it. The instant of the next probe is a real, of the loop's clock.
use sf_f.Base.{
  ℕ, String, Bool, true, false, not, ◌||◌, Option, none, some, List, [], ◌∷◌, ◌==◌, string_eq, any,
  filter, lookup, ltb, if◌then◌else◌,
}
use sf_f.Config.{ModelRoute}
use sf_f.Models.Json.{null, num, str}
use sf_f.Models.Records.{Time, Event}
use sf_f.Store.Db.{Db}
use sf_f.Store.Events.{NewEvent, max_key}
use sf_f.Store.Act.{Act, ◌>>=◌, ◌>>◌, pure, reads, transact}
use sf_f.Executor.Writes.{factory_event, log_event}

-- The state in memory: `_held` and `_proactive_held`.
pub record Holds : Type 0 where
  pub held : Bool
  pub proactive_held : Bool

abbrev pub is_held : Holds → Bool
is_held g = g.held || g.proactive_held

abbrev routes_to_claude : List (String × ModelRoute) → String → Bool
routes_to_claude models role = elim (lookup role models) [
  | none ↦ false
  | some route ↦ route.cli == "claude"
]

unfoldable pub blocks : List (String × ModelRoute) → List String → Holds → Bool
blocks models roles g = if is_held g then any (routes_to_claude models) roles else false

abbrev pub last_seq : String → Db → ℕ
last_seq event_type d =
    max_key (filter (λ (row : ℕ × Event). row.1.event_type == event_type) d.events.rows)

abbrev pub pair_open : String → String → Db → Bool
pair_open started ended d = ltb (last_seq ended d) (last_seq started d)

-- `_hold_pair_open` and `_proactive_hold_pair_open`
unfoldable pub hold_pair_open : Db → Bool
hold_pair_open d = pair_open "capacity_hold_started" "capacity_hold_ended" d

unfoldable pub proactive_hold_pair_open : Db → Bool
proactive_hold_pair_open d = pair_open "proactive_limit_hold_started" "proactive_limit_hold_ended" d

abbrev pub start_event : String → String → Option ℕ → NewEvent
start_event signature role process_id = factory_event "capacity_hold_started" (
    ("signature", str signature)
    ∷ ("role", str role)
    ∷ ("process_id", elim process_id [ none ↦ null | some n ↦ num n ])
    ∷ [])

-- The memory is set before the transaction, so the hold stays when the transaction raises.
unfoldable pub note_match :
    Bool → Time → String → String → Option ℕ → Holds → Holds × Act (Unit {0})
note_match enabled now signature role process_id g =
    if not enabled || g.held then (g, pure tt) else (
      record g { held = true },
      transact (log_event now (start_event signature role process_id)),
    )

abbrev pub restart_event : NewEvent
restart_event = factory_event "capacity_hold_ended" (
    (
      "reason",
      str
          "orchestrator restart — hold state is in-memory and is re-discovered on the first dead claude spawn (D-0037)",
    )
    ∷ [])

abbrev pub proactive_restart_event : NewEvent
proactive_restart_event = factory_event "proactive_limit_hold_ended" (
    (
      "reason",
      str
          "orchestrator restart — proactive hold is in-memory and is re-discovered on the next usage poll (D-0059)",
    )
    ∷ [])

abbrev pub close_if : Time → NewEvent → Bool → Act (Unit {0})
close_if now e is_open = if is_open then transact (log_event now e) else pure tt

unfoldable pub reconcile_restart : Time → Act (Unit {0})
reconcile_restart now = do
  stale ← reads hold_pair_open
  close_if now restart_event stale
  proactive_stale ← reads proactive_hold_pair_open
  close_if now proactive_restart_event proactive_stale
