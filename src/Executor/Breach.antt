-- ===== src/Executor/Breach.antt =====
-- `_apply_thresholds`, `_usage_missing_breach` and `_escalation_payload` of src/sf_factory/scheduler.py:
-- the triggers that fired are executed.
use sf_f.Base.{
  ℕ, String, Bool, true, false, Option, none, some, List, [], ◌∷◌, ◌++◌, map, ◌==◌, string_eq,
  option_eq, filter, lookup, if◌then◌else◌, ltb, leb, count, get_or,
}
use sf_f.Base.Raises.{Result}
use sf_f.Config.{FactoryConfig}
use sf_f.Models.StageState.{StageState}
use sf_f.Models.Trigger
use sf_f.Models.Trigger.{Trigger}
use sf_f.Models.Json.{num, str, array, Payload}
use sf_f.Models.Records.{Time, Stage, Event, TriggerFiring}
use sf_f.Store.Table
use sf_f.Store.Db.{Db}
use sf_f.Store.Tx
use sf_f.Store.Tx.{Tx}
use sf_f.Store.Act.{Act, ◌>>=◌, ◌>>◌, pure, outside, reads, transact}
use sf_f.Thresholds.{evaluate, is_sentinel}
use sf_f.Store.Events.{max_key}
use sf_f.Executor.Queries.{last_event_seq_of_type}
use sf_f.Executor.Register.{FileFound, register_artifact}
use sf_f.Executor.Writes.{actor, texts, stage_event, log_event, stage_escalation, escalate}
use sf_f.Executor.Gate.{transition_to, Delivery, publish_alert}

-- What is found outside the database: the commit of the payload's file, what is then found out about
-- the file, and the notification.
pub record BreachOutside : Type 0 where
  pub sha : Result (Option String)
  pub file : FileFound
  pub sent : Delivery

-- `evidence.get(key)`, for the keys that hold a number.
abbrev pub number_at : String → Payload → Option ℕ
number_at key evidence = elim (lookup key evidence) [ some (num n) ↦ some n | _ ↦ none ]

abbrev pub is_budget : Trigger → Bool
is_budget Trigger.context_budget = true
is_budget _ = false

abbrev pub Cause : Type 0
Cause = String × Payload

abbrev pub cause_of : TriggerFiring → Cause
cause_of f = (Trigger.value f.trigger, f.evidence)

abbrev pub reset : Time → String → TriggerFiring → Act (List Cause)
reset now stage_id f = do
  transact (log_event now (stage_event stage_id "context_reset" f.evidence))
  pure []

abbrev pub allowance_left : FactoryConfig → TriggerFiring → Bool
allowance_left cfg f =
    ltb (get_or (number_at "context_resets" f.evidence) 0) cfg.escalation.max_context_resets

-- Within the allowance a breach is answered by a reset.
abbrev pub answer_breach : FactoryConfig → Time → String → TriggerFiring → Act (List Cause)
answer_breach cfg now stage_id f =
    if allowance_left cfg f then reset now stage_id f else pure (cause_of f ∷ [])

-- A reset that no agent has consumed yet is passed over.
abbrev pub over_budget : FactoryConfig → Time → String → TriggerFiring → Act (List Cause)
over_budget cfg now stage_id f = do
  reset_seq ← reads (last_event_seq_of_type stage_id "context_reset" none)
  spawn_seq ← reads (last_event_seq_of_type stage_id "spawn" none)
  if ltb spawn_seq reset_seq then pure [] else answer_breach cfg now stage_id f

unfoldable pub sift_one : FactoryConfig → Time → String → TriggerFiring → Act (List Cause)
sift_one cfg now stage_id f =
    if is_budget f.trigger then over_budget cfg now stage_id f else pure (cause_of f ∷ [])

-- The loop over the firings.
unfoldable pub sift : FactoryConfig → Time → String → List TriggerFiring → Act (List Cause)
sift cfg now stage_id [] = pure []
sift cfg now stage_id (f ∷ fs) = do
  kept ← sift_one cfg now stage_id f
  rest ← sift cfg now stage_id fs
  pure (kept ++ rest)

abbrev usage_rows : String → Db → List (ℕ × Event)
usage_rows stage_id d =
    filter (λ (row : ℕ × Event). is_sentinel stage_id "usage_missing" row.1) d.events.rows

abbrev pub usage_events : String → Db → ℕ
usage_events stage_id d = count (is_sentinel stage_id "usage_missing") (Table.values d.events)

unfoldable pub usage_missing_breach : FactoryConfig → String → Db → Option Payload
usage_missing_breach cfg stage_id d =
    if cfg.budgets.usage_missing_policy == "escalate_after"
    then (if leb (usage_events stage_id d) cfg.budgets.usage_missing_max_per_stage
        then none
        else some (
            ("usage_missing_events", num (usage_events stage_id d))
            ∷ ("max_per_stage", num cfg.budgets.usage_missing_max_per_stage)
            ∷ ("event_seq", num (max_key (usage_rows stage_id d)))
            ∷ []))
    else none

abbrev pub with_breach : Option Payload → List Cause → List Cause
with_breach none causes = causes
with_breach (some evidence) causes = causes ++ ("usage_missing", evidence) ∷ []

-- Without a worktree there is no file.
unfoldable pub escalation_payload : Time → Stage → Bool → BreachOutside → Act (Option ℕ)
escalation_payload now stage false out = pure none
escalation_payload now stage true out = do
  sha ← outside out.sha
  ref ←
      transact
        (register_artifact now "stage" stage.id "escalation_payload" "workspace" out.file sha)
  pure ref.id

-- The inner function `coupled`.
unfoldable pub escalate_all : Time → String → Option ℕ → List Cause → Tx (Unit {0})
escalate_all now stage_id payload_ref_id [] d = Tx.pure tt d
escalate_all now stage_id payload_ref_id ((trigger, evidence) ∷ causes) d =
    Tx.bind
      (escalate
        (stage_escalation now stage_id trigger payload_ref_id (number_at "event_seq" evidence)) d)
      (λ _. escalate_all now stage_id payload_ref_id causes)

abbrev pub names : List Cause → List String
names = map (λ (cause : Cause). cause.0)

abbrev pub escalate_stage : Time → Stage → Bool → BreachOutside → List Cause → Act Bool
escalate_stage now stage worktree out [] = pure false
escalate_stage now stage worktree out (c ∷ cs) = do
  payload_ref_id ← escalation_payload now stage worktree out
  seq ←
      transition_to now stage.id StageState.escalated actor "threshold trigger(s) fired"
        (some (("triggers", array (texts (names (c ∷ cs)))) ∷ []))
        (some (escalate_all now stage.id payload_ref_id (c ∷ cs)))
  publish_alert now (("unit_id", str stage.id) ∷ ("triggers", array (texts (names (c ∷ cs)))) ∷ [])
      out.sent
  pure true

-- What is done about the firings.
abbrev pub heed :
    FactoryConfig → Time → Stage → Bool → BreachOutside → List TriggerFiring → Act Bool
heed cfg now stage worktree out firings = do
  causes ← sift cfg now stage.id firings
  breach ← reads (usage_missing_breach cfg stage.id)
  escalate_stage now stage worktree out (with_breach breach causes)

-- `worktree` says whether a worktree is given.
unfoldable pub apply_thresholds : FactoryConfig → Time → Stage → Bool → BreachOutside → Act Bool
apply_thresholds cfg now stage worktree out = do
  judged ← reads (λ d. evaluate cfg d stage)
  firings ← outside judged
  heed cfg now stage worktree out firings
