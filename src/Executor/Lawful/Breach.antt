-- ===== src/Executor/Lawful/Breach.antt =====
-- Executing the triggers that fired is a legal move.
use sf_f.Base.{ℕ, String, refl, Bool, true, false, Option, none, List, [], ◌∷◌, ◌++◌, ltb}
use sf_f.Config.{FactoryConfig}
use sf_f.Models.StageState.{StageState}
use sf_f.Models.Records.{Time, Stage, TriggerFiring}
use sf_f.Store.Act.{pure, outside, reads, transact}
use sf_f.Thresholds.{evaluate}
use sf_f.StateMachine.Moves.{IsLawful, bind-IsLawful, transact-IsLawful}
use sf_f.Executor.Queries.{last_event_seq_of_type}
use sf_f.Executor.Register.{register_artifact}
use sf_f.Executor.Writes.{actor, log_event, stage_event}
use sf_f.Executor.Gate.{publish_alert}
use sf_f.Executor.Breach.{
  BreachOutside, Cause, cause_of, is_budget, over_budget, answer_breach, allowance_left, reset,
  sift_one, sift, usage_missing_breach, escalation_payload, escalate_all, escalate_stage,
  apply_thresholds, with_breach,
}
use sf_f.Executor.Lawful.Rules.{
  if-IsLawful, outside-IsLawful, reads-IsLawful, pure-IsLawful, coupled-IsLawful,
}
use sf_f.Executor.Lawful.Gate.{publish_alert-IsLawful}
use sf_f.Executor.Lawful.Writes.{log_event-IsQuiet, escalate_all-IsQuiet, register_artifact-IsQuiet}

module _ (cfg : FactoryConfig) (now : Time) (stage_id : String) where
  reset-IsLawful : (f : TriggerFiring) → IsLawful (reset now stage_id f)
  reset-IsLawful f =
      let event = stage_event stage_id "context_reset" f.evidence in
      bind-IsLawful (transact (log_event now event)) (λ _. pure {A = List Cause} [])
        (transact-IsLawful (log_event now event) (log_event-IsQuiet now event refl))
        λ _. pure-IsLawful {A = List Cause} []

  answer_breach-IsLawful : (f : TriggerFiring) → IsLawful (answer_breach cfg now stage_id f)
  answer_breach-IsLawful f =
      if-IsLawful (allowance_left cfg f) _ _ (reset-IsLawful f) (pure-IsLawful (cause_of f ∷ []))

  over_budget-IsLawful : (f : TriggerFiring) → IsLawful (over_budget cfg now stage_id f)
  over_budget-IsLawful f =
      bind-IsLawful (reads (last_event_seq_of_type stage_id "context_reset" none)) _
        (reads-IsLawful (last_event_seq_of_type stage_id "context_reset" none))
        λ reset_seq.
          bind-IsLawful (reads (last_event_seq_of_type stage_id "spawn" none)) _
            (reads-IsLawful (last_event_seq_of_type stage_id "spawn" none))
            λ spawn_seq.
              if-IsLawful (ltb spawn_seq reset_seq) _ _ (pure-IsLawful {A = List Cause} [])
                (answer_breach-IsLawful f)

  sift_one-IsLawful : (f : TriggerFiring) → IsLawful (sift_one cfg now stage_id f)
  unfolding sift_one
  sift_one-IsLawful f =
      if-IsLawful (is_budget f.trigger) _ _ (over_budget-IsLawful f)
        (pure-IsLawful (cause_of f ∷ []))

  sift-IsLawful : (fs : List TriggerFiring) → IsLawful (sift cfg now stage_id fs)
  unfolding sift
  sift-IsLawful [] = pure-IsLawful {A = List Cause} []
  sift-IsLawful (f ∷ fs) =
      bind-IsLawful (sift_one cfg now stage_id f) _ (sift_one-IsLawful f) λ kept.
        bind-IsLawful (sift cfg now stage_id fs) _ (sift-IsLawful fs)
          λ rest. pure-IsLawful (kept ++ rest)

module _ (cfg : FactoryConfig) (now : Time) (stage : Stage) (worktree : Bool)
    (out : BreachOutside) where
  escalation_payload-IsLawful : (w : Bool) → IsLawful (escalation_payload now stage w out)
  unfolding escalation_payload
  escalation_payload-IsLawful false = pure-IsLawful {A = Option ℕ} none
  escalation_payload-IsLawful true =
      bind-IsLawful (outside out.sha) _ (outside-IsLawful out.sha) λ sha.
        bind-IsLawful
          (transact
            (register_artifact now "stage" stage.id "escalation_payload" "workspace" out.file sha))
          (λ ref. pure ref.id)
          (transact-IsLawful _ (
            register_artifact-IsQuiet now "stage" stage.id "escalation_payload" "workspace" out.file
              sha))
          λ ref. pure-IsLawful ref.id

  escalate_stage-IsLawful :
      (causes : List Cause) → IsLawful (escalate_stage now stage worktree out causes)
  escalate_stage-IsLawful [] = pure-IsLawful false
  escalate_stage-IsLawful (c ∷ cs) =
      bind-IsLawful (escalation_payload now stage worktree out) _
        (escalation_payload-IsLawful worktree)
        λ ref.
          bind-IsLawful _ _
            (coupled-IsLawful now stage.id StageState.escalated actor "threshold trigger(s) fired" _
              (escalate_all now stage.id ref (c ∷ cs))
              (escalate_all-IsQuiet now stage.id ref (c ∷ cs)))
            λ _.
              bind-IsLawful (publish_alert now _ out.sent) _ (publish_alert-IsLawful now _ out.sent)
                λ _. pure-IsLawful true

  pub apply_thresholds-IsLawful : IsLawful (apply_thresholds cfg now stage worktree out)
  unfolding apply_thresholds
  apply_thresholds-IsLawful =
      bind-IsLawful (reads (λ d. evaluate cfg d stage)) _
        (reads-IsLawful (λ d. evaluate cfg d stage))
        λ judged. bind-IsLawful (outside judged) _ (outside-IsLawful judged) λ firings.
          bind-IsLawful (sift cfg now stage.id firings) _ (sift-IsLawful cfg now stage.id firings)
            λ causes.
              bind-IsLawful (reads (usage_missing_breach cfg stage.id)) _
                (reads-IsLawful (usage_missing_breach cfg stage.id))
                λ breach. escalate_stage-IsLawful (with_breach breach causes)
