-- ===== src/Executor/Lawful/Escalated.antt =====
-- Leaving ESCALATED is a legal move.
use sf_f.Base.{refl, String, Option, none, some, ◌==◌, string_eq, lookup, true, false, get_or, ltb}
use sf_f.Base.Raises.{factory_error, assertion_error, require, require_some}
use sf_f.Config.{FactoryConfig}
use sf_f.Models.StageState.{StageState, escalation_resolutions}
use sf_f.Models.Records.{Time, Stage, Escalation}
use sf_f.Store.Tx.{Tx}
use sf_f.Store.Act.{◌>>=◌, pure, outside, reads, demand, recall, transact, check}
use sf_f.Store.Escalations.{open_escalation_count}
use sf_f.StateMachine.Moves.{Effect-refl, IsQuiet, IsLawful, bind-IsLawful, transact-IsLawful}
use sf_f.StateMachine.Quiet.{pure-IsQuiet}
use sf_f.Executor.Queries.{latest_resolved_escalation, resolution_reason}
use sf_f.Executor.Writes.{log_event, settle_contested, request_decision, stage_event}
use sf_f.Executor.Gate.{last_request, publish_decision}
use sf_f.Executor.Escalated.{
  plain, EscalatedOutside, has_worktree, archive, escalation_anchor_ref, pinned, wrapped,
  settled_as, settle_without_action, refusal, refuse, routed, announce, ask_tradeoff, send, resolve,
  leave, step_escalated,
}
use sf_f.Executor.Lawful.Rules.{
  if-IsLawful, outside-IsLawful, reads-IsLawful, pure-IsLawful, coupled-IsLawful,
}
use sf_f.Executor.Lawful.Gate.{publish_decision-IsLawful, leave_clean_audit-IsLawful}
use sf_f.Executor.Lawful.Writes.{
  log_event-IsQuiet, settle_contested-IsQuiet, request_decision-IsQuiet,
}

settled_as-IsQuiet :
    (now : Time) (stage_id : String) (target : StageState)
    → IsQuiet (settled_as now stage_id target)
settled_as-IsQuiet now stage_id StageState.validate =
    settle_contested-IsQuiet now stage_id "overruled"
settled_as-IsQuiet now stage_id StageState.build = settle_contested-IsQuiet now stage_id "sustained"
settled_as-IsQuiet now stage_id StageState.spec = settle_contested-IsQuiet now stage_id "sustained"
settled_as-IsQuiet now stage_id _ = pure-IsQuiet tt

module _ (cfg : FactoryConfig) (now : Time) (stage : Stage) (out : EscalatedOutside) where
  archive-IsLawful : IsLawful (archive stage out)
  archive-IsLawful =
      if-IsLawful (has_worktree stage) _ _ (outside-IsLawful out.archived) (pure-IsLawful tt)

  check-IsLawful : IsLawful (check (has_worktree stage) factory_error)
  check-IsLawful = outside-IsLawful (require (has_worktree stage) factory_error)

  pinned-IsLawful : (sha : Option String) → IsLawful (pinned sha out)
  pinned-IsLawful (some sha) = pure-IsLawful (some sha)
  pinned-IsLawful none =
      bind-IsLawful (outside out.head) (λ sha. pure (some sha)) (outside-IsLawful out.head)
        λ sha. pure-IsLawful (some sha)

  wrapped-IsLawful : (last : Escalation) → IsLawful (wrapped stage last out)
  wrapped-IsLawful last =
      bind-IsLawful (check (has_worktree stage) factory_error) _ check-IsLawful λ _.
        bind-IsLawful (reads (escalation_anchor_ref stage.id last)) _
          (reads-IsLawful (escalation_anchor_ref stage.id last))
          λ anchor.
            bind-IsLawful (demand anchor factory_error) _
              (outside-IsLawful (require_some anchor factory_error))
              λ payload_ref.
                bind-IsLawful (outside out.gate.sha) _ (outside-IsLawful out.gate.sha)
                  λ sha. pinned-IsLawful sha

  settle_without_action-IsLawful : IsLawful (settle_without_action cfg now stage out)
  settle_without_action-IsLawful = bind-IsLawful (archive stage out) _ archive-IsLawful λ _.
      bind-IsLawful (transact (settle_contested now stage.id "settled")) _
        (transact-IsLawful (settle_contested now stage.id "settled")
          (settle_contested-IsQuiet now stage.id "settled"))
        λ _.
          bind-IsLawful (check (has_worktree stage) factory_error) _ check-IsLawful
            λ _. leave_clean_audit-IsLawful cfg now stage out.gate

  refuse-IsLawful : (last : Escalation) → IsLawful (refuse cfg now stage out last)
  refuse-IsLawful last =
      let event = stage_event stage.id "alert" (refusal last) in
      bind-IsLawful (transact (log_event now event)) _
        (transact-IsLawful (log_event now event) (log_event-IsQuiet now event refl))
        λ _. pure-IsLawful false

  routed-IsLawful :
      (last : Escalation) (target : StageState) (coupled : Tx (Unit {0}))
      → IsQuiet coupled
      → IsLawful (routed cfg now stage out last target coupled)
  routed-IsLawful last target coupled q =
      bind-IsLawful (demand last.id assertion_error) _
        (outside-IsLawful (require_some last.id assertion_error))
        λ id.
          bind-IsLawful (reads (resolution_reason "stage" stage.id id)) _
            (reads-IsLawful (resolution_reason "stage" stage.id id))
            λ rationale.
              bind-IsLawful _ _
                (coupled-IsLawful now stage.id target "phase_architect" _ _ coupled q)
                λ _. pure-IsLawful tt

  announce-IsLawful : IsLawful (announce cfg now stage out)
  announce-IsLawful =
      bind-IsLawful (recall last_request)
        (λ n. publish_decision now n out.gate.sent >>= λ _. pure true) (λ db. Effect-refl db)
        λ n.
          bind-IsLawful (publish_decision now n out.gate.sent) (λ _. pure true)
            (publish_decision-IsLawful now n out.gate.sent) λ _. pure-IsLawful true

  ask_tradeoff-IsLawful : (last : Escalation) → IsLawful (ask_tradeoff cfg now stage out last)
  ask_tradeoff-IsLawful last =
      bind-IsLawful (wrapped stage last out) _ (wrapped-IsLawful last) λ sha.
        bind-IsLawful
          (routed cfg now stage out last StageState.awaiting_human
            (request_decision now stage.id "escalation_tradeoff" out.gate.file sha))
          (λ _. announce cfg now stage out)
          (routed-IsLawful last StageState.awaiting_human _
            (request_decision-IsQuiet now stage.id "escalation_tradeoff" out.gate.file sha))
          λ _. announce-IsLawful

  plain-IsLawful :
      (last : Escalation) (target : StageState) → IsLawful (plain cfg now stage out last target)
  plain-IsLawful last target =
      bind-IsLawful (routed cfg now stage out last target (settled_as now stage.id target)) _
        (routed-IsLawful last target _ (settled_as-IsQuiet now stage.id target))
        λ _. pure-IsLawful true

  send-IsLawful :
      (last : Escalation) (target : StageState) → IsLawful (send cfg now stage out last target)
  send-IsLawful last StageState.awaiting_human = ask_tradeoff-IsLawful last
  send-IsLawful last target = plain-IsLawful last target

  resolve-IsLawful :
      (last : Escalation) (o : Option StageState) → IsLawful (resolve cfg now stage out last o)
  resolve-IsLawful last none = refuse-IsLawful last
  resolve-IsLawful last (some target) =
      bind-IsLawful (archive stage out) _ archive-IsLawful λ _. send-IsLawful last target

  leave-IsLawful : (o : Option Escalation) → IsLawful (leave cfg now stage out o)
  leave-IsLawful none = pure-IsLawful false
  leave-IsLawful (some last) =
      if-IsLawful (get_or last.resolution "" == "settled") _ _ settle_without_action-IsLawful
        (resolve-IsLawful last (lookup (get_or last.resolution "") escalation_resolutions))

  pub step_escalated-IsLawful : IsLawful (step_escalated cfg now stage out)
  unfolding step_escalated
  step_escalated-IsLawful =
      bind-IsLawful (reads (open_escalation_count "stage" stage.id)) _
        (reads-IsLawful (open_escalation_count "stage" stage.id))
        λ n. if-IsLawful (ltb 0 n) _ _ (pure-IsLawful false) (
          bind-IsLawful (reads (latest_resolved_escalation "stage" stage.id)) _
            (reads-IsLawful (latest_resolved_escalation "stage" stage.id))
            λ last. leave-IsLawful last)
