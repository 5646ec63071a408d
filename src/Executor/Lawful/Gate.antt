-- ===== src/Executor/Lawful/Gate.antt =====
-- The human gate's effects are legal moves.
use sf_f.Base.{ℕ, String, refl, true, false, Option, none, some, [], ◌∷◌, string_eq}
use sf_f.Base.Raises.{Result, ok, err, notify_error}
use sf_f.Config.{FactoryConfig}
use sf_f.Models.StageState.{StageState}
use sf_f.Models.Json.{Payload, str}
use sf_f.Models.Records.{Time, Stage, DecisionRequest}
use sf_f.Store.Act.{Act, pure, outside, reads, recall, transact}
use sf_f.Store.Decisions.{mark_decision_published}
use sf_f.StateMachine.Moves.{Effect-refl, IsLawful, bind-IsLawful, transact-IsLawful}
use sf_f.StateMachine.Quiet.{mark_decision_published-IsQuiet}
use sf_f.Executor.Queries.{latest_decision, risk_cfg}
use sf_f.Executor.Writes.{actor, factory_event, log_event, request_decision}
use sf_f.Executor.Gate.{
  Delivery, published, publish_decision, publish_alert, GateOutside, last_request,
  enter_awaiting_human, leave_clean_audit, take_answer, consume, answer_of, step_awaiting_human,
}
use sf_f.Executor.Lawful.Rules.{
  if-IsLawful, outside-IsLawful, reads-IsLawful, pure-IsLawful, alone-IsLawful, coupled-IsLawful,
}
use sf_f.Executor.Lawful.Writes.{log_event-IsQuiet, request_decision-IsQuiet}

published-IsLawful :
    (now : Time) (context : Payload) (outcome : Result (Unit {0})) (after : Act (Unit {0}))
    → IsLawful after
    → IsLawful (published now context outcome after)
unfolding published
published-IsLawful now context (ok _) after p db = p db
published-IsLawful now context (err notify_error) after p db =
    transact-IsLawful (log_event now (factory_event "alert_delivery_failed" context))
      (log_event-IsQuiet now (factory_event "alert_delivery_failed" context) refl) db
published-IsLawful now context (err e) after p db = Effect-refl db

pub publish_decision-IsLawful :
    (now : Time) (request_id : Option ℕ) (sent : Delivery)
    → IsLawful (publish_decision now request_id sent)
unfolding publish_decision
publish_decision-IsLawful now none sent =
    published-IsLawful now _ sent.outcome (pure tt) (pure-IsLawful tt)
publish_decision-IsLawful now (some n) sent =
    published-IsLawful now _ sent.outcome (transact (mark_decision_published n now))
      (transact-IsLawful (mark_decision_published n now) (mark_decision_published-IsQuiet n now))

pub publish_alert-IsLawful :
    (now : Time) (context : Payload) (sent : Delivery) → IsLawful (publish_alert now context sent)
unfolding publish_alert
publish_alert-IsLawful now context sent =
    published-IsLawful now _ sent.outcome (pure tt) (pure-IsLawful tt)

pub enter_awaiting_human-IsLawful :
    (now : Time) (stage_id from_reason gate_kind : String) (out : GateOutside)
    → IsLawful (enter_awaiting_human now stage_id from_reason gate_kind out)
unfolding enter_awaiting_human
enter_awaiting_human-IsLawful now stage_id from_reason gate_kind out =
    bind-IsLawful (outside out.sha) _ (outside-IsLawful out.sha) λ sha.
      bind-IsLawful _ _
        (coupled-IsLawful now stage_id StageState.awaiting_human actor from_reason
          (some (("gate_kind", str gate_kind) ∷ []))
          (request_decision now stage_id gate_kind out.file sha)
          (request_decision-IsQuiet now stage_id gate_kind out.file sha))
        λ seq.
          bind-IsLawful (recall last_request) (λ n. publish_decision now n out.sent)
            (λ db. Effect-refl db) λ n. publish_decision-IsLawful now n out.sent

pub leave_clean_audit-IsLawful :
    (cfg : FactoryConfig) (now : Time) (stage : Stage) (out : GateOutside)
    → IsLawful (leave_clean_audit cfg now stage out)
unfolding leave_clean_audit
leave_clean_audit-IsLawful cfg now stage out =
    bind-IsLawful (outside (risk_cfg cfg stage.risk_class)) _
      (outside-IsLawful (risk_cfg cfg stage.risk_class))
      λ rc.
        if-IsLawful rc.human_gate _ _
          (bind-IsLawful _ (λ _. pure false)
            (enter_awaiting_human-IsLawful now stage.id
              "findings closed, critical human gate (DoD §9)" "critical_stage" out)
            λ _. pure-IsLawful false)
          (bind-IsLawful _ (λ _. pure true)
            (alone-IsLawful now stage.id StageState.merge_gate actor
              "findings closed, no human gate" none)
            λ _. pure-IsLawful true)

take_answer-IsLawful :
    (now : Time) (stage_id : String) (r : DecisionRequest) (answer : String) (o : Option StageState)
    → IsLawful (take_answer now stage_id r answer o)
take_answer-IsLawful now stage_id r answer none =
    bind-IsLawful (transact (log_event now _)) _
      (transact-IsLawful (log_event now _) (log_event-IsQuiet now _ refl)) λ _. pure-IsLawful false
take_answer-IsLawful now stage_id r answer (some target) =
    bind-IsLawful _ _ (alone-IsLawful now stage_id target "founder" _ _) λ _. pure-IsLawful true

consume-IsLawful :
    (now : Time) (stage_id : String) (o : Option (DecisionRequest × String))
    → IsLawful (consume now stage_id o)
consume-IsLawful now stage_id none = pure-IsLawful false
consume-IsLawful now stage_id (some (r, answer)) = take_answer-IsLawful now stage_id r answer _

pub step_awaiting_human-IsLawful :
    (now : Time) (stage : Stage) → IsLawful (step_awaiting_human now stage)
unfolding step_awaiting_human
step_awaiting_human-IsLawful now stage =
    bind-IsLawful (reads (latest_decision "stage" stage.id)) _
      (reads-IsLawful (latest_decision "stage" stage.id))
      λ decision. consume-IsLawful now stage.id (answer_of decision)
