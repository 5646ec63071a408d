-- ===== src/Executor/Lawful/Verdict.antt =====
-- Carrying out a verdict of CP-1 is a legal move.
use sf_f.Base.{refl, Bool, ℕ, String, Option, none, some, ◌==◌, string_eq, lookup, true, false}
use sf_f.Base.Raises.{err, factory_error, key_error, require_some}
use sf_f.Config.{FactoryConfig}
use sf_f.Models.StageState.{StageState}
use sf_f.Models.Records.{Time, Stage}
use sf_f.Store.Act.{outside, reads, demand}
use sf_f.Store.Processes.{last_session_id}
use sf_f.StateMachine.Moves.{IsLawful, bind-IsLawful}
use sf_f.Executor.Queries.{builder_role}
use sf_f.Executor.Writes.{actor, log_event, stage_event, stage_escalation, escalate}
use sf_f.Executor.Verdict.{
  Verdict, resume, continue_session, rework, give_up, execute_cp1_verdict, downgrade_reason,
  downgrade_payload,
}
use sf_f.Executor.Lawful.Rules.{
  if-IsLawful, outside-IsLawful, reads-IsLawful, pure-IsLawful, alone-IsLawful, coupled-IsLawful,
}
use sf_f.Executor.Lawful.Writes.{log_event-IsQuiet, escalate-IsQuiet}

module _ (cfg : FactoryConfig) (now : Time) (stage : Stage) (v : Verdict) (iteration : ℕ) where
  resume-IsLawful :
      (session_id reason : Option String)
      → IsLawful (resume cfg now stage v iteration session_id reason)
  resume-IsLawful session_id (some reason) =
      let event = stage_event stage.id "verdict_downgraded" (downgrade_payload reason) in
      bind-IsLawful _ _
        (coupled-IsLawful now stage.id StageState.build actor
          "CP-1 continue_session downgraded to rebuild" _ (log_event now event)
          (log_event-IsQuiet now event refl))
        λ _. pure-IsLawful true
  resume-IsLawful session_id none =
      bind-IsLawful _ _
        (alone-IsLawful now stage.id StageState.build actor "CP-1 verdict continue_session" _)
        λ _. pure-IsLawful true

  continue_session-IsLawful : IsLawful (continue_session cfg now stage v iteration)
  continue_session-IsLawful =
      bind-IsLawful (outside (builder_role cfg stage.risk_class stage.kind)) _
        (outside-IsLawful (builder_role cfg stage.risk_class stage.kind))
        λ role.
          bind-IsLawful (reads (last_session_id "stage" stage.id role)) _
            (reads-IsLawful (last_session_id "stage" stage.id role))
            λ session_id.
              bind-IsLawful (demand (lookup role cfg.models) key_error)
                (λ route.
                  resume cfg now stage v iteration session_id
                    (downgrade_reason route.cli session_id))
                (outside-IsLawful (require_some (lookup role cfg.models) key_error))
                λ route. resume-IsLawful session_id (downgrade_reason route.cli session_id)

  rework-IsLawful :
      (target : StageState) (reason : String)
      → IsLawful (rework cfg now stage v iteration target reason)
  rework-IsLawful target reason =
      bind-IsLawful _ _ (alone-IsLawful now stage.id target actor reason _) λ _. pure-IsLawful true

  give_up-IsLawful : IsLawful (give_up cfg now stage v iteration)
  give_up-IsLawful =
      let esc = stage_escalation now stage.id "cp1_verdict" none none in
      bind-IsLawful _ _
        (coupled-IsLawful now stage.id StageState.escalated actor "CP-1 verdict escalate" _
          (escalate esc) (escalate-IsQuiet esc))
        λ _. pure-IsLawful false

  pub execute_cp1_verdict-IsLawful : IsLawful (execute_cp1_verdict cfg now stage v iteration)
  unfolding execute_cp1_verdict
  execute_cp1_verdict-IsLawful =
      if-IsLawful (v.value == "continue_session") _ _ continue_session-IsLawful (
        if-IsLawful (v.value == "rebuild") _ _
          (rework-IsLawful StageState.build "CP-1 verdict rebuild")
          (if-IsLawful (v.value == "respec") _ _
            (rework-IsLawful StageState.spec "CP-1 verdict respec")
            (if-IsLawful (v.value == "escalate") _ _ give_up-IsLawful
              (outside-IsLawful {A = Bool} (err factory_error)))))
