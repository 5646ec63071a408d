-- ===== src/Executor/Refines.antt =====
-- The operations of the executors and of the governor, in any order and any number, refine the transition tables.
use sf_f.Base.{ℕ, String, Bool, Option, none, string_eq}
use sf_f.Config.{FactoryConfig}
use sf_f.Models.Level.{Level}
use sf_f.Models.Json.{Payload}
use sf_f.Models.Records.{Time, Stage}
use sf_f.Store.Database.{Database}
use sf_f.StateMachine.{transition}
use sf_f.StateMachine.History.{IsTraced}
use sf_f.StateMachine.Moves.{Run, view, Effect, Effect-refl, Effect-trans, transition-Effect}
use sf_f.StateMachine.Quiet.{pure-IsQuiet}
use sf_f.Scheduler.Containment.{Failure, contain_failure}
use sf_f.Scheduler.Containment.Kept.{contain_failure-Effect}
use sf_f.Governor.Lift.{Memory, lift_hold}
use sf_f.Governor.Lifted.{lift_hold-Effect}
use sf_f.Governor.Hold.{Holds, note_match, reconcile_restart}
use sf_f.Governor.Quiet.{reconcile_restart-IsLawful, note_match-IsLawful}
use sf_f.Executor.Gate.{Delivery, GateOutside, leave_clean_audit, step_awaiting_human}
use sf_f.Executor.Verdict.{Verdict, execute_cp1_verdict}
use sf_f.Executor.Escalated.{EscalatedOutside, step_escalated}
use sf_f.Executor.Breach.{BreachOutside, apply_thresholds}
use sf_f.Executor.Lawful.Gate.{leave_clean_audit-IsLawful, step_awaiting_human-IsLawful}
use sf_f.Executor.Lawful.Verdict.{execute_cp1_verdict-IsLawful}
use sf_f.Executor.Lawful.Escalated.{step_escalated-IsLawful}
use sf_f.Executor.Lawful.Breach.{apply_thresholds-IsLawful}

-- One operation, whatever the configuration, the clock and the world outside do.
pub data Operation (db : Database) : Database → Type 0 where
  moves :
      (now : Time) (level unit_id to_state actor reason : String) (payload : Option Payload)
      → Operation db (transition now level unit_id to_state actor reason payload none db).1
  contains :
      (now : Time) (level : Level) (unit_id : String) (f : Failure)
      → Operation db (contain_failure now level unit_id f db).1
  applies :
      (cfg : FactoryConfig) (now : Time) (s : Stage) (worktree : Bool) (out : BreachOutside)
      → Operation db (apply_thresholds cfg now s worktree out db).1
  executes :
      (cfg : FactoryConfig) (now : Time) (s : Stage) (v : Verdict) (iteration : ℕ)
      → Operation db (execute_cp1_verdict cfg now s v iteration db).1
  leaves :
      (cfg : FactoryConfig) (now : Time) (s : Stage) (out : GateOutside)
      → Operation db (leave_clean_audit cfg now s out db).1
  answers : (now : Time) (s : Stage) → Operation db (step_awaiting_human now s db).1
  resolves :
      (cfg : FactoryConfig) (now : Time) (s : Stage) (out : EscalatedOutside)
      → Operation db (step_escalated cfg now s out db).1
  restarts : (now : Time) → Operation db (reconcile_restart now db).1
  notes :
      (enabled : Bool) (now : Time) (signature role : String) (process_id : Option ℕ) (g : Holds)
      → Operation db ((note_match enabled now signature role process_id g).1 db).1
  lifts :
      (notify_architect : Bool) (now : Time) (sent architect_sent : Delivery) (probe_process_id : ℕ)
      (g : Memory)
      → Operation db (lift_hold notify_architect now sent architect_sent probe_process_id g db).1.1

pub data Operations (db : Database) : Database → Type 0 where
  start : Operations db db
  more : {x y : Database} → Operations db x → Operation x y → Operations db y

Operation-Effect : (db : Database) {db' : Database} → Operation db db' → Effect db db'
Operation-Effect db (moves now level unit_id to_state actor reason payload) =
    transition-Effect now level unit_id to_state actor reason payload none db (pure-IsQuiet tt)
Operation-Effect db (contains now level unit_id f) = contain_failure-Effect now level unit_id f db
Operation-Effect db (applies cfg now s worktree out) =
    apply_thresholds-IsLawful cfg now s worktree out db
Operation-Effect db (executes cfg now s v iteration) =
    execute_cp1_verdict-IsLawful cfg now s v iteration db
Operation-Effect db (leaves cfg now s out) = leave_clean_audit-IsLawful cfg now s out db
Operation-Effect db (answers now s) = step_awaiting_human-IsLawful now s db
Operation-Effect db (resolves cfg now s out) = step_escalated-IsLawful cfg now s out db
Operation-Effect db (restarts now) = reconcile_restart-IsLawful now db
Operation-Effect db (notes enabled now signature role process_id g) =
    note_match-IsLawful enabled now signature role process_id g db
Operation-Effect db (lifts notify_architect now sent architect_sent probe_process_id g) =
    lift_hold-Effect notify_architect now sent architect_sent probe_process_id g db

Operations-Effect : (db : Database) {db' : Database} → Operations db db' → Effect db db'
Operations-Effect db start = Effect-refl db
Operations-Effect db (more {x = x} os o) =
    Effect-trans (Operations-Effect db os) (Operation-Effect x o)

-- The operations refine the transition tables. Take any number of transitions, contained failures,
-- applied thresholds, executed verdicts, closed audits, answered gates, resolved escalations, and holds
-- of the governor that are noted, lifted or closed at a restart, in any order, each of which may return or raise, with any outcome of git, of the files and of the
-- notifier: seen through the states of the units they are a run of moves of one unit at a time,
-- each of which its level's table allows.
pub Operations-Run :
    {db db' : Database} → Operations db db' → Run (view db.tables) (view db'.tables)
Operations-Run {db} os = (Operations-Effect db os).run

-- However the operations of the executors and of the governor follow each other: if every unit's row was the end of its
-- history in the event log, it is so afterwards.
pub Operations-IsTraced :
    {db db' : Database} → Operations db db' → IsTraced db.tables → IsTraced db'.tables
Operations-IsTraced {db} os t = (Operations-Effect db os).traced t
