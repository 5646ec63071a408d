-- ===== src/Executor/Tests.antt =====
-- Runs of the stage executor at concrete stages, and its laws at them.
use sf_f.Base.{◌≡◌, refl, Bool, true, false, none, some, [], ◌∷◌, All}
use sf_f.Base.Raises.{Result, ok}
use sf_f.Config.{FactoryConfig}
use sf_f.Models.Trigger.{Trigger}
use sf_f.Models.Json.{num, array, nums}
use sf_f.Models.StageState.{StageState}
use sf_f.Models.Records.{Event, TriggerFiring}
use sf_f.Store.Table
use sf_f.Store.Database.{transaction, Database}
use sf_f.Models.Level
use sf_f.StateMachine.{transition, transition_block}
use sf_f.Scheduler.Containment.{Failure, contain_failure}
use sf_f.StateMachine.History.{IsTraced}
use sf_f.StateMachine.Moves.{Run, view}
use sf_f.StateMachine.Tests.{stage_at, tables_at, db_at, fresh-IsTraced}
use sf_f.Store.Units.{set_unit_state, get_stage}
use sf_f.Store.Events.{insert_event}
use sf_f.Store.Artifacts.{find_artifact_ref, insert_artifact_ref}
use sf_f.Store.Escalations.{open_escalation, insert_escalation}
use sf_f.Store.Settings.{get_runtime_settings, decoded}
use sf_f.Store.Settings.Effective.{budget}
use sf_f.Store.Tokens.{effective_token_sum}
use sf_f.Store.Database.{transaction, read}
use sf_f.Thresholds.{
  evaluate, firings, check_max_fix_iterations, stagnation, nondecreasing_pairs, fix_window,
  check_churn_threshold, check_sentinel, uncovered, check_context_budget,
}
use sf_f.Executor.Writes.{escalate}
use sf_f.Executor.Register.{FileFound, register_artifact}
use sf_f.Executor.Gate.{
  publish_alert, published, Delivery, GateOutside, enter_awaiting_human, step_awaiting_human,
}
use sf_f.Executor.Verdict.{Verdict, execute_cp1_verdict}
use sf_f.Executor.Breach.{
  sift, sift_one, usage_missing_breach, escalation_payload, escalate_all, BreachOutside,
  apply_thresholds,
}
use sf_f.Executor.Answered.{Leads, gate_answers-Leads, Left, step_awaiting_human-Left}
use sf_f.Executor.Executed.{Executed, execute_cp1_verdict-Executed}
use sf_f.Executor.NeverSilent.{Heeded, apply_thresholds-Heeded}
use sf_f.Executor.Refines.{
  Operations, start, more, moves, contains, Operations-Run, Operations-IsTraced,
}

abbrev config : FactoryConfig
config = record {
  projects = [];
  models = ("builder_heavy", record { cli = "codex" }) ∷ [];
  risk_classes = [];
  consultation_points = [];
  escalation = record {
    max_fix_iterations = 2;
    churn_threshold = 5;
    churn_region_lines = 50;
    max_context_resets = 1;
  };
  budgets = record {
    per_stage = ("standard", 1000) ∷ [];
    usage_missing_policy = "estimate";
    usage_missing_max_per_stage = 3;
  };
  max_parallel_agents = 1;
  agent_timeout_s = 600;
  proactive_enabled = false;
  int_of_text = λ _. none;
  json = record { dumps = λ _. "null"; loads = λ _. none };
}

abbrev file : FileFound
file = record { rel_posix = some "_factory/stages/S1/decision-request.md"; digest = ok "abc" }

abbrev delivered : Delivery
delivered = record { outcome = ok tt; error = "" }

abbrev outside_gate : GateOutside
outside_gate = record { sha = ok (some "c0ffee"); file = file; sent = delivered }

abbrev audited : Database
audited = db_at StageState.audit []

abbrev entered : Result (Unit {0}) × Database
entered = enter_awaiting_human 7 "S1" "findings closed" "critical_stage" outside_gate audited

step_awaiting_human-Left_example :
    Left "S1" entered.1 (step_awaiting_human 8 (stage_at StageState.awaiting_human) entered.1)
step_awaiting_human-Left_example =
    step_awaiting_human-Left 8 (stage_at StageState.awaiting_human) entered.1

gate_answers-Leads_example : Leads "rework:BUILD"
gate_answers-Leads_example = gate_answers-Leads "critical_stage" "rework:BUILD" refl

abbrev resume_verdict : Verdict
resume_verdict = record {
  cp_id = "CP-1";
  value = "continue_session";
  rationale = "nearly done";
  fallback_used = false;
  consultation_id = 1;
}

abbrev validating : Database
validating = db_at StageState.validate []

execute_cp1_verdict-Executed_example :
    Executed resume_verdict "S1" validating
      (execute_cp1_verdict config 7 (stage_at StageState.validate) resume_verdict 1 validating)
execute_cp1_verdict-Executed_example =
    execute_cp1_verdict-Executed config 7 (stage_at StageState.validate) resume_verdict 1 validating

abbrev declared : Event
declared = record {
  seq = 1;
  unit_level = "stage";
  unit_id = some "S1";
  event_type = "declared_failure";
  from_state = none;
  to_state = none;
  actor = "runner";
  payload = [];
  created_at = 1;
}

abbrev failing : Database
failing = db_at StageState.validate ((1, declared) ∷ [])

abbrev fired : TriggerFiring
fired = record {
  trigger = Trigger.agent_declared_failure;
  unit_level = "stage";
  unit_id = "S1";
  evidence = ("event_seqs", array (nums (1 ∷ []))) ∷ ("event_seq", num 1) ∷ [];
}

abbrev outside_breach : BreachOutside
outside_breach = record { sha = ok (some "c0ffee"); file = file; sent = delivered }

fires : evaluate config failing.tables (stage_at StageState.validate) ≡ ok (fired ∷ [])
unfolding evaluate firings check_max_fix_iterations stagnation nondecreasing_pairs fix_window
    check_churn_threshold open_escalation check_sentinel uncovered check_context_budget budget
    get_runtime_settings decoded effective_token_sum
fires = refl

abbrev stopped : Result Bool × Database
stopped = apply_thresholds config 7 (stage_at StageState.validate) true outside_breach failing

stopped_returns : stopped.0 ≡ ok true
unfolding evaluate firings check_max_fix_iterations stagnation nondecreasing_pairs fix_window
    check_churn_threshold open_escalation check_sentinel uncovered check_context_budget budget
    get_runtime_settings decoded effective_token_sum apply_thresholds sift sift_one
    usage_missing_breach escalation_payload escalate_all escalate insert_escalation publish_alert
    read transition transition_block transaction set_unit_state insert_event get_stage Table.insert
    register_artifact find_artifact_ref insert_artifact_ref published
stopped_returns = refl

apply_thresholds-Heeded_example : All (Heeded "S1" stopped) (fired ∷ [])
apply_thresholds-Heeded_example =
    apply_thresholds-Heeded 7 (stage_at StageState.validate) true outside_breach config failing
      (fired ∷ []) fires stopped_returns

-- A stage that is dispatched, and whose declared failure is then contained.
abbrev day : Database
day =
    (transition 9 "stage" "S1" "SPEC" "executor" "dispatched" none none
      (db_at StageState.pending [])).1

abbrev crash : Failure
crash = record { error = "KeyError()"; error_type = "KeyError"; traceback_path = "t.txt" }

abbrev a_day :
    Operations (db_at StageState.pending []) (contain_failure 10 Level.stage "S1" crash day).1
a_day =
    more (more start (moves 9 "stage" "S1" "SPEC" "executor" "dispatched" none))
      (contains 10 Level.stage "S1" crash)

Operations-Run_example :
    Run
      (view (tables_at StageState.pending []))
      (view (contain_failure 10 Level.stage "S1" crash day).1.tables)
Operations-Run_example = Operations-Run a_day

Operations-IsTraced_example : IsTraced (contain_failure 10 Level.stage "S1" crash day).1.tables
Operations-IsTraced_example = Operations-IsTraced a_day fresh-IsTraced
