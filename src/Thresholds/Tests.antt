-- ===== src/Thresholds/Tests.antt =====
-- The triggers of a stage whose fix loop makes no progress, and whose agent declared a failure.
use sf_f.Base.{
  Any, ℕ, ◌≡◌, refl, true, false, not, none, some, List, [], ◌∷◌, is_none, All, inl, arith,
}
use sf_f.Base.Raises.{ok}
use sf_f.Config.{FactoryConfig}
use sf_f.Models.StageState
use sf_f.Models.Trigger.{agent_declared_failure, max_fix_iterations}
use sf_f.Models.Json.{num, array, nums}
use sf_f.Models.Records.{Stage, Event, TriggerFiring}
use sf_f.Store.Db
use sf_f.Store.Db.{Db, FixIteration}
use sf_f.Store.Escalations.{open_escalation}
use sf_f.Store.Settings.{get_runtime_settings, decoded}
use sf_f.Store.Settings.Effective.{budget}
use sf_f.Store.Tokens.{effective_token_sum}
use sf_f.Thresholds.{
  iteration_rows, evaluate, firings, check_max_fix_iterations, check_churn_threshold,
  check_sentinel, check_context_budget, uncovered, fix_window, stagnation, nondecreasing_pairs,
}
use sf_f.Thresholds.Stagnation.{is_stagnant, check_max_fix_iterations_lem}
use sf_f.Thresholds.Sentinels.{check_sentinel_covered}
use sf_f.Thresholds.Fires.{FiresWith, evaluate-has}
use sf_f.Thresholds.Quiet.{IsDue, evaluate-IsDue}

abbrev config : FactoryConfig
config = record {
  projects = [];
  escalation = record {
    max_fix_iterations = 2;
    churn_threshold = 5;
    churn_region_lines = 50;
    max_context_resets = 1;
  };
  budgets = record {
    per_stage = ("standard", 1000) ∷ [];
    usage_missing_policy = "estimate";
    usage_missing_max_per_stage = 3;
  };
  models = [];
  risk_classes = [];
  consultation_points = [];
  max_parallel_agents = 2;
  agent_timeout_s = 600;
  proactive_enabled = false;
  int_of_text = λ _. none;
  json = record { dumps = λ _. "null"; loads = λ _. none };
}

abbrev building : Stage
building = record {
  id = "S1";
  phase_id = "P1";
  name = "parser";
  risk_class = "standard";
  state = StageState.validate;
  branch = none;
  worktree_path = none;
  spec_artifact_id = none;
  created_at = 0;
  updated_at = 0;
  kind = none;
}

abbrev failing : ℕ → ℕ → FixIteration
failing n tests = record {
  stage_id = "S1";
  iteration = n;
  failing_tests = tests;
  report_artifact_id = none;
  created_at = n;
}

abbrev declared : Event
declared = record {
  seq = 1;
  unit_level = "stage";
  unit_id = some "S1";
  event_type = "declared_failure";
  from_state = none;
  to_state = none;
  actor = "builder";
  payload = [];
  created_at = 3;
}

abbrev tables : Db
tables = record Db.empty {
  stages = building ∷ [];
  fix_iterations = failing 1 4 ∷ failing 2 3 ∷ failing 3 3 ∷ [];
  events = record { rows = (1, declared) ∷ []; last_id = 1 };
}

-- The same tables after the failure was escalated and resolved.
abbrev covered : Db
covered = record tables {
  escalations = record {
    rows =
        (
          1,
          record {
            id = some 1;
            unit_level = "stage";
            unit_id = "S1";
            trigger = "agent_declared_failure";
            target = "phase_architect";
            payload_artifact_id = none;
            event_seq = some 1;
            status = "resolved";
            resolution = some "return_to_build";
            created_at = 4;
            resolved_at = some 5;
          },
        )
        ∷ [];
    last_id = 1;
  };
}

check_max_fix_iterations_lem_example :
    is_none (check_max_fix_iterations config tables building)
    ≡ not (is_stagnant 2 (fix_window 2 "S1" tables))
check_max_fix_iterations_lem_example = check_max_fix_iterations_lem config tables building

-- 3 and 3 is no progress.
stagnates : is_stagnant 2 (fix_window 2 "S1" tables) ≡ true
unfolding fix_window
stagnates = refl

uncovered_at_first : uncovered "S1" "declared_failure" agent_declared_failure tables ≡ 1 ∷ []
unfolding uncovered
uncovered_at_first = refl

check_sentinel_covered_example :
    check_sentinel covered building "declared_failure" agent_declared_failure ≡ none
check_sentinel_covered_example =
    check_sentinel_covered tables covered building "declared_failure" agent_declared_failure
      (omega arith, tt) uncovered_at_first refl (inl refl)

abbrev two_firings : List TriggerFiring
two_firings =
    record {
      trigger = max_fix_iterations;
      unit_level = "stage";
      unit_id = "S1";
      evidence =
          ("iterations", array (iteration_rows (failing 2 3 ∷ failing 3 3 ∷ [])))
          ∷ ("max_fix_iterations", num 2)
          ∷ [];
    }
    ∷ record {
      trigger = agent_declared_failure;
      unit_level = "stage";
      unit_id = "S1";
      evidence = ("event_seqs", array (nums (1 ∷ []))) ∷ ("event_seq", num 1) ∷ [];
    }
    ∷ []

evaluated : evaluate config tables building ≡ ok two_firings
unfolding evaluate firings check_max_fix_iterations stagnation nondecreasing_pairs fix_window
    check_churn_threshold check_sentinel uncovered check_context_budget open_escalation
    get_runtime_settings decoded budget effective_token_sum
evaluated = refl

evaluate-IsDue_example : All (IsDue config tables building) two_firings
evaluate-IsDue_example = evaluate-IsDue config tables building evaluated

evaluate-has_example :
    Any
      (FiresWith agent_declared_failure
        (("event_seqs", array (nums (1 ∷ []))) ∷ ("event_seq", num 1) ∷ []))
      two_firings
unfolding open_escalation check_sentinel uncovered
evaluate-has_example =
    evaluate-has config tables building agent_declared_failure
      (("event_seqs", array (nums (1 ∷ []))) ∷ ("event_seq", num 1) ∷ []) refl refl evaluated
