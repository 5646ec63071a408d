-- ===== src/Scheduler/Tests.antt =====
-- A dispatch of two stages with one slot for agents, and the proving-ground hold.
use sf_f.Base.{
  String, ◌≡◌, refl, true, false, ◌||◌, none, List, [], ◌∷◌, any, contains, pair_eq, string_eq,
  arith,
}
use sf_f.Base.Raises.{ok}
use sf_f.Config.{FactoryConfig}
use sf_f.Models.Level.{Level, stage, level_eq}
use sf_f.Models.StageState.{StageState}
use sf_f.Models.PhaseState
use sf_f.Models.SchedCategory.{running, runnable}
use sf_f.Models.Records.{Stage, Phase}
use sf_f.Store.Table
use sf_f.Store.Database.{transaction}
use sf_f.Store.Events.{insert_event}
use sf_f.Store.Escalations.{insert_escalation, open_escalation}
use sf_f.StateMachine.{transition, transition_block}
use sf_f.StateMachine.Tests.{db_at}
use sf_f.Scheduler.Containment.{Failure, coupled, contain_failure}
use sf_f.Scheduler.Containment.Kept.{IsEscalated, contain_failure-IsEscalated}
use sf_f.Store.Db
use sf_f.Store.Db.{Db}
use sf_f.Store.Units.{get_stage, AnyUnit, a_stage}
use sf_f.Store.Events.{max_event_seq}
use sf_f.Store.Settings.{get_runtime_settings, decoded}
use sf_f.Store.Settings.Effective.{max_parallel_agents, drain_manual}
use sf_f.Scheduler.Scan.{Candidate}
use sf_f.Scheduler.Proving.{proving_held_phase_ids}
use sf_f.Scheduler.Proving.Held.{names_held, contains-proving_held_phase_ids}
use sf_f.Scheduler.Dispatch.{
  SchedState, Tick, dispatch, begin_tick, rounds, visit, admit, is_eligible, drive_spawns,
}
use sf_f.Scheduler.Dispatch.Cap.{Bounded}
use sf_f.Scheduler.Dispatch.Fair.{names, dispatch-has, dispatch-adds}
use sf_f.Scheduler.Dispatch.Visits.{may_start}
use sf_f.Scheduler.Dispatch.Steps.{Run, step, dispatched, Run-Bounded}

abbrev config : FactoryConfig
config = record {
  projects = ("web", record { proving_phases = "P0" ∷ [] }) ∷ [];
  escalation = record {
    max_fix_iterations = 2;
    churn_threshold = 5;
    churn_region_lines = 50;
    max_context_resets = 1;
  };
  budgets = record {
    per_stage = [];
    usage_missing_policy = "estimate";
    usage_missing_max_per_stage = 3;
  };
  models = [];
  risk_classes = [];
  consultation_points = [];
  max_parallel_agents = 1;
  agent_timeout_s = 600;
  proactive_enabled = false;
  int_of_text = λ _. none;
  json = record { dumps = λ _. "null"; loads = λ _. none };
}

abbrev stage_of : String → StageState → Stage
stage_of id state = record {
  id = id;
  phase_id = "P1";
  name = id;
  risk_class = "standard";
  state = state;
  branch = none;
  worktree_path = none;
  spec_artifact_id = none;
  created_at = 0;
  updated_at = 0;
  kind = none;
}

-- Two runnable stages and one that is running without an agent.
abbrev scan : List Candidate
scan =
    record {
      level = stage;
      unit_id = "S1";
      category = runnable;
      unit = a_stage (stage_of "S1" StageState.pending);
    }
    ∷ record {
      level = stage;
      unit_id = "S2";
      category = runnable;
      unit = a_stage (stage_of "S2" StageState.pending);
    }
    ∷ record {
      level = stage;
      unit_id = "S3";
      category = running;
      unit = a_stage (stage_of "S3" StageState.merge_gate);
    }
    ∷ []

abbrev no_roles : Level → AnyUnit → List String
no_roles level unit = []

abbrev idle : SchedState
idle = record {
  tasks = [];
  spawning = [];
  last_seq = [];
  blocked_snapshot = [];
  prev_drain_manual = false;
}

abbrev busy : SchedState
busy = record idle { tasks = (stage, "S1") ∷ (stage, "S3") ∷ []; spawning = (stage, "S1") ∷ [] }

abbrev tick : Tick
tick = record {
  cap = 1;
  draining = false;
  drain_lifted = false;
  seq = 0;
  db = Db.empty;
  spawn_roles = no_roles;
}

-- The second stage waits for the slot, the third needs none.
dispatches : dispatch config no_roles scan Db.empty idle ≡ ok (busy, 2)
unfolding dispatch begin_tick rounds visit admit is_eligible drive_spawns max_parallel_agents
    drain_manual get_runtime_settings decoded max_event_seq
dispatches = refl

begins : begin_tick config no_roles Db.empty idle ≡ ok (tick, idle)
unfolding begin_tick max_parallel_agents drain_manual get_runtime_settings decoded max_event_seq
begins = refl

dispatch-has_example : contains (stage, "S3") busy.tasks ≡ true
unfolding drive_spawns is_eligible
dispatch-has_example =
    dispatch-has config no_roles scan Db.empty idle (stage, "S3") begins dispatches refl

dispatch-adds_example :
    (contains (stage, "S1") idle.tasks || names (stage, "S1") (may_start tick idle) scan) ≡ true
dispatch-adds_example =
    dispatch-adds config no_roles scan Db.empty idle (stage, "S1") begins dispatches refl

one_dispatch : Run config 1 idle busy
unfolding max_parallel_agents get_runtime_settings decoded
one_dispatch = step Run.start (dispatched no_roles scan Db.empty refl refl (omega arith) dispatches)

Run-Bounded_example : Bounded 1 busy
Run-Bounded_example = Run-Bounded config 1 one_dispatch (refl, omega arith)

abbrev phase_of : String → PhaseState.PhaseState → Phase
phase_of id state = record {
  id = id;
  project = "web";
  name = id;
  state = state;
  branch = none;
  plan_artifact_id = none;
  created_at = 0;
  updated_at = 0;
}

abbrev phases : List Phase
phases = phase_of "P0" PhaseState.pending ∷ phase_of "P1" PhaseState.pending ∷ []

contains-proving_held_phase_ids_example :
    contains "P1" (proving_held_phase_ids config phases)
    ≡ any (names_held config phases "P1") phases
contains-proving_held_phase_ids_example = contains-proving_held_phase_ids config phases "P1"

abbrev boom : Failure
boom = record { error = "OSError(28)"; error_type = "OSError"; traceback_path = "/logs/1.txt" }

-- From PENDING the table has no move to ESCALATED: the escalation lands alone.
contained : (contain_failure 9 stage "S1" boom (db_at StageState.pending [])).0 ≡ ok tt
unfolding contain_failure coupled transition transition_block transaction get_stage insert_event
    insert_escalation open_escalation Table.insert
contained = refl

contain_failure-IsEscalated_example :
    IsEscalated stage "S1"
      (contain_failure 9 stage "S1" boom (db_at StageState.pending [])).1.tables
contain_failure-IsEscalated_example =
    contain_failure-IsEscalated 9 stage "S1" boom (db_at StageState.pending []) contained
