-- ===== src/Store/Tests.antt =====
-- The operations of the database at concrete rows.
use sf_f.Base.{Bool, if◌then◌else◌}
use sf_f.Base.{
  ℕ, ◌+◌, String, ◌≡◌, ◌↔◌, refl, true, false, none, some, [], ◌∷◌, ◌==◌, string_eq, arith, All,
}
use sf_f.Base.Raises.{Result, ok, err, factory_error}
use sf_f.Models.Level.{stage}
use sf_f.Base.{List, lookup}
use sf_f.Models.Json.{Json, Codec, flag}
use sf_f.Store.Settings.{decoded, get_runtime_settings, set_runtime_setting}
use sf_f.Store.Settings.RoundTrip.{get-set_runtime_setting}
use sf_f.Models.StageState
use sf_f.Models.Records.{Stage, Escalation, ProcessRecord}
use sf_f.Store.Table
use sf_f.Store.Table.Keys.{IsKeyed}
use sf_f.Store.Db
use sf_f.Store.Db.{Db, DecisionRow, LedgerRow}
use sf_f.Store.Database.{Database, transaction}
use sf_f.Store.Dag.{deps_done}
use sf_f.Store.Dag.Laws.{Frees, deps_done_lem}
use sf_f.Store.Counters.{max_iteration, edits, insert_fix_iteration, bump_churn}
use sf_f.Store.Counters.Laws.{same_bucket, insert_fix_iteration_lem, bump_churn_lem}
use sf_f.Store.Escalations.{insert_escalation, resolve_escalation, is_open, close}
use sf_f.Store.Escalations.OneOpen.{OneOpen, Change, unchanged, change, Changes-OneOpen}
use sf_f.Store.Escalations.Laws.{resolve_escalation_once}
use sf_f.Store.Decisions.{answer_decision, answer_row, is_pending}
use sf_f.Store.Decisions.Laws.{answer_decision_once}
use sf_f.Store.Processes.{mark_process_running, is_spawned, start}
use sf_f.Store.Processes.Laws.{mark_process_running_once}
use sf_f.Store.Tokens.{effective_token_sum}
use sf_f.Store.Tokens.{insert_token_usage}
use sf_f.Store.Tokens.Laws.{Charged, insert_token_usage-Charged}
use sf_f.Store.Tx.{Tx}
use sf_f.Store.Database.Connection.{Sqlite, IsLawful, Session, Block, run_transaction}
use sf_f.Store.Database.Connection.Implements.{Writes, Same, run_transaction-Same}

abbrev parser : Stage
parser = record {
  id = "S1";
  phase_id = "P1";
  name = "parser";
  risk_class = "standard";
  state = StageState.build;
  branch = none;
  worktree_path = none;
  spec_artifact_id = none;
  created_at = 0;
  updated_at = 0;
  kind = none;
}

abbrev raised : Escalation
raised = record {
  id = none;
  unit_level = "stage";
  unit_id = "S1";
  trigger = "churn_threshold";
  target = "phase_architect";
  payload_artifact_id = none;
  event_seq = none;
  status = "open";
  resolution = none;
  created_at = 1;
  resolved_at = none;
}

abbrev run : ProcessRecord
run = record {
  id = some 1;
  kind = "agent";
  role = "builder";
  unit_level = some "stage";
  unit_id = some "S1";
  cp_id = none;
  session_id = none;
  pid = none;
  cmdline = "claude";
  cwd = none;
  state = "spawned";
  exit_code = none;
  ndjson_log_path = none;
  spawned_at = 1;
  heartbeat_at = none;
  ended_at = none;
}

abbrev asked : DecisionRow
asked = record {
  request = record {
    id = some 1;
    unit_level = "stage";
    unit_id = "S1";
    gate_kind = "signoff";
    request_artifact_id = 1;
    status = "pending";
    answer = none;
    answer_artifact_id = none;
    created_at = 1;
    alerted_at = none;
    answered_at = none;
  };
  published_at = none;
}

abbrev tables : Db
tables = record Db.empty {
  stages = parser ∷ [];
  dag_edges = record { level = stage; from_id = "S1"; to_id = "S2" } ∷ [];
  processes = record { rows = (1, run) ∷ []; last_id = 1 };
  decisions = record { rows = (1, asked) ∷ []; last_id = 1 };
}

-- The tables that a write leaves.
abbrev left : {A : Type 0} → Result (A × Db) → Db
left (ok (a, d)) = d
left (err e) = Db.empty

deps_done_lem_example :
    (deps_done stage "S2" tables ≡ true) ↔ All (Frees stage "S2" tables) tables.dag_edges
deps_done_lem_example = deps_done_lem stage "S2" tables

abbrev iterated : Db
iterated = left (insert_fix_iteration 1 "S1" 4 none tables)

insert_fix_iteration_lem_example :
    (1 ≡ max_iteration "S1" tables.fix_iterations + 1)
    × (max_iteration "S1" iterated.fix_iterations ≡ 1)
    × ((other : String)
        → ("S1" == other) ≡ false
        → max_iteration other iterated.fix_iterations ≡ max_iteration other tables.fix_iterations)
unfolding insert_fix_iteration
insert_fix_iteration_lem_example = insert_fix_iteration_lem 1 "S1" 4 none tables refl

abbrev edited : Db
edited = left (bump_churn 1 "S1" "a.py" 0 tables)

bump_churn_lem_example :
    (1 ≡ edits "S1" "a.py" 0 tables.churn + 1)
    × (edits "S1" "a.py" 0 edited.churn ≡ 1)
    × ((s' f' : String) (r' : ℕ)
        → same_bucket "S1" "a.py" 0 s' f' r' ≡ false
        → edits s' f' r' edited.churn ≡ edits s' f' r' tables.churn)
unfolding bump_churn
bump_churn_lem_example = bump_churn_lem 1 "S1" "a.py" 0 tables refl

abbrev escalated : Db
escalated = left (insert_escalation raised tables)

inserted : insert_escalation raised tables ≡ ok (1, escalated)
unfolding insert_escalation Table.insert
inserted = refl

one_row-IsKeyed : {R : Type 0} (r : R) → IsKeyed (record { rows = (1, r) ∷ []; last_id = 1 })
one_row-IsKeyed r = record { ascends = (omega arith, tt); below = (omega arith, tt) }

abbrev closed : Db
closed = left (resolve_escalation 5 1 "return_to_build" escalated)

resolve_escalation_once_example :
    ((e : Escalation) × (Table.get 1 escalated.escalations ≡ some e)
      × (is_open e ≡ true)
      × (Table.get 1 closed.escalations ≡ some (close 5 "return_to_build" e)))
    × (resolve_escalation 6 1 "cancel" closed ≡ err factory_error)
unfolding resolve_escalation insert_escalation Table.insert Table.update Table.rowcount
resolve_escalation_once_example =
    resolve_escalation_once 5 6 1 "return_to_build" "cancel" escalated
      (one_row-IsKeyed (record raised { id = some 1 })) refl

abbrev answered : Db
answered = left (answer_decision 5 1 "approve" none tables)

answer_decision_once_example :
    ((r : DecisionRow) × (Table.get 1 tables.decisions ≡ some r)
      × (is_pending r ≡ true)
      × (Table.get 1 answered.decisions ≡ some (answer_row 5 "approve" none r)))
    × (answer_decision 6 1 "reject" none answered ≡ err factory_error)
unfolding answer_decision Table.update Table.rowcount
answer_decision_once_example =
    answer_decision_once 5 6 1 "approve" "reject" none none tables (one_row-IsKeyed asked) refl

abbrev running : Db
running = left (mark_process_running 1 77 2 tables)

mark_process_running_once_example :
    ((r : ProcessRecord) × (Table.get 1 tables.processes ≡ some r)
      × (is_spawned r ≡ true)
      × (Table.get 1 running.processes ≡ some (start 77 2 r)))
    × (mark_process_running 1 78 3 running ≡ err factory_error)
unfolding mark_process_running Table.update Table.rowcount
mark_process_running_once_example =
    mark_process_running_once 1 77 78 2 3 tables (one_row-IsKeyed run) refl

none_open : OneOpen tables
none_open l i t = omega arith

Changes-OneOpen_example : OneOpen escalated
Changes-OneOpen_example =
    Changes-OneOpen (change unchanged (Change.inserted raised inserted)) none_open

-- A usage of the run, which has not failed.
abbrev usage : LedgerRow
usage = record {
  process_id = 1;
  unit_level = "stage";
  unit_id = "S1";
  role = "builder";
  model = "opus";
  tokens_in = some 30;
  tokens_out = some 12;
  estimated = false;
  recorded_at = 4;
}

abbrev spent : Db
spent = left (insert_token_usage usage tables)

recorded : insert_token_usage usage tables ≡ ok (tt, spent)
unfolding insert_token_usage Table.insert Table.get
recorded = refl

charged_sum : effective_token_sum "stage" "S1" (some "decision_session") spent ≡ 42
unfolding effective_token_sum insert_token_usage Table.insert Table.get
charged_sum = refl

insert_token_usage-Charged_example :
    (pr : ProcessRecord) × (Table.get 1 tables.processes ≡ some pr) × Charged usage pr tables spent
insert_token_usage-Charged_example = insert_token_usage-Charged usage tables recorded

-- A connection in memory: what is stored, what was written since BEGIN, and whether it runs.
record Memory : Type 0 where
  busy : Bool
  stored : Db
  written : Db

abbrev memory : Sqlite
memory = record {
  Connection = Memory;
  in_transaction = λ c. c.busy;
  committed = λ c. c.stored;
  current = λ c. if c.busy then c.written else c.stored;
  begin_immediate = λ c. record {
    busy = true;
    stored = c.stored;
    written = if c.busy then c.written else c.stored;
  };
  commit = λ c. record {
    busy = false;
    stored = if c.busy then c.written else c.stored;
    written = c.written;
  };
  rollback = λ c. record { busy = false; stored = c.stored; written = c.stored };
}

memory-IsLawful : IsLawful memory
memory-IsLawful = record {
  in_transaction-begin = λ c. refl;
  committed-begin = λ c. refl;
  current-begin = λ c idle. rw idle refl;
  in_transaction-commit = λ c. refl;
  committed-commit = λ c busy. refl;
  in_transaction-rollback = λ c. refl;
  committed-rollback = λ c. refl;
}

-- A block that has deleted every stage when it raises.
abbrev fails_late : Block memory (Unit {0})
fails_late c = (err factory_error, record c { written = record c.written { stages = [] } })

abbrev fails : Tx (Unit {0})
fails d = err factory_error

fails-Writes : Writes memory fails_late fails
fails-Writes c busy = (refl, (busy, refl))

abbrev idle : Session memory
idle = record {
  connection = some (record { busy = false; stored = tables; written = tables });
  read_only = false;
  in_tx = false;
}

abbrev connection : Database
connection = record { is_open = true; read_only = false; in_tx = false; tables = tables }

run_transaction-Same_example :
    Same memory (run_transaction memory fails_late idle) (transaction fails connection)
run_transaction-Same_example =
    run_transaction-Same memory memory-IsLawful fails_late fails fails-Writes idle connection
      (refl, (refl, refl, refl))

-- A codec that knows one value.
abbrev switch : Codec
switch = record {
  dumps = λ _. "true";
  loads = λ text. if text == "true" then some (flag true) else none;
}

abbrev lowered : Db
lowered = record Db.empty {
  settings = ("drain.manual", record { value = "true"; updated_at = 1; updated_by = "cli" }) ∷ [];
}

abbrev drained : Db
drained = left (set_runtime_setting switch "governor.autodrenaj" (flag true) "founder" 3 lowered)

drain-set :
    set_runtime_setting switch "governor.autodrenaj" (flag true) "founder" 3 lowered
    ≡ ok (tt, drained)
unfolding set_runtime_setting
drain-set = refl

readable : get_runtime_settings switch lowered ≡ ok (("drain.manual", flag true) ∷ [])
unfolding get_runtime_settings decoded
readable = refl

get-set_runtime_setting_example :
    (after : List (String × Json)) × (get_runtime_settings switch drained ≡ ok after)
    × ((k : String)
        → lookup k after ≡ (
            if "governor.autodrenaj" == k
            then some (flag true)
            else lookup k (("drain.manual", flag true) ∷ [])))
get-set_runtime_setting_example =
    get-set_runtime_setting switch "governor.autodrenaj" (flag true) "founder" 3 lowered refl
      readable drain-set
