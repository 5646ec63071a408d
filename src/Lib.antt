-- ===== src/Lib.antt =====
-- The software factory: a control plane that takes units of work, phases and their stages, through
-- their states, with agents that do the work and a founder who decides.
--
-- How the parts interact. A unit is a row of the database with a state. The state machine alone
-- changes it: `transition` checks the table of legal moves, writes the row, appends an event to the
-- log and runs the caller's further writes, all in one transaction. The scheduler reads the units
-- once per tick, gives each its scheduling category, and starts a task for the ones that may go
-- on, within a cap on agents. The task of a stage is its executor: each of its steps reads the tables,
-- calls out to git and to the notifier, and makes transitions. The thresholds read the counters and
-- the log and say which escalations are due, and the executor opens them. The
-- governor holds the starts while a provider's capacity is out, and resolves, when it is back, the
-- escalations that the outage caused. A plan is checked before its stages become units. All of them share the tables of the database.
--
-- Files and sources.
--   Base.antt             lists, equality, errors and sets, for all the others
--   Models.antt           src/sf_factory/models.py: enums, transition tables, records; Models/Lifecycle
--                         has the laws of the tables
--   Config.antt           src/sf_factory/config.py: the fields that are read
--   Store.antt            src/sf_factory/db.py and src/sf_factory/migrations/: Store/Db is the state (the
--                         tables), Store/Database the connection as it is seen from the
--                         tables and Store/Database/Connection as it is in sqlite3, Store/Tx one
--                         transaction's writes, and one module per group of operations, with its
--                         laws below it; Store/Settings/Effective is src/sf_factory/runtime_settings.py
--   StateMachine.antt     src/sf_factory/statemachine.py
--   Scheduler.antt        src/sf_factory/scheduler.py: Scheduler/Proving is proving_held_phase_ids,
--                         Scheduler/Scan is _scan_units, Scheduler/Dispatch is _dispatch, _reap
--                         and the end of _drive, Scheduler/Containment is _contain_failure
--   Thresholds.antt       src/sf_factory/thresholds.py
--   Executor.antt         src/sf_factory/scheduler.py: the steps of StageExecutor. Executor/Queries is the
--                         queries at the head of the file, Executor/Writes what is written inside a
--                         transaction, Executor/Gate the human gate, Executor/Verdict
--                         _execute_cp1_verdict, Executor/Escalated _step_escalated, Executor/Breach
--                         _apply_thresholds; Executor/Register is register_artifact of
--                         src/sf_factory/artifacts.py. The other modules below it are laws
--   Governor.antt         src/sf_factory/scheduler.py: CapacityGovernor: the sweep that resumes
--                         what an outage stopped; Governor/Hold its hold and the restart,
--                         Governor/Lift _lift_hold; the other modules below it are laws
--   Plans.antt            src/sf_factory/artifacts.py: evaluate_stage_sizes; Plans/Reading is
--                         read_phase_plan, Plans/Acyclic the two checks for cycles,
--                         Plans/Contracts _assert_contract_reachable, Plans/Ids the ids of a plan
--
-- Conventions. A function that reads the database takes the tables; one that writes is a `Tx`, from
-- tables to a result with new tables, or an exception, which carries none: that a block which has
-- written before it raised comes to the same is shown in Store/Database/Connection. The constraints
-- of the schema that an operation can meet (keys, references, CHECKs, the partial unique index on
-- open escalations) are checks that raise sqlite3.IntegrityError. A `Table` has an AUTOINCREMENT key, a
-- list has a key of texts. A step of an executor is an `Act`, from the connection to a result and
-- the connection: what it committed before an exception stays. StateMachine/Moves has the abstract
-- view of the tables, the state of every unit, and the moves on it. Instants are numbers in place of
-- fixed-width ISO texts, of the same order. Numbers that the program never lets below zero are
-- natural, and so are those of a JSON value. Every definition is total: loops over lists are
-- structural recursion. Two loops run on fuel: the walk from the contracts has one round for each
-- contract and each edge, and the sort of the graph one for each unit, and in each case one more, in
-- which the loop finds nothing left.
--
-- Parameters. `int` on a text and Python's json (`int_of_text` and `json` of the configuration), the
-- roles an executor would spawn (`spawn_roles`), the instants of the clock (one for a step), the
-- caller's coupled writes, the outcomes of git, of files and of the notifier (`GateOutside`,
-- `EscalatedOutside`, `BreachOutside`, `FileFound`, `Delivery`), the plan that the JSON and its
-- schema gave, and sqlite3's connection (`Sqlite`, with the documented laws of BEGIN, COMMIT and
-- ROLLBACK).
--
-- Not modelled. Files, subprocesses, git, HTTP and the texts of messages; failures of SQLite
-- itself; real numbers (costs, percentages); the steps of a stage that run agents, the executor of
-- phases, the governor's probe and poll, the detectors, the parser of unified diffs, the other
-- sidecars' parsers, and the dialogue of consultation points.
pub mod Base
pub mod Models
pub mod Store
pub mod StateMachine
pub mod Config
pub mod Plans
pub mod Executor
pub mod Governor
pub mod Scheduler
pub mod Thresholds
