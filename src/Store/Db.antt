-- ===== src/Store/Db.antt =====
-- The tables of src/sf_factory/migrations/ (0001 to 0006) that the modelled code reads and writes.
-- `phases`, `stages` and `dag_edges` have texts for keys; the others an AUTOINCREMENT key.
use sf_f.Base.{ℕ, String, Option, Bool, List, []}
use sf_f.Models.Level.{Level}
use sf_f.Models.Records.{
  Time, Phase, Stage, Event, Escalation, ProcessRecord, Finding, DecisionRequest, ArtifactRef,
}
use sf_f.Store.Table
use sf_f.Store.Table.{Table}

pub record Edge : Type 0 where
  pub level : Level
  pub from_id : String
  pub to_id : String

pub record FixIteration : Type 0 where
  pub stage_id : String
  pub iteration : ℕ
  pub failing_tests : ℕ
  pub report_artifact_id : Option ℕ
  pub created_at : Time

pub record Churn : Type 0 where
  pub stage_id : String
  pub file_path : String
  pub region : ℕ
  pub edit_count : ℕ
  pub updated_at : Time

-- A row of `token_ledger`; `cost_usd`, a real that the modelled code never reads, is left out.
pub record LedgerRow : Type 0 where
  pub process_id : ℕ
  pub unit_level : String
  pub unit_id : String
  pub role : String
  pub model : String
  pub tokens_in : Option ℕ
  pub tokens_out : Option ℕ
  pub estimated : Bool
  pub recorded_at : Time

-- A row of `decision_requests`: the dataclass has no field for the column that 0004 added.
pub record DecisionRow : Type 0 where
  pub request : DecisionRequest
  pub published_at : Option Time

pub record Setting : Type 0 where
  pub value : String  -- a JSON text
  pub updated_at : Time
  pub updated_by : String

pub record Db : Type 0 where
  pub phases : List Phase
  pub stages : List Stage
  pub dag_edges : List Edge
  pub events : Table Event
  pub fix_iterations : List FixIteration
  pub churn : List Churn
  pub escalations : Table Escalation
  pub findings : Table Finding
  pub decisions : Table DecisionRow
  pub processes : Table ProcessRecord
  pub ledger : Table LedgerRow
  pub artifacts : Table ArtifactRef
  pub settings : List (String × Setting)

abbrev pub empty : Db
empty = record {
  phases = [];
  stages = [];
  dag_edges = [];
  events = Table.empty;
  fix_iterations = [];
  churn = [];
  escalations = Table.empty;
  findings = Table.empty;
  decisions = Table.empty;
  processes = Table.empty;
  ledger = Table.empty;
  artifacts = Table.empty;
  settings = [];
}
