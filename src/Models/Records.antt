-- ===== src/Models/Records.antt =====
-- The frozen dataclasses of src/sf_factory/models.py. A timestamp is an ISO text of fixed width, whose
-- order is that of the instants: it is modelled by its number of seconds.
use sf_f.Base.Integers.{ℤ}
use sf_f.Base.{ℕ, String, Option}
use sf_f.Models.StageState.{StageState}
use sf_f.Models.PhaseState.{PhaseState}
use sf_f.Models.Trigger.{Trigger}
use sf_f.Models.Json.{Payload}

abbrev pub Time : Type 0
Time = ℕ

pub record Phase : Type 0 where
  pub id : String
  pub project : String
  pub name : String
  pub state : PhaseState
  pub branch : Option String
  pub plan_artifact_id : Option ℕ
  pub created_at : Time
  pub updated_at : Time

pub record Stage : Type 0 where
  pub id : String
  pub phase_id : String
  pub name : String
  pub risk_class : String
  pub state : StageState
  pub branch : Option String
  pub worktree_path : Option String
  pub spec_artifact_id : Option ℕ
  pub created_at : Time
  pub updated_at : Time
  pub kind : Option String

pub record Event : Type 0 where
  pub seq : ℕ
  pub unit_level : String
  pub unit_id : Option String
  pub event_type : String
  pub from_state : Option String
  pub to_state : Option String
  pub actor : String
  pub payload : Payload
  pub created_at : Time

pub record ArtifactRef : Type 0 where
  pub id : Option ℕ
  pub unit_level : String
  pub unit_id : String
  pub kind : String
  pub repo : String
  pub path : String
  pub sha256 : String
  pub git_commit : Option String
  pub created_at : Time

pub record Escalation : Type 0 where
  pub id : Option ℕ
  pub unit_level : String
  pub unit_id : String
  pub trigger : String
  pub target : String
  pub payload_artifact_id : Option ℕ
  pub event_seq : Option ℕ
  pub status : String
  pub resolution : Option String
  pub created_at : Time
  pub resolved_at : Option Time

pub record ProcessRecord : Type 0 where
  pub id : Option ℕ
  pub unit_level : Option String
  pub unit_id : Option String
  pub kind : String
  pub role : String
  pub cp_id : Option String
  pub session_id : Option String
  pub pid : Option ℕ
  pub cmdline : String
  pub cwd : Option String
  pub state : String
  pub exit_code : Option ℤ
  pub ndjson_log_path : Option String
  pub spawned_at : Time
  pub heartbeat_at : Option Time
  pub ended_at : Option Time

pub record Finding : Type 0 where
  pub id : Option ℕ
  pub stage_id : String
  pub auditor_role : String
  pub finding_ref : String
  pub severity : Option String
  pub report_artifact_id : ℕ
  pub status : String
  pub contest_artifact_id : Option ℕ
  pub resolved_by : Option String
  pub created_at : Time
  pub updated_at : Time

pub record DecisionRequest : Type 0 where
  pub id : Option ℕ
  pub unit_level : String
  pub unit_id : String
  pub gate_kind : String
  pub request_artifact_id : ℕ
  pub status : String
  pub answer : Option String
  pub answer_artifact_id : Option ℕ
  pub created_at : Time
  pub alerted_at : Option Time
  pub answered_at : Option Time

pub record TriggerFiring : Type 0 where
  pub trigger : Trigger
  pub unit_level : String
  pub unit_id : String
  pub evidence : Payload

pub record ValidationSummary : Type 0 where
  pub failing : ℕ
  pub passing : ℕ
  pub total : ℕ
