-- ===== src/Executor/Writes.antt =====
-- The writes that the stage executor makes inside a transaction, most of them coupled to a transition.
use sf_f.Base.{ℕ, String, Option, none, some, List, [], ◌∷◌}
use sf_f.Base.Raises.{assertion_error, require_some}
use sf_f.Models.Json.{str, Items, nil, cons, Payload}
use sf_f.Models.Records.{Time, DecisionRequest, Finding, Escalation}
use sf_f.Store.Tx.{Tx, ◌>>=◌, ◌>>◌, pure, gets, lift}
use sf_f.Store.Events.{NewEvent, insert_event}
use sf_f.Store.Decisions.{insert_decision_request}
use sf_f.Store.Findings.{findings, set_finding_status}
use sf_f.Store.Escalations.{open_escalation, insert_escalation}
use sf_f.Executor.Register.{FileFound, register_artifact}

abbrev pub actor : String
actor = "control_plane"

abbrev pub texts : List String → Items
texts [] = nil
texts (s ∷ ss) = cons (str s) (texts ss)

-- The events that the executor writes itself.
abbrev pub stage_event : String → String → Payload → NewEvent
stage_event stage_id event_type payload = record {
  unit_level = "stage";
  unit_id = some stage_id;
  event_type = event_type;
  actor = actor;
  from_state = none;
  to_state = none;
  payload = some payload;
}

abbrev pub factory_event : String → Payload → NewEvent
factory_event event_type payload = record {
  unit_level = "factory";
  unit_id = none;
  event_type = event_type;
  actor = actor;
  from_state = none;
  to_state = none;
  payload = some payload;
}

abbrev pub log_event : Time → NewEvent → Tx (Unit {0})
log_event now e = insert_event now e >>= λ _. pure tt

abbrev pub new_request : Time → String → String → ℕ → DecisionRequest
new_request now stage_id gate_kind request_artifact_id = record {
  id = none;
  unit_level = "stage";
  unit_id = stage_id;
  gate_kind = gate_kind;
  request_artifact_id = request_artifact_id;
  status = "pending";
  answer = none;
  answer_artifact_id = none;
  created_at = now;
  alerted_at = none;
  answered_at = none;
}

-- The file of the request is registered and the request inserted.
unfoldable pub request_decision : Time → String → String → FileFound → Option String → Tx (Unit {0})
request_decision now stage_id gate_kind file git_commit = do
  ref ← register_artifact now "stage" stage_id "decision_request" "workspace" file git_commit
  id ← lift (require_some ref.id assertion_error)
  n ← insert_decision_request (new_request now stage_id gate_kind id)
  pure tt

-- `for finding in findings: set_finding_status(tx, finding.id, status, …)`
unfoldable pub restate_all : Time → String → List Finding → Tx (Unit {0})
restate_all now status [] = pure tt
restate_all now status (f ∷ fs) = do
  id ← lift (require_some f.id assertion_error)
  set_finding_status now id status (some "phase_architect") none
  restate_all now status fs

abbrev pub settle_contested : Time → String → String → Tx (Unit {0})
settle_contested now stage_id status = do
  contested ← gets (findings stage_id ("contested" ∷ []))
  restate_all now status contested

abbrev pub stage_escalation : Time → String → String → Option ℕ → Option ℕ → Escalation
stage_escalation now stage_id trigger payload_artifact_id event_seq = record {
  id = none;
  unit_level = "stage";
  unit_id = stage_id;
  trigger = trigger;
  target = "phase_architect";
  payload_artifact_id = payload_artifact_id;
  event_seq = event_seq;
  status = "open";
  resolution = none;
  created_at = now;
  resolved_at = none;
}

-- `if not open_escalation(…): insert_escalation(…)`
abbrev pub unless_open : Escalation → Option Escalation → Tx (Unit {0})
unless_open esc (some e) = pure tt
unless_open esc none = insert_escalation esc >>= λ _. pure tt

unfoldable pub escalate : Escalation → Tx (Unit {0})
escalate esc = do
  found ← gets (open_escalation esc.unit_level esc.unit_id esc.trigger)
  unless_open esc found
