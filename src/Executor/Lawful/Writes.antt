-- ===== src/Executor/Lawful/Writes.antt =====
-- The writes of the stage executor move no unit.
use sf_f.Base.{ℕ, String, ◌≡◌, false, Option, none, some, List, [], ◌∷◌, ◌==◌, string_eq}
use sf_f.Base.Raises.{factory_error, assertion_error, require_some}
use sf_f.Models.Records.{Time, ArtifactRef, Finding, Escalation}
use sf_f.Store.Tx.{gets, lift}
use sf_f.Store.Events.{NewEvent, insert_event}
use sf_f.Store.Artifacts.{find_artifact_ref, insert_artifact_ref}
use sf_f.Store.Decisions.{insert_decision_request}
use sf_f.Store.Escalations.{open_escalation, insert_escalation}
use sf_f.Store.Findings.{findings, set_finding_status}
use sf_f.StateMachine.Moves.{IsQuiet}
use sf_f.StateMachine.Quiet.{
  pure-IsQuiet, gets-IsQuiet, lift-IsQuiet, bind-IsQuiet, insert_event-IsQuiet,
  insert_escalation-IsQuiet, insert_artifact_ref-IsQuiet, insert_decision_request-IsQuiet,
  set_finding_status-IsQuiet,
}
use sf_f.Executor.Register.{FileFound, reuse, new_ref, register_artifact}
use sf_f.Executor.Writes.{
  log_event, request_decision, new_request, restate_all, settle_contested, escalate, unless_open,
  stage_escalation,
}
use sf_f.Executor.Breach.{Cause, escalate_all, number_at}

pub log_event-IsQuiet :
    (now : Time) (e : NewEvent) → (e.event_type == "transition") ≡ false → IsQuiet (log_event now e)
log_event-IsQuiet now e other =
    bind-IsQuiet (insert_event now e) _ (insert_event-IsQuiet now e other) λ _. pure-IsQuiet tt

reuse-IsQuiet : (ref : ArtifactRef) (o : Option ArtifactRef) → IsQuiet (reuse ref o)
reuse-IsQuiet ref (some a) = pure-IsQuiet a
reuse-IsQuiet ref none =
    bind-IsQuiet (insert_artifact_ref ref) _ (insert_artifact_ref-IsQuiet ref) λ id. pure-IsQuiet _

pub register_artifact-IsQuiet :
    (now : Time) (unit_level unit_id kind repo : String) (file : FileFound) (sha : Option String)
    → IsQuiet (register_artifact now unit_level unit_id kind repo file sha)
unfolding register_artifact
register_artifact-IsQuiet now unit_level unit_id kind repo file sha =
    bind-IsQuiet (lift (require_some file.rel_posix factory_error)) _ (lift-IsQuiet _) λ path.
      bind-IsQuiet (lift file.digest) _ (lift-IsQuiet _) λ digest.
        bind-IsQuiet (gets (find_artifact_ref repo path digest)) _ (gets-IsQuiet _)
          λ found. reuse-IsQuiet (new_ref now unit_level unit_id kind repo path digest sha) found

pub request_decision-IsQuiet :
    (now : Time) (stage_id gate_kind : String) (file : FileFound) (sha : Option String)
    → IsQuiet (request_decision now stage_id gate_kind file sha)
unfolding request_decision
request_decision-IsQuiet now stage_id gate_kind file sha =
    bind-IsQuiet (register_artifact now "stage" stage_id "decision_request" "workspace" file sha) _
      (register_artifact-IsQuiet now "stage" stage_id "decision_request" "workspace" file sha)
      λ ref. bind-IsQuiet (lift (require_some ref.id assertion_error)) _ (lift-IsQuiet _) λ id.
        bind-IsQuiet (insert_decision_request (new_request now stage_id gate_kind id)) _
          (insert_decision_request-IsQuiet (new_request now stage_id gate_kind id))
          λ n. pure-IsQuiet tt

restate_all-IsQuiet :
    (now : Time) (status : String) (fs : List Finding) → IsQuiet (restate_all now status fs)
unfolding restate_all
restate_all-IsQuiet now status [] = pure-IsQuiet tt
restate_all-IsQuiet now status (f ∷ fs) =
    bind-IsQuiet (lift (require_some f.id assertion_error)) _ (lift-IsQuiet _) λ id.
      bind-IsQuiet (set_finding_status now id status (some "phase_architect") none) _
        (set_finding_status-IsQuiet now id status (some "phase_architect") none)
        λ _. restate_all-IsQuiet now status fs

pub settle_contested-IsQuiet :
    (now : Time) (stage_id status : String) → IsQuiet (settle_contested now stage_id status)
settle_contested-IsQuiet now stage_id status =
    bind-IsQuiet (gets (findings stage_id ("contested" ∷ []))) _ (gets-IsQuiet _)
      λ fs. restate_all-IsQuiet now status fs

unless_open-IsQuiet : (e : Escalation) (o : Option Escalation) → IsQuiet (unless_open e o)
unless_open-IsQuiet e (some x) = pure-IsQuiet tt
unless_open-IsQuiet e none =
    bind-IsQuiet (insert_escalation e) _ (insert_escalation-IsQuiet e) λ _. pure-IsQuiet tt

pub escalate-IsQuiet : (e : Escalation) → IsQuiet (escalate e)
unfolding escalate
escalate-IsQuiet e =
    bind-IsQuiet (gets (open_escalation e.unit_level e.unit_id e.trigger)) _ (gets-IsQuiet _)
      λ found. unless_open-IsQuiet e found

pub escalate_all-IsQuiet :
    (now : Time) (stage_id : String) (ref : Option ℕ) (causes : List Cause)
    → IsQuiet (escalate_all now stage_id ref causes)
unfolding escalate_all
escalate_all-IsQuiet now stage_id ref [] = pure-IsQuiet tt
escalate_all-IsQuiet now stage_id ref ((trigger, evidence) ∷ causes) =
    bind-IsQuiet
      (escalate (stage_escalation now stage_id trigger ref (number_at "event_seq" evidence)))
      (λ _. escalate_all now stage_id ref causes) (escalate-IsQuiet _)
      λ _. escalate_all-IsQuiet now stage_id ref causes
