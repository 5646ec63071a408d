-- ===== src/Scheduler/Containment.antt =====
-- `_contain_failure` of src/sf_factory/scheduler.py: an executor's error becomes an escalation. The
-- traceback file is not modelled: its path, and the texts of the exception, are arguments.
pub mod Kept
use Prim.Native.String.{◌++◌ as concat}
use sf_f.Base.{ℕ, String, Option, none, some, List, [], ◌∷◌}
use sf_f.Base.Raises.{Error, Result, ok, err, transition_error}
use sf_f.Models.Level
use sf_f.Models.Level.{Level, stage, phase}
use sf_f.Models.Json.{Payload, str}
use sf_f.Models.Records.{Time, Escalation}
use sf_f.Store.Db.{Db}
use sf_f.Store.Tx.{Tx, ◌>>=◌, ◌>>◌, pure, gets}
use sf_f.Store.Database.{Database, transaction}
use sf_f.Store.Events.{NewEvent, insert_event}
use sf_f.Store.Escalations.{open_escalation, insert_escalation}
use sf_f.StateMachine.{transition}

-- The parts of the exception that are written down.
pub record Failure : Type 0 where
  pub error : String  -- repr(exc)
  pub error_type : String
  pub traceback_path : String

abbrev pub payload_of : Failure → Payload
payload_of f =
    ("error", str f.error)
    ∷ ("error_type", str f.error_type)
    ∷ ("traceback_path", str f.traceback_path)
    ∷ []

abbrev pub failure_event : Level → String → Failure → NewEvent
failure_event level unit_id f = record {
  unit_level = Level.value level;
  unit_id = some unit_id;
  event_type = "internal_error";
  actor = "control_plane";
  from_state = none;
  to_state = none;
  payload = some (payload_of f);
}

abbrev target_of : Level → String
target_of stage = "phase_architect"
target_of phase = "main_architect"

abbrev pub failure_escalation : Time → Level → String → Escalation
failure_escalation now level unit_id = record {
  id = none;
  unit_level = Level.value level;
  unit_id = unit_id;
  trigger = "internal_error";
  target = target_of level;
  payload_artifact_id = none;
  event_seq = none;
  status = "open";
  resolution = none;
  created_at = now;
  resolved_at = none;
}

-- `if not open_escalation(…): insert_escalation(…)`
abbrev pub escalate_once : Time → Level → String → Option Escalation → Tx (Unit {0})
escalate_once now level unit_id (some e) = pure tt
escalate_once now level unit_id none =
    insert_escalation (failure_escalation now level unit_id) >>= λ _. pure tt

-- The inner function `coupled`.
unfoldable pub coupled : Time → Level → String → Failure → Tx (Unit {0})
coupled now level unit_id f = do
  seq ← insert_event now (failure_event level unit_id f)
  found ← gets (open_escalation (Level.value level) unit_id "internal_error")
  escalate_once now level unit_id found

-- `except TransitionError`: the event and the escalation land without a move.
abbrev pub fallen_back : Tx (Unit {0}) → Result ℕ × Database → Result (Unit {0}) × Database
fallen_back m (ok seq, db) = (ok tt, db)
fallen_back m (err transition_error, db) = transaction m db
fallen_back m (err e, db) = (err e, db)

unfoldable pub contain_failure :
    Time → Level → String → Failure → Database → Result (Unit {0}) × Database
contain_failure now level unit_id f db = fallen_back (coupled now level unit_id f) (
    transition now (Level.value level) unit_id "ESCALATED" "control_plane"
      (concat "internal error contained at executor boundary: " f.error) (some (payload_of f))
      (some (coupled now level unit_id f)) db)
