-- ===== src/StateMachine.antt =====
-- src/sf_factory/statemachine.py: the only writer of the `state` columns.
pub mod History
pub mod Atomic
pub mod Invariant
pub mod Gates
pub mod Moves
pub mod Quiet
pub mod Tests
use sf_f.Base.{ℕ, String, Option, none, some, [], assign, string_eq, get_or}
use sf_f.Base.Raises.{Result, ok, err, transition_error, require_some}
use sf_f.Models.Level
use sf_f.Models.Level.{Level}
use sf_f.Models.UnitState
use sf_f.Models.UnitState.{UnitState, allowed}
use sf_f.Models.Json.{Payload, str}
use sf_f.Models.Records.{Time}
use sf_f.Store.Tx.{Tx, ◌>>=◌, ◌>>◌, pure, gets, check, lift}
use sf_f.Store.Database.{Database, transaction}
use sf_f.Store.Units.{unit_state, set_unit_state}
use sf_f.Store.Events.{insert_event, NewEvent}

-- `reason` wins over a "reason" key of the caller's payload.
abbrev pub event_payload : Option Payload → String → Payload
event_payload payload reason = assign "reason" (str reason) (get_or payload [])

abbrev pub transition_event :
    Level → String → UnitState → UnitState → String → String → Option Payload → NewEvent
transition_event level unit_id current target actor reason payload = record {
  unit_level = Level.value level;
  unit_id = some unit_id;
  event_type = "transition";
  actor = actor;
  from_state = some (UnitState.value current);
  to_state = some (UnitState.value target);
  payload = some (event_payload payload reason);
}

abbrev pub coupled_writes : Option (Tx (Unit {0})) → Tx (Unit {0})
coupled_writes none = pure tt
coupled_writes (some m) = m

-- The block inside `with self._db.transaction() as conn`.
unfoldable pub transition_block :
    Time
    → Level
    → String
    → UnitState
    → String
    → String
    → Option Payload
    → Option (Tx (Unit {0}))
    → Tx ℕ
transition_block now level unit_id target actor reason payload coupled = do
  unit ← gets (unit_state level unit_id)
  current ← lift (require_some unit transition_error)
  check (allowed current target) transition_error
  set_unit_state now level unit_id (UnitState.value target)
  seq ← insert_event now (transition_event level unit_id current target actor reason payload)
  coupled_writes coupled
  pure seq

-- The coercions raise TransitionError before the transaction starts.
abbrev pub coerced :
    {A B : Type 0} → Option A → Database → (A → Result B × Database) → Result B × Database
coerced (some a) db f = f a
coerced none db f = (err transition_error, db)

unfoldable pub transition :
    Time
    → (level unit_id to_state actor reason : String) → Option Payload
    → Option (Tx (Unit {0}))
    → Database
    → Result ℕ × Database
transition now level unit_id to_state actor reason payload coupled db =
    coerced (Level.parse level) db λ lv.
      coerced (UnitState.parse lv to_state) db λ target.
        transaction (transition_block now lv unit_id target actor reason payload coupled) db
