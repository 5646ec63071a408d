-- ===== src/Executor/Lawful/Rules.antt =====
-- How effects compose in a coroutine.
use sf_f.Base.{String, Bool, true, false, Option, none, some, if◌then◌else◌}
use sf_f.Base.Raises.{Result}
use sf_f.Models.StageState
use sf_f.Models.StageState.{StageState}
use sf_f.Models.Json.{Payload}
use sf_f.Models.Records.{Time}
use sf_f.Store.Db.{Db}
use sf_f.Store.Tx.{Tx}
use sf_f.Store.Act.{Act, pure, outside, reads}
use sf_f.StateMachine.Moves.{Effect-refl, IsQuiet, IsLawful, transition-Effect}
use sf_f.StateMachine.Quiet.{pure-IsQuiet}
use sf_f.Executor.Gate.{transition_to}

-- An `if` between two coroutines.
pub if-IsLawful :
    {A : Type 0} (b : Bool) (m n : Act A) → IsLawful m → IsLawful n → IsLawful (if b then m else n)
if-IsLawful true m n p q = p
if-IsLawful false m n p q = q

pub outside-IsLawful : {A : Type 0} (r : Result A) → IsLawful (outside r)
outside-IsLawful r db = Effect-refl db

pub reads-IsLawful : {A : Type 0} (f : Db → A) → IsLawful (reads f)
reads-IsLawful f db = Effect-refl db

pub pure-IsLawful : {A : Type 0} (a : A) → IsLawful (pure a)
pure-IsLawful a db = Effect-refl db

module _ (now : Time) (stage_id : String) (target : StageState) (who reason : String)
    (payload : Option Payload) where
  pub alone-IsLawful : IsLawful (transition_to now stage_id target who reason payload none)
  alone-IsLawful db =
      transition-Effect now "stage" stage_id (StageState.value target) who reason payload none db
        (pure-IsQuiet tt)

  pub coupled-IsLawful :
      (m : Tx (Unit {0}))
      → IsQuiet m
      → IsLawful (transition_to now stage_id target who reason payload (some m))
  coupled-IsLawful m q db =
      transition-Effect now "stage" stage_id (StageState.value target) who reason payload (some m)
        db q
