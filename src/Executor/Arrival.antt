-- ===== src/Executor/Arrival.antt =====
-- Where a transition that the executor made leaves the stage.
use mathlib.Core.Path.{ap₂, subst}
use sf_f.Base.{
  inl, inr, ◌⊎◌, ◌&&◌, ℕ, String, ◌≡◌, refl, sym, ap, ◌∙◌, Option, some, true, ==_refl, string_eq,
  ◌==◌, ◌&&◌,
}
use sf_f.Base.Raises.{result-cases, Error, Result, ok, err}
use sf_f.Models.Level.{Level, stage, level_eq}
use sf_f.Models.StageState
use sf_f.Models.StageState.{StageState}
use sf_f.Models.UnitState
use sf_f.Models.UnitState.{UnitState, of_stage}
use sf_f.Models.Json.{Payload}
use sf_f.Models.Records.{Time}
use sf_f.Store.Db.{Db}
use sf_f.Store.Tx.{Tx}
use sf_f.Store.Act.{proceed, pure}
use sf_f.Store.Act.Laws.{proceed-pure}
use sf_f.Store.Database.{Database}
use sf_f.Store.Units.{unit_state}
use sf_f.Store.Units.Laws.{overwrite}
use sf_f.Store.Events.Laws.{logged}
use sf_f.StateMachine.{transition_event, coupled_writes}
use sf_f.StateMachine.History.{unit_state-logged}
use sf_f.StateMachine.Moves.{IsQuiet, View}
use sf_f.StateMachine.Atomic.{transition_rolls_back, Moved, transition-Moved}
use sf_f.Executor.Gate.{transition_to}

-- The stage is in the state.
abbrev pub IsAt : String → StageState → Database → Type 0
IsAt stage_id s db = unit_state stage stage_id db.tables ≡ some (of_stage s)

here : (level : Level) (unit_id : String) → (level == level && unit_id == unit_id) ≡ true
here level unit_id = rw (==_refl level, ==_refl unit_id) refl

Moved-state :
    {now : Time} {level : Level} {unit_id : String} {target : UnitState} {actor reason : String}
    {payload : Option Payload} {coupled : Option (Tx (Unit {0}))} {d d' : Db} {seq : ℕ}
    → Moved now level unit_id target actor reason payload coupled d seq d'
    → IsQuiet (coupled_writes coupled)
    → unit_state level unit_id d' ≡ some target
Moved-state {now} {level} {unit_id} {target} {actor} {reason} {payload} {d' = d'} m quiet =
    let event = transition_event level unit_id m.from target actor reason payload in
    let s = quiet (logged now event m.after) (tt, d') m.rest in
    sym (ap (λ (v : View). v level unit_id) s.same)
    ∙ sym (unit_state-logged now event m.after level unit_id)
    ∙ m.written.states level unit_id
    ∙ ap (overwrite (level == level && unit_id == unit_id) target) m.found
    ∙ ap (λ b. overwrite b target (some m.from)) (here level unit_id)

module _ (now : Time) (stage_id : String) (target : StageState) (who reason : String)
    (payload : Option Payload) (coupled : Option (Tx (Unit {0}))) (db : Database) where
  abbrev done : Result ℕ × Database
  done = transition_to now stage_id target who reason payload coupled db

  -- The coupled writes ran, and what they left is what is committed.
  pub transition_to-ran :
      {seq : ℕ}
      → done.0 ≡ ok seq
      → (d : Db) × (d' : Db) × (coupled_writes coupled d ≡ ok (tt, d'))
        × (done.1 ≡ record db { tables = d' })
  transition_to-ran h =
      let (lv, to, d', parsed_level, parsed, m, left) =
        transition-Moved now "stage" stage_id (StageState.value target) who reason payload coupled
          db h in
      (_, d', m.rest, left)

  pub transition_to-IsAt :
      {seq : ℕ} → IsQuiet (coupled_writes coupled) → done.0 ≡ ok seq → IsAt stage_id target done.1
  transition_to-IsAt quiet h =
      let (lv, to, d', parsed_level, parsed, m, left) =
        transition-Moved now "stage" stage_id (StageState.value target) who reason payload coupled
          db h in
      let e : lv ≡ stage = cc parsed_level in
      let p : UnitState.parse stage (StageState.value target) ≡ some to =
        subst (λ l. UnitState.parse l (StageState.value target) ≡ some to) e parsed in
      let known : to ≡ of_stage target =
        cc (rw (StageState.parse-value target, UnitState.parse) at p) in
      subst (λ (x : Database). IsAt stage_id target x) (sym left)
        (subst (λ l. unit_state l stage_id d' ≡ some (of_stage target)) e
          (subst (λ u. unit_state lv stage_id d' ≡ some u) known (Moved-state m quiet)))

-- A transition and then a result: the stage is in the state, or nothing was done.
abbrev pub Goes : {B : Type 0} → String → StageState → B → Database → Result B × Database → Type 0
Goes stage_id target b db r =
    ((r.0 ≡ ok b) × IsAt stage_id target r.1) ⊎ ((e : Error) × (r ≡ (err e, db)))

pub pair_of : {A B : Type 0} {r : A × B} {a : A} {b : B} → r.0 ≡ a → r.1 ≡ b → r ≡ (a, b)
pair_of p q = ap₂ (λ x y. (x, y)) p q

module _ (now : Time) (stage_id : String) (target : StageState) (who reason : String)
    (payload : Option Payload) (coupled : Option (Tx (Unit {0}))) (db : Database) where
  pub transition_to-raised :
      {e : Error}
      → (transition_to now stage_id target who reason payload coupled db).0 ≡ err e
      → transition_to now stage_id target who reason payload coupled db ≡ (err e, db)
  transition_to-raised h = pair_of h (
      transition_rolls_back now "stage" stage_id (StageState.value target) who reason payload
        coupled db h)

  pub then-Goes :
      {B : Type 0} (b : B)
      → IsQuiet (coupled_writes coupled)
      → Goes stage_id target b db
          (proceed (transition_to now stage_id target who reason payload coupled db) (λ _. pure b))
  then-Goes b quiet =
      let r = transition_to now stage_id target who reason payload coupled db in
      elim (result-cases r.0) [
        | inl (seq, returned) ↦
            let at =
              transition_to-IsAt now stage_id target who reason payload coupled db quiet returned in
            inl (
              subst (λ (x : Result ℕ × Database). (proceed x (λ _. pure b)).0 ≡ ok b)
                  (sym (pair_of {b = r.1} returned refl)) refl,
              subst (IsAt stage_id target) (sym (proceed-pure r b)) at,
            )
        | inr (e, raised) ↦ inr (e, ap (λ x. proceed x (λ _. pure b)) (transition_to-raised raised))
      ]
