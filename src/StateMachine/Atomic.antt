-- ===== src/StateMachine/Atomic.antt =====
-- What `transition` does when it returns, and when it raises.
use mathlib.Core.Path.{subst}
use sf_f.Base.{
  ℕ, String, ◌≡◌, refl, true, Option, none, some, Bool-cases, Option-cases, inl, inr, sym, ◌∙◌, ap,
}
use sf_f.Base.Raises.{Result, Error, ok, err}
use sf_f.Models.Level
use sf_f.Models.Level.{Level, stage, phase}
use sf_f.Models.UnitState
use sf_f.Models.UnitState.{parse-value_of, UnitState, allowed}
use sf_f.Models.Json.{Payload}
use sf_f.Models.Records.{Time}
use sf_f.Store.Table
use sf_f.Store.Table.{Table}
use sf_f.Models.Records.{Event}
use sf_f.Store.Db.{Db}
use sf_f.Store.Tx.{Tx, bind-eq-ok}
use sf_f.Store.Database.{Database}
use sf_f.Store.Database.Atomic.{transaction-err, transaction-ok}
use sf_f.Store.Units.{unit_state, set_unit_state}
use sf_f.Store.Units.Laws.{Written, set_unit_state-Written}
use sf_f.Store.Events.{insert_event}
use sf_f.Store.Events.Laws.{logged, insert_event-ok}
use sf_f.StateMachine.{coerced, transition_block, transition, transition_event, coupled_writes}

-- What a block that returned has done: it found the unit in a state `from` from which the table allows
-- the target, wrote the target to that unit alone, logged one event with the two states, and ran
-- the coupled writes last.
pub record Moved (now : Time) (level : Level) (unit_id : String) (target : UnitState)
    (actor reason : String) (payload : Option Payload) (coupled : Option (Tx (Unit {0}))) (d : Db)
    (seq : ℕ) (d' : Db) : Type 0 where
  pub from : UnitState
  pub found : unit_state level unit_id d ≡ some from
  pub legal : allowed from target ≡ true
  pub after : Db
  pub written : Written level unit_id target d after
  pub number : seq ≡ Table.next_id d.events
  pub rest :
      coupled_writes coupled
        (logged now (transition_event level unit_id from target actor reason payload) after)
      ≡ ok (tt, d')

is_tt : (x : Unit {0}) → x ≡ tt
is_tt tt = refl

module _ (now : Time) (level : Level) (unit_id : String) (target : UnitState)
    (actor reason : String) (payload : Option Payload) (coupled : Option (Tx (Unit {0}))) where
  block-Moved :
      (d : Db) {seq : ℕ} {d' : Db}
      → UnitState.parse level (UnitState.value target) ≡ some target
      → transition_block now level unit_id target actor reason payload coupled d ≡ ok (seq, d')
      → Moved now level unit_id target actor reason payload coupled d seq d'
  unfolding transition_block
  block-Moved d {seq} {d'} known h = elim (Option-cases (unit_state level unit_id d)) [
    | inl missing ↦ cc (rw missing at h)
    | inr (from, found) ↦ elim (Bool-cases (allowed from target)) [
      | inl legal ↦
          let h1 = rw (found, legal) at h in
          let (x, after, wrote, h2) =
            bind-eq-ok (set_unit_state now level unit_id (UnitState.value target) d) _ h1 in
          let (v, parsed, w) =
            set_unit_state-Written now level unit_id (UnitState.value target) d wrote in
          let (n, d2, inserted, h3) =
            bind-eq-ok
              (insert_event now (transition_event level unit_id from target actor reason payload)
                after)
              _ h2 in
          let (number, same) =
            insert_event-ok now (transition_event level unit_id from target actor reason payload)
              after inserted in
          let (y, d3, ran, h4) = bind-eq-ok (coupled_writes coupled d2) _ h3 in
          record {
            from = from;
            found = found;
            legal = legal;
            after = after;
            written = subst (λ t. Written level unit_id t d after) (cc (parsed, known)) w;
            number = cc (h4, number, ap (λ (t : Table Event). Table.next_id t) w.events);
            rest =
                subst (λ t. coupled_writes coupled t ≡ ok (tt, d')) (sym same)
                  (ran ∙ cc (h4, is_tt y));
          }
      | inr illegal ↦ cc (rw (found, illegal) at h)
    ]
  ]

coerced-err :
    {A B : Type 0} (o : Option A) (db : Database) (f : A → Result B × Database) {e : Error}
    → ((a : A) → (f a).0 ≡ err e → (f a).1 ≡ db)
    → (coerced o db f).0 ≡ err e
    → (coerced o db f).1 ≡ db
coerced-err none db f rolls h = refl
coerced-err (some a) db f rolls h = rolls a h

coerced-ok :
    {A B : Type 0} (o : Option A) (db : Database) (f : A → Result B × Database) {b : B}
    → (coerced o db f).0 ≡ ok b
    → (a : A) × (o ≡ some a) × (coerced o db f ≡ f a)
coerced-ok none db f h = cc
coerced-ok (some a) db f h = (a, refl, refl)

module _ (now : Time) (level unit_id to_state actor reason : String) (payload : Option Payload)
    (coupled : Option (Tx (Unit {0}))) (db : Database) where
  abbrev pub outcome : Result ℕ × Database
  outcome = transition now level unit_id to_state actor reason payload coupled db

  -- A `transition` that raises, whether it was refused or its coupled writes raised after the state and
  -- the event were written, leaves the connection and every table as they were.
  pub transition_rolls_back : {e : Error} → outcome.0 ≡ err e → outcome.1 ≡ db
  unfolding transition
  transition_rolls_back h =
      coerced-err (Level.parse level) db _
        (λ lv. coerced-err (UnitState.parse lv to_state) db _ (λ target.
          transaction-err (transition_block now lv unit_id target actor reason payload coupled) db))
        h

  -- A `transition` that returned was given a level and a state of that level. The unit had a row, whose
  -- state the table lets move to the new one; the row was written, the event logged under the
  -- sequence number that is returned, the coupled writes ran after both, and what they left is
  -- what is committed.
  pub transition-Moved :
      {seq : ℕ}
      → outcome.0 ≡ ok seq
      → (lv : Level) × (target : UnitState) × (d' : Db) × (Level.parse level ≡ some lv)
        × (UnitState.parse lv to_state ≡ some target)
        × Moved now lv unit_id target actor reason payload coupled db.tables seq d'
        × (outcome.1 ≡ record db { tables = d' })
  unfolding transition
  transition-Moved h =
      let (lv, parsed_level, same) = coerced-ok (Level.parse level) db _ h in
      let (target, parsed, same') =
        coerced-ok (UnitState.parse lv to_state) db _ (sym (ap (λ r. r.0) same) ∙ h) in
      let (d', ran, left) =
        transaction-ok (transition_block now lv unit_id target actor reason payload coupled) db
          (sym (ap (λ r. r.0) (same ∙ same')) ∙ h) in
      (
        lv,
        target,
        d',
        parsed_level,
        parsed,
        block-Moved now lv unit_id target actor reason payload coupled db.tables
            (parse-value_of lv to_state target parsed) ran,
        ap (λ r. r.1) (same ∙ same') ∙ left,
      )
