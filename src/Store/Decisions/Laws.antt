-- ===== src/Store/Decisions/Laws.antt =====
-- The life of a decision request in src/sf_factory/db.py.
use sf_f.Base.{
  ℕ, String, ◌≡◌, refl, sym, ap, ◌∙◌, true, false, Option, some, ◌==◌, string_eq, nat_eq,
}
use sf_f.Base.Raises.{ok-injective, sqlite_integrity_error, ok, err, factory_error}
use sf_f.Models.Records.{Time}
use sf_f.Store.Table
use sf_f.Store.Table.{Table}
use sf_f.Store.Table.Keys.{IsKeyed, update_again, update-found}
use sf_f.Store.Db.{Db, DecisionRow}
use sf_f.Store.Tx.{check-eq-ok}
use sf_f.Store.Decisions.{refers, answer_decision, answer_row, is_pending}

answered :
    (now : Time) (i : ℕ) (answer : String) (artifact : Option ℕ) (d : Db) {d' : Db}
    → answer_decision now i answer artifact d ≡ ok (tt, d')
    → ((Table.rowcount i is_pending d.decisions == 1) ≡ true)
      × (d' ≡ record d {
        decisions = Table.update i is_pending (answer_row now answer artifact) d.decisions;
      })
unfolding answer_decision
answered now i answer artifact d h =
    let (one, h') =
      check-eq-ok (Table.rowcount i is_pending d.decisions == 1) factory_error _ d h in
    let (known, h'') = check-eq-ok (refers artifact d) sqlite_integrity_error _ d h' in
    (one, sym (ap (λ (x : Unit × Db). x.1) (ok-injective h'')))

refused :
    (now : Time) (i : ℕ) (answer : String) (artifact : Option ℕ) (d : Db)
    → (Table.rowcount i is_pending d.decisions == 1) ≡ false
    → answer_decision now i answer artifact d ≡ err factory_error
unfolding answer_decision
refused now i answer artifact d h = rw h refl

-- In a table whose keys ascend, a decision is answered once: the row was there and pending, it then
-- holds the answer, and any other answer to the same request raises FactoryError.
pub answer_decision_once :
    (now later : Time) (i : ℕ) (answer other : String) (artifact artifact' : Option ℕ) (d : Db)
    {d' : Db}
    → IsKeyed d.decisions
    → answer_decision now i answer artifact d ≡ ok (tt, d')
    → ((r : DecisionRow) × (Table.get i d.decisions ≡ some r)
        × (is_pending r ≡ true)
        × (Table.get i d'.decisions ≡ some (answer_row now answer artifact r)))
      × (answer_decision later i other artifact' d' ≡ err factory_error)
answer_decision_once now later i answer other artifact artifact' d {d'} k h =
    let (one, left) = answered now i answer artifact d h in
    let (r, found, pending, changed) =
      update-found i is_pending (answer_row now answer artifact) d.decisions k one in
    let again =
      update_again i is_pending (answer_row now answer artifact) d.decisions k (λ r. refl) one in
    (
      (r, found, pending, ap (λ (x : Db). Table.get i x.decisions) left ∙ changed),
      refused later i other artifact' d'
          (ap (λ (x : Db). Table.rowcount i is_pending x.decisions == 1) left ∙ again),
    )
