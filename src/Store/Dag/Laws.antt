-- ===== src/Store/Dag/Laws.antt =====
-- The readiness of a unit in src/sf_factory/db.py.
use sf_f.Base.{
  ap, ◌||◌, String, ◌≡◌, refl, ◌↔◌, Bool, true, false, not, ◌&&◌, Option, none, some, List, [], ◌∷◌,
  ◌==◌, string_eq, All, any, Bool-cases, inl, inr, ==_iff, arith,
}
use sf_f.Models.Level.{Level, level_eq}
use sf_f.Models.UnitState
use sf_f.Models.UnitState.{UnitState}
use sf_f.Store.Db.{Db, Edge}
use sf_f.Store.Units.{unit_state}
use sf_f.Store.Dag.{is_done, holds_back, deps_done}

-- The prerequisite of the edge has a row, and the row is DONE.
abbrev pub Satisfied : Level → Db → Edge → Type 0
Satisfied level d e =
    (u : UnitState) × (unit_state level e.from_id d ≡ some u) × (UnitState.value u ≡ "DONE")

-- Where the edge leads to the unit, it is satisfied.
abbrev pub Frees : Level → String → Db → Edge → Type 0
Frees level unit_id d e = e.level ≡ level → e.to_id ≡ unit_id → Satisfied level d e

is_done_lem :
    (o : Option UnitState)
    → is_done o ≡ true
    → (u : UnitState) × (o ≡ some u) × (UnitState.value u ≡ "DONE")
is_done_lem none h = cc
is_done_lem (some u) h = (u, refl, (==_iff (UnitState.value u) "DONE").0 h)

waits :
    (a b : Level) (x y : String) (done : Bool)
    → (a == b && (x == y && not done)) ≡ false
    → a ≡ b
    → x ≡ y
    → done ≡ true
waits a b x y done h p q = ground (arith, ==_iff a b, ==_iff x y)

neither : (a b : Bool) → (a || b) ≡ false → (a ≡ false) × (b ≡ false)
neither a b h = ground arith

flip : (b : Bool) → not b ≡ true → b ≡ false
flip b h = ground arith

frees :
    (level : Level) (unit_id : String) (d : Db) (e : Edge)
    → holds_back level unit_id d e ≡ false
    → Frees level unit_id d e
frees level unit_id d e h same_level same_id =
    is_done_lem (unit_state level e.from_id d)
      (waits e.level level e.to_id unit_id _ h same_level same_id)

held_back :
    (level : Level) (unit_id : String) (d : Db) (e : Edge)
    → Frees level unit_id d e
    → holds_back level unit_id d e ≡ false
held_back level unit_id d e h = elim (Bool-cases (e.level == level)) [
  | inr other ↦ rw other refl
  | inl here ↦ elim (Bool-cases (e.to_id == unit_id)) [
    | inr other ↦ rw (here, other) refl
    | inl to ↦
        let (u, found, done) = h ((==_iff e.level level).0 here) ((==_iff e.to_id unit_id).0 to) in
        rw (here, to, found, (==_iff (UnitState.value u) "DONE").1 done) refl
  ]
]

any-holds_back :
    (level : Level) (unit_id : String) (d : Db) (edges : List Edge)
    → (any (holds_back level unit_id d) edges ≡ false) ↔ All (Frees level unit_id d) edges
any-holds_back level unit_id d [] = ((λ _. tt), (λ _. refl))
any-holds_back level unit_id d (e ∷ edges) =
    let rest = any-holds_back level unit_id d edges in
    (
      (λ h. let (here, there) = neither _ _ h in (frees level unit_id d e here, rest.0 there)),
      (λ h. rw (held_back level unit_id d e h.0) (rest.1 h.1)),
    )

-- A unit is ready exactly when every edge of its level that leads to it comes from a unit that has a
-- row and is DONE: a prerequisite with no row, or in any other state, holds it back.
pub deps_done_lem :
    (level : Level) (unit_id : String) (d : Db)
    → (deps_done level unit_id d ≡ true) ↔ All (Frees level unit_id d) d.dag_edges
unfolding deps_done
deps_done_lem level unit_id d =
    let (to, from) = any-holds_back level unit_id d d.dag_edges in
    ((λ h. to (flip _ h)), (λ h. ap not (from h)))
