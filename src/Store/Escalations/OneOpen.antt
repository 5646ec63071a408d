-- ===== src/Store/Escalations/OneOpen.antt =====
-- The partial UNIQUE index of src/sf_factory/migrations/0001_init.sql as an invariant of the operations.
use mathlib.Core.Path.{subst}
use sf_f.Base.{
  ℕ, ◌≤◌, String, ◌≡◌, refl, sym, ap, Bool, true, false, ◌&&◌, Option, none, some, List, [], ◌∷◌,
  ◌++◌, map, ◌==◌, string_eq, nat_eq, ==_iff, count, count-append, find, Bool-cases, inl, inr,
  arith, contains,
}
use sf_f.Base.Raises.{ok, factory_error, sqlite_integrity_error, ok-injective}
use sf_f.Models.Records.{Time, Escalation}
use sf_f.Store.Table
use sf_f.Store.Table.{Table, update_rows}
use sf_f.Store.Db.{Db}
use sf_f.Store.Tx.{Tx, check-eq-ok}
use sf_f.Store.Events.Laws.{values-insert}
use sf_f.Store.Escalations.{
  insert_escalation, resolve_escalation, bump_escalation_target, open_escalation, is_open_for,
  is_open, close, escalation_fits, target_ladder,
}
use sf_f.Store.Escalations.Laws.{fits-free, resolved}

-- No unit has two open escalations for one trigger.
abbrev pub OneOpen : Db → Type 0
OneOpen d = (l i t : String) → count (is_open_for l i t) (Table.values d.escalations) ≤ 1

-- An operation that returned keeps it.
abbrev pub KeepsOneOpen {ℓ} : {A : Type ℓ} → Tx A → Type ℓ
KeepsOneOpen {A = A} m = (d d' : Db) (a : A) → OneOpen d → m d ≡ ok (a, d') → OneOpen d'

count-find : {A : Type 0} (p : A → Bool) (xs : List A) → find p xs ≡ none → count p xs ≡ 0
count-find p [] h = refl
count-find p (x ∷ xs) h = ground (arith, count-find p xs)

-- An UPDATE that opens no row adds none to the count.
count-update :
    (q p : Escalation → Bool) (f : Escalation → Escalation) (i : ℕ) (rows : List (ℕ × Escalation))
    → ((e : Escalation) → q (f e) ≡ true → q e ≡ true)
    → count q (map (λ (entry : ℕ × Escalation). entry.1) (update_rows i p f rows))
      ≤ count q (map (λ (entry : ℕ × Escalation). entry.1) rows)
count-update q p f i [] h = omega arith
count-update q p f i ((j, e) ∷ rows) h = ground (arith, h e, count-update q p f i rows h)

parts :
    (a b c d : Bool)
    → (a && (b && (c && d))) ≡ true
    → (a ≡ true) × (b ≡ true) × (c ≡ true) × (d ≡ true)
parts a b c d h = ground arith

not_open : (a b c : Bool) → (a && (b && (c && false))) ≡ true → ⊥
not_open a b c h = ground arith

added :
    (l i t : String) (esc : Escalation) (id : Option ℕ) (d : Db)
    → OneOpen d
    → escalation_fits esc d ≡ true
    → count (is_open_for l i t) (Table.values d.escalations ++ record esc { id = id } ∷ []) ≤ 1
unfolding open_escalation
added l i t esc id d one fits = elim (Bool-cases (is_open_for l i t esc)) [
  | inr other ↦
      let zero : count (is_open_for l i t) (record esc { id = id } ∷ []) ≡ 0 = rw other refl in
      omega (
        arith,
        one l i t,
        zero,
        count-append (is_open_for l i t) (Table.values d.escalations) (record esc { id = id } ∷ []),
      )
  | inl same ↦
      let (level, unit, trigger, open_) =
        parts (esc.unit_level == l) (esc.unit_id == i) (esc.trigger == t) (esc.status == "open")
          same in
      let one_more : count (is_open_for l i t) (record esc { id = id } ∷ []) ≡ 1 = rw same refl in
      let here : is_open_for esc.unit_level esc.unit_id esc.trigger ≡ is_open_for l i t = λ j.
        is_open_for ((==_iff esc.unit_level l).0 level j) ((==_iff esc.unit_id i).0 unit j)
          ((==_iff esc.trigger t).0 trigger j) in
      let free : count (is_open_for l i t) (Table.values d.escalations) ≡ 0 =
        count-find (is_open_for l i t) (Table.values d.escalations) (
          subst (λ p. find p (Table.values d.escalations) ≡ none) here
            (fits-free esc d fits open_)) in
      omega (
        arith,
        free,
        one_more,
        count-append (is_open_for l i t) (Table.values d.escalations) (record esc { id = id } ∷ []),
      )
]

insert_escalation-KeepsOneOpen : (esc : Escalation) → KeepsOneOpen (insert_escalation esc)
unfolding insert_escalation
insert_escalation-KeepsOneOpen esc d d' a one h l i t =
    let (fits, h') = check-eq-ok (escalation_fits esc d) sqlite_integrity_error _ d h in
    subst (λ (x : Db). count (is_open_for l i t) (Table.values x.escalations) ≤ 1)
      (ap (λ (x : ℕ × Db). x.1) (ok-injective h'))
      (subst (λ rows. count (is_open_for l i t) rows ≤ 1)
        (sym (values-insert (λ n. record esc { id = some n }) d.escalations))
        (added l i t esc _ d one fits))

resolve_escalation-KeepsOneOpen :
    (now : Time) (id : ℕ) (resolution : String)
    → KeepsOneOpen (resolve_escalation now id resolution)
unfolding Table.update
resolve_escalation-KeepsOneOpen now id resolution d d' a one h l i t =
    let (found, left) = resolved now id resolution d h in
    subst (λ (x : Db). count (is_open_for l i t) (Table.values x.escalations) ≤ 1) (sym left)
      (omega (
        arith,
        one l i t,
        count-update (is_open_for l i t) is_open (close now resolution) id d.escalations.rows
            (λ e k. absurd (not_open (e.unit_level == l) (e.unit_id == i) (e.trigger == t) k)),
      ))

bump_escalation_target-KeepsOneOpen :
    (id : ℕ) (target : String) → KeepsOneOpen (bump_escalation_target id target)
unfolding bump_escalation_target Table.update
bump_escalation_target-KeepsOneOpen id target d d' a one h l i t =
    let (found, h1) =
      check-eq-ok (Table.rowcount id (λ _. true) d.escalations == 1) factory_error _ d h in
    let (rung, h2) = check-eq-ok (contains target target_ladder) sqlite_integrity_error _ d h1 in
    subst (λ (x : Db). count (is_open_for l i t) (Table.values x.escalations) ≤ 1)
      (ap (λ (x : Unit × Db). x.1) (ok-injective h2))
      (omega (
        arith,
        one l i t,
        count-update (is_open_for l i t) (λ _. true) (λ e. record e { target = target }) id
            d.escalations.rows (λ e k. k),
      ))

-- An operation on escalations that returned.
pub data Change (d d' : Db) : Type 0 where
  inserted : (esc : Escalation) {id : ℕ} → insert_escalation esc d ≡ ok (id, d') → Change d d'
  closed :
      (now : Time) (id : ℕ) (resolution : String)
      → resolve_escalation now id resolution d ≡ ok (tt, d')
      → Change d d'
  bumped :
      (id : ℕ) (target : String) → bump_escalation_target id target d ≡ ok (tt, d') → Change d d'

pub data Changes (first : Db) : Db → Type 0 where
  unchanged : Changes first first
  change : {d d' : Db} → Changes first d → Change d d' → Changes first d'

Change-OneOpen : {d d' : Db} → Change d d' → OneOpen d → OneOpen d'
Change-OneOpen {d} {d'} (inserted esc h) one = insert_escalation-KeepsOneOpen esc d d' _ one h
Change-OneOpen {d} {d'} (closed now id resolution h) one =
    resolve_escalation-KeepsOneOpen now id resolution d d' tt one h
Change-OneOpen {d} {d'} (bumped id target h) one =
    bump_escalation_target-KeepsOneOpen id target d d' tt one h

-- However insertions, resolutions and changes of target follow each other, no unit comes to have two
-- open escalations for one trigger, if none had at first.
pub Changes-OneOpen : {first d : Db} → Changes first d → OneOpen first → OneOpen d
Changes-OneOpen unchanged one = one
Changes-OneOpen (change before last) one = Change-OneOpen last (Changes-OneOpen before one)
