-- ===== src/Governor/Resumed.antt =====
-- The resumption of the capacity governor of src/sf_factory/scheduler.py, as a whole.
use mathlib.Core.Option
use sf_f.Base.{
  ℕ, String, ◌≡◌, refl, sym, ap, ◌∙◌, Bool, true, false, ◌&&◌, Option, none, some, List, [], ◌∷◌,
  ◌++◌, ◌==◌, ==_iff, ==_refl, string_eq, nat_eq, option_eq, filter, if◌then◌else◌, arith, ◌<◌, ◌≤◌,
  Bool-cases, inl, inr,
}
use sf_f.Base.Raises.{ok}
use sf_f.Models.Records.{Time, Escalation}
use sf_f.Store.Table
use sf_f.Store.Table.Keys.{IsKeyed, Ascends, hits, rowcount-hits, update-IsKeyed}
use sf_f.Store.Db.{Db}
use sf_f.Store.Tx.{◌>>=◌, pure, bind}
use sf_f.Store.Events.{insert_event}
use sf_f.Store.Events.Laws.{logged}
use sf_f.Store.Escalations.{is_open, close, resolve_escalation}
use sf_f.Governor.{
  is_in_scope, in_scope_row, selected, resolution_for, resolved_event, resume, sweep, auto_resolve,
}
use sf_f.Governor.Swept.{settle, settled, resume-Step, sweep-Step}

-- Rows whose keys ascend above `low`, each in the table and open.
abbrev Pending : (ℕ → Option Escalation) → ℕ → List (ℕ × Escalation) → Type 0
Pending look low [] = Unit
Pending look low ((id, e) ∷ rows) =
    (low < id) × (look id ≡ some e) × (is_open e ≡ true) × Pending look id rows

Pending-map :
    (f g : ℕ → Option Escalation) (low : ℕ) (rows : List (ℕ × Escalation))
    → ((k : ℕ) → low < k → f k ≡ g k)
    → Pending f low rows
    → Pending g low rows
Pending-map f g low [] same p = tt
Pending-map f g low ((id, e) ∷ rows) same (l, found, o, p) =
    (l, sym (same id l) ∙ found, o, Pending-map f g id rows (λ k m. same k (omega (arith, l, m))) p)

Pending-low :
    (f : ℕ → Option Escalation) (low high : ℕ) (rows : List (ℕ × Escalation))
    → low < high
    → Pending f high rows
    → Pending f low rows
Pending-low f low high [] l p = tt
Pending-low f low high ((id, e) ∷ rows) l (m, found, o, p) = (omega (arith, l, m), found, o, p)

in_scope-open : (e : Escalation) → is_in_scope e ≡ true → is_open e ≡ true
in_scope-open e h = first (e.status == "open") _ h
  where
    first : (a b : Bool) → (a && b) ≡ true → a ≡ true
    first a b h = ground arith

apart : (j k : ℕ) → j < k → (j == k) ≡ false
apart j k l = ground (arith, ==_iff j k)

selected-Pending :
    (low : ℕ) (rows : List (ℕ × Escalation))
    → Ascends low rows
    → Pending (λ k. Table.get_row k rows) low (filter in_scope_row rows)
selected-Pending low [] a = tt
selected-Pending low ((j, r) ∷ rows) (l, a) =
    let look : ℕ → Option Escalation = λ k. Table.get_row k ((j, r) ∷ rows) in
    let others : Pending look j (filter in_scope_row rows) =
      Pending-map (λ k. Table.get_row k rows) look j (filter in_scope_row rows) (λ k m. passed k m)
        (selected-Pending j rows a) in
    elim (Bool-cases (is_in_scope r)) [
      | inl chosen ↦ rw chosen (l, found, in_scope-open r chosen, others)
      | inr left ↦ rw left (Pending-low look low j (filter in_scope_row rows) l others)
    ]
  where
    passed : (k : ℕ) → j < k → Table.get_row k rows ≡ Table.get_row k ((j, r) ∷ rows)
    passed k m = rw (apart j k m) refl

    found : Table.get_row j ((j, r) ∷ rows) ≡ some r
    found = rw (==_refl j) refl

-- What the sweep makes of one row.
abbrev resumed_by : Time → Option String → Escalation → Escalation
resumed_by now none e = e
resumed_by now (some token) e = close now token e

abbrev pub resumed : Time → Db → Escalation → Escalation
resumed now d e = if is_in_scope e then resumed_by now (resolution_for e d) e else e

settle-other :
    (now : Time) (id : ℕ) (token : Option String) (k : ℕ) (row : Option Escalation)
    → (id == k) ≡ false
    → settle now id token k row ≡ row
settle-other now id none k row h = refl
settle-other now id (some token) k row h = rw h refl

settle-same :
    (now : Time) (id : ℕ) (token : Option String) (k : ℕ) (e : Escalation)
    → (id == k) ≡ true
    → is_open e ≡ true
    → settle now id token k (some e) ≡ some (resumed_by now token e)
settle-same now id none k e h o = refl
settle-same now id (some token) k e h o = rw (h, o) refl

settled-below :
    (now : Time) (d : Db) (f : ℕ → Option Escalation) (low k : ℕ) (rows : List (ℕ × Escalation))
    (row : Option Escalation)
    → k ≤ low
    → Pending f low rows
    → settled now d rows k row ≡ row
settled-below now d f low k [] row h p = refl
settled-below now d f low k ((id, e) ∷ rows) row h (l, found, o, p) =
    let other : (id == k) ≡ false = ground (arith, ==_iff id k) in
    settled-below now d f id k rows _ (omega (arith, h, l)) p
    ∙ settle-other now id (resolution_for e d) k row other

settled-selected :
    (now : Time) (d : Db) (low k : ℕ) (rows : List (ℕ × Escalation))
    → Ascends low rows
    → settled now d (filter in_scope_row rows) k (Table.get_row k rows)
      ≡ Option.map (resumed now d) (Table.get_row k rows)
settled-selected now d low k [] a = refl
settled-selected now d low k ((j, r) ∷ rows) (l, a) = elim (Bool-cases (j == k)) [
  | inl same ↦
      let below : k ≤ j = omega (arith, (==_iff j k).0 same) in
      let rest = λ (row : Option Escalation).
        settled-below now d (λ i. Table.get_row i rows) j k (filter in_scope_row rows) row below
          (selected-Pending j rows a) in
      elim (Bool-cases (is_in_scope r)) [
        | inl chosen ↦
            rw (same, chosen)
              (rest _ ∙ settle-same now j (resolution_for r d) k r same (in_scope-open r chosen))
        | inr left ↦ rw (same, left) (rest _)
      ]
  | inr other ↦ elim (Bool-cases (is_in_scope r)) [
    | inl chosen ↦
        rw (other, chosen)
          (ap (settled now d (filter in_scope_row rows) k)
              (settle-other now j (resolution_for r d) k (Table.get_row k rows) other)
            ∙ settled-selected now d j k rows a)
    | inr left ↦ rw (other, left) (settled-selected now d j k rows a)
  ]
]

-- One row that is there and open is resolved or left, without a raise.
resume-returns :
    (now : Time) (id : ℕ) (e : Escalation) (token : Option String) (d : Db)
    → IsKeyed d.escalations
    → Table.get id d.escalations ≡ some e
    → is_open e ≡ true
    → (ids : List ℕ) × (d' : Db) × (resume now id e token d ≡ ok (ids, d')) × IsKeyed d'.escalations
unfolding resolve_escalation insert_event
resume-returns now id e none d k found o = ([], d, refl, k)
resume-returns now id e (some token) d k found o =
    let hit : hits is_open (some e) ≡ 1 = rw o refl in
    let one : (Table.rowcount id is_open d.escalations == 1) ≡ true =
      ap (λ n. n == 1) (rowcount-hits id is_open d.escalations k ∙ ap (hits is_open) found ∙ hit) in
    (
      id ∷ [],
      logged now (resolved_event id e token)
          (record d { escalations = Table.update id is_open (close now token) d.escalations }),
      rw one refl,
      update-IsKeyed id is_open (close now token) d.escalations k,
    )

sweep-returns :
    (now : Time) (low : ℕ) (rows : List (ℕ × Escalation)) (d : Db)
    → IsKeyed d.events
    → IsKeyed d.escalations
    → Pending (λ k. Table.get k d.escalations) low rows
    → (ids : List ℕ) × (d' : Db) × (sweep now rows d ≡ ok (ids, d'))
unfolding sweep
sweep-returns now low [] d events keyed p = ([], d, refl)
sweep-returns now low ((id, e) ∷ rows) d events keyed (l, found, o, p) =
    let (done, d1, first, keyed1) = resume-returns now id e (resolution_for e d) d keyed found o in
    let step = resume-Step now id e (resolution_for e d) d d1 done events first in
    let unchanged : (k : ℕ) → id < k → Table.get k d.escalations ≡ Table.get k d1.escalations =
      λ k m. sym (
        step.rows k
        ∙ settle-other now id (resolution_for e d) k (Table.get k d.escalations) (apart id k m)) in
    let (rest, d2, others) = sweep-returns now id rows d1 step.keyed keyed1 (
      Pending-map (λ k. Table.get k d.escalations) (λ k. Table.get k d1.escalations) id rows
        unchanged p) in
    (
      done ++ rest,
      d2,
      ap (λ r. bind r (λ ids. do left ← sweep now rows; pure (ids ++ left))) first
          ∙ ap (λ r. bind r (λ left. pure (done ++ left))) others,
    )

-- When the keys of the escalations and of the events ascend, the sweep returns, and it has closed,
-- with the token that the stage's latest fall is mapped to, the open rows of a stage with the trigger
-- agent_run_failed whose event has the mark of a limit and whose fall has a token. Every other row is
-- as it was.
pub get-auto_resolve :
    (now : Time) (d : Db)
    → IsKeyed d.escalations
    → IsKeyed d.events
    → (ids : List ℕ) × (d' : Db) × (auto_resolve now d ≡ ok (ids, d'))
      × ((k : ℕ)
          → Table.get k d'.escalations ≡ Option.map (resumed now d) (Table.get k d.escalations))
unfolding auto_resolve Table.get
get-auto_resolve now d keyed events =
    let (ids, d', returned) =
      sweep-returns now 0 (selected d) d events keyed
        (selected-Pending 0 d.escalations.rows keyed.ascends) in
    let step = sweep-Step now (selected d) d d d' ids events (λ seq u. refl) returned in
    (
      ids,
      d',
      returned,
      λ k. step.rows k ∙ settled-selected now d 0 k d.escalations.rows keyed.ascends,
    )
