-- ===== src/Store/Tokens/Laws.antt =====
-- What a row of the token ledger of src/sf_factory/db.py is charged to.
use mathlib.Core.Path.{subst}
use sf_f.Base.{
  ℕ, zero, suc, ◌+◌, String, ◌≡◌, ◌≢◌, refl, ap, ◌∙◌, sym, Bool, true, false, not, ◌&&◌, ◌⊎◌, inl,
  inr, ◌==◌, ==_iff, ==_refl, string_eq, Option, none, some, List, [], ◌∷◌, ◌++◌, filter, get_or,
  if◌then◌else◌, arith, ◌||◌, Option-cases, Bool-cases, contains,
}
use sf_f.Base.Integers.{ℤ, pos, negsuc, is_zero}
use sf_f.Base.Raises.{ok, ok-injective}
use sf_f.Models.Records.{ProcessRecord}
use sf_f.Store.Table
use sf_f.Store.Db.{Db, LedgerRow}
use sf_f.Store.Events.Laws.{values-insert}
use sf_f.Store.Tokens.{
  sum_of, token_sum, of_unit, counted_role, delivered, failed_run, insert_token_usage,
  unit_token_total, effective_token_sum,
}

-- A run that delivered nothing: it was stopped, or it ended with an exit code other than zero.
abbrev pub Failed : ProcessRecord → Type 0
Failed pr =
    (pr.state ≡ "timed_out")
    ⊎ ((pr.state ≡ "killed")
        ⊎ ((pr.state ≡ "orphaned")
            ⊎ ((pr.state ≡ "exited") × (code : ℤ) × (pr.exit_code ≡ some code) × (code ≢ pos 0))))

abbrev pub tokens_of : LedgerRow → ℕ
tokens_of r = get_or r.tokens_in 0 + get_or r.tokens_out 0

abbrev is_nonzero : Option ℤ → Bool
is_nonzero code = not (is_zero (get_or code (pos 0)))

nonzero : (code : ℤ) → code ≢ pos 0 → is_zero code ≡ false
nonzero (pos zero) h = absurd (h refl)
nonzero (pos (suc n)) h = refl
nonzero (negsuc n) h = refl

not_zero : (code : ℤ) → not (is_zero code) ≡ true → code ≢ pos 0
not_zero (pos zero) h e = cc
not_zero (pos (suc n)) h e = cc
not_zero (negsuc n) h e = cc

nonzero-Some : (code : Option ℤ) → is_nonzero code ≡ true → (c : ℤ) × (code ≡ some c) × (c ≢ pos 0)
nonzero-Some none h = cc
nonzero-Some (some c) h = (c, refl, not_zero c h)

stopped-Failed :
    (pr : ProcessRecord)
    → contains pr.state ("timed_out" ∷ "killed" ∷ "orphaned" ∷ []) ≡ true
    → Failed pr
stopped-Failed pr h = elim (Bool-cases (pr.state == "timed_out")) [
  | inl out ↦ inl ((==_iff pr.state "timed_out").0 out)
  | inr not_out ↦ elim (Bool-cases (pr.state == "killed")) [
    | inl killed ↦ inr (inl ((==_iff pr.state "killed").0 killed))
    | inr alive ↦
        let last : (pr.state == "orphaned") ≡ true =
          third (pr.state == "timed_out") (pr.state == "killed") (pr.state == "orphaned") not_out
            alive h in
        inr (inr (inl ((==_iff pr.state "orphaned").0 last)))
  ]
]
  where
    third : (a b c : Bool) → a ≡ false → b ≡ false → (a || (b || (c || false))) ≡ true → c ≡ true
    third a b c x y h = ground arith

failed_run-Failed : (pr : ProcessRecord) → failed_run pr ≡ true → Failed pr
failed_run-Failed pr h =
    elim (Bool-cases (contains pr.state ("timed_out" ∷ "killed" ∷ "orphaned" ∷ []))) [
      | inl stopped ↦ stopped-Failed pr stopped
      | inr other ↦
          let (ended, bad) = both (pr.state == "exited") _ (rw other at h) in
          let (code, found, other_code) = nonzero-Some pr.exit_code bad in
          inr (inr (inr ((==_iff pr.state "exited").0 ended, code, found, other_code)))
    ]
  where
    both : (a b : Bool) → (a && b) ≡ true → (a ≡ true) × (b ≡ true)
    both a b h = ground arith

Failed-failed_run : (pr : ProcessRecord) → Failed pr → failed_run pr ≡ true
Failed-failed_run pr (inl h) = rw h refl
Failed-failed_run pr (inr (inl h)) = rw h refl
Failed-failed_run pr (inr (inr (inl h))) = rw h refl
Failed-failed_run pr (inr (inr (inr (h, code, found, bad)))) = rw (h, found, nonzero code bad) refl

token_sum-snoc :
    (p : LedgerRow → Bool) (rows : List LedgerRow) (r : LedgerRow)
    → token_sum (filter p (rows ++ r ∷ []))
      ≡ token_sum (filter p rows) + (if p r then tokens_of r else 0)
token_sum-snoc p rows r =
    ground (arith, column (λ x. x.tokens_in) rows, column (λ x. x.tokens_out) rows)
  where
    column :
        (c : LedgerRow → Option ℕ) (rows : List LedgerRow)
        → sum_of c (filter p (rows ++ r ∷ []))
          ≡ sum_of c (filter p rows) + (if p r then get_or (c r) 0 else 0)
    column c [] = ground arith
    column c (x ∷ rows) = ground (arith, column c rows)

-- The ledger with one more row.
abbrev pub with_row : LedgerRow → Db → Db
with_row row d = record d { ledger = Table.insert (λ _. row) d.ledger }

total-with_row :
    (l u : String) (row : LedgerRow) (d : Db)
    → unit_token_total l u (with_row row d)
      ≡ unit_token_total l u d + (if of_unit l u row then tokens_of row else 0)
unfolding unit_token_total
total-with_row l u row d =
    ap (λ rows. token_sum (filter (of_unit l u) rows)) (values-insert (λ _. row) d.ledger)
    ∙ token_sum-snoc (of_unit l u) (Table.values d.ledger) row

effective-with_row :
    (l u : String) (ex : Option String) (row : LedgerRow) (d : Db)
    → effective_token_sum l u ex (with_row row d)
      ≡ effective_token_sum l u ex d
        + (if of_unit l u row && (counted_role ex row && delivered d row) then tokens_of row else 0)
unfolding effective_token_sum
effective-with_row l u ex row d =
    let kept = λ (r : LedgerRow). of_unit l u r && (counted_role ex r && delivered d r) in
    ap (λ rows. token_sum (filter kept rows)) (values-insert (λ _. row) d.ledger)
    ∙ token_sum-snoc kept (Table.values d.ledger) row

-- What a recorded usage does to the sums of its own unit, for a run `pr`.
pub record Charged (row : LedgerRow) (pr : ProcessRecord) (d d' : Db) : Type 0 where
  pub spent :
      unit_token_total row.unit_level row.unit_id d'
      ≡ unit_token_total row.unit_level row.unit_id d + tokens_of row
  pub failed :
      (ex : Option String)
      → Failed pr
      → effective_token_sum row.unit_level row.unit_id ex d'
        ≡ effective_token_sum row.unit_level row.unit_id ex d
  pub excluded :
      effective_token_sum row.unit_level row.unit_id (some row.role) d'
      ≡ effective_token_sum row.unit_level row.unit_id (some row.role) d
  pub charged :
      (ex : Option String)
      → (Failed pr → ⊥)
      → ex ≢ some row.role
      → effective_token_sum row.unit_level row.unit_id ex d'
        ≡ effective_token_sum row.unit_level row.unit_id ex d + tokens_of row
  pub elsewhere :
      (l u : String) (ex : Option String)
      → of_unit l u row ≡ false
      → (unit_token_total l u d' ≡ unit_token_total l u d)
        × (effective_token_sum l u ex d' ≡ effective_token_sum l u ex d)

own : (row : LedgerRow) → of_unit row.unit_level row.unit_id row ≡ true
own row = rw (==_refl row.unit_level, ==_refl row.unit_id) refl

delivered_by :
    (d : Db) (row : LedgerRow) (pr : ProcessRecord)
    → Table.get row.process_id d.processes ≡ some pr
    → delivered d row ≡ not (failed_run pr)
delivered_by d row pr found = rw (found, delivered) refl

counted_other :
    (ex : Option String) (row : LedgerRow) → ex ≢ some row.role → counted_role ex row ≡ true
counted_other none row h = refl
counted_other (some role) row h = elim (Bool-cases (row.role == role)) [
  | inl same ↦ absurd (h (ap some (sym ((==_iff row.role role).0 same))))
  | inr other ↦ rw other refl
]

add_nothing : (n : ℕ) → n + 0 ≡ n
add_nothing n = omega arith

with_row-Charged :
    (row : LedgerRow) (pr : ProcessRecord) (d : Db)
    → Table.get row.process_id d.processes ≡ some pr
    → Charged row pr d (with_row row d)
with_row-Charged row pr d found = record {
  spent = total-with_row row.unit_level row.unit_id row d ∙ rw (own row) refl;
  failed = λ ex f.
      let lost : delivered d row ≡ false =
        delivered_by d row pr found ∙ ap not (Failed-failed_run pr f) in
      effective-with_row row.unit_level row.unit_id ex row d
      ∙ nothing (of_unit row.unit_level row.unit_id row) (counted_role ex row) (delivered d row) _ _
          lost;
  excluded =
      let out : counted_role (some row.role) row ≡ false = rw (==_refl row.role) refl in
      effective-with_row row.unit_level row.unit_id (some row.role) row d
      ∙ left_out (of_unit row.unit_level row.unit_id row) (counted_role (some row.role) row)
          (delivered d row) _ _ out;
  charged = λ ex sound other.
      effective-with_row row.unit_level row.unit_id ex row d
      ∙ all_in _ _ _ _ _ (own row) (counted_other ex row other)
          (delivered_by d row pr found ∙ ap not (worked sound));
  elsewhere = λ l u ex away. (
    total-with_row l u row d
        ∙ ap (λ b. unit_token_total l u d + (if b then tokens_of row else 0)) away
        ∙ add_nothing (unit_token_total l u d),
    effective-with_row l u ex row d
        ∙ foreign (of_unit l u row) (counted_role ex row) (delivered d row) _ _ away,
  );
}
  where
    nothing : (a b c : Bool) (n t : ℕ) → c ≡ false → n + (if a && (b && c) then t else 0) ≡ n
    nothing a b c n t h = ground arith

    left_out : (a b c : Bool) (n t : ℕ) → b ≡ false → n + (if a && (b && c) then t else 0) ≡ n
    left_out a b c n t h = ground arith

    foreign : (a b c : Bool) (n t : ℕ) → a ≡ false → n + (if a && (b && c) then t else 0) ≡ n
    foreign a b c n t h = ground arith

    all_in :
        (a b c : Bool) (n t : ℕ)
        → a ≡ true
        → b ≡ true
        → c ≡ true
        → n + (if a && (b && c) then t else 0) ≡ n + t
    all_in a b c n t x y z = ground arith

    worked : (Failed pr → ⊥) → failed_run pr ≡ false
    worked sound = elim (Bool-cases (failed_run pr)) [
      | inl bad ↦ absurd (sound (failed_run-Failed pr bad))
      | inr good ↦ good
    ]

-- A usage is recorded only for a run that is registered. What it spent is added to its unit's total. It
-- is added to the unit's effective sum exactly when the run did not fail (it was not stopped, and did
-- not end with an exit code other than zero) and its role is not the one left out; otherwise that
-- sum is as it was. The sums of other units stay.
pub insert_token_usage-Charged :
    (row : LedgerRow) (d : Db) {d' : Db}
    → insert_token_usage row d ≡ ok (tt, d')
    → (pr : ProcessRecord) × (Table.get row.process_id d.processes ≡ some pr) × Charged row pr d d'
unfolding insert_token_usage
insert_token_usage-Charged row d {d'} h =
    elim (Option-cases (Table.get row.process_id d.processes)) [
      | inl missing ↦ cc (rw missing at h)
      | inr (pr, found) ↦
          let left : with_row row d ≡ d' =
            ap (λ (x : Unit × Db). x.1) (ok-injective (rw found at h)) in
          (pr, found, subst (Charged row pr d) left (with_row-Charged row pr d found))
    ]
