-- ===== src/Store/Table/Keys.antt =====
-- The keys of a table: ascending, below the counter, and each the key of one row.
use sf_f.Base.{
  inl, inr, Bool-cases, ==_refl, ◌∙◌, sym, ap, ==_iff, Bool-cases, false, true, ℕ, suc, ◌<◌, ◌≤◌,
  ◌≡◌, refl, Bool, Option, none, some, List, [], ◌∷◌, ◌++◌, ◌==◌, nat_eq, arith, if◌then◌else◌,
}
use sf_f.Store.Table.{Table, insert, get, get_row, update, update_rows, count_rows, rowcount}

zero≢one : Path ℕ 0 1 → ⊥
zero≢one h = omega (arith, h)

module _ {R : Type 0} where
  -- Every key is above `low` and the keys ascend.
  abbrev pub Ascends : ℕ → List (ℕ × R) → Type 0
  Ascends low [] = Unit
  Ascends low ((j, r) ∷ rows) = (low < j) × Ascends j rows

  abbrev pub Below : ℕ → List (ℕ × R) → Type 0
  Below high [] = Unit
  Below high ((j, r) ∷ rows) = (j ≤ high) × Below high rows

  pub record IsKeyed (t : Table R) : Type 0 where
    pub ascends : Ascends 0 t.rows
    pub below : Below t.last_id t.rows

  Ascends-snoc :
      (low n : ℕ) (r : R) (rows : List (ℕ × R))
      → low ≤ n
      → Below n rows
      → Ascends low rows
      → Ascends low (rows ++ (suc n, r) ∷ [])
  Ascends-snoc low n r [] h b a = (omega arith, tt)
  Ascends-snoc low n r ((j, x) ∷ rows) h b a = (a.0, Ascends-snoc j n r rows b.0 b.1 a.1)

  Below-snoc :
      (n : ℕ) (r : R) (rows : List (ℕ × R)) → Below n rows → Below (suc n) (rows ++ (suc n, r) ∷ [])
  Below-snoc n r [] b = (omega arith, tt)
  Below-snoc n r ((j, x) ∷ rows) b = (omega arith, Below-snoc n r rows b.1)

  pub insert-IsKeyed : (f : ℕ → R) (t : Table R) → IsKeyed t → IsKeyed (insert f t)
  unfolding insert
  insert-IsKeyed f t k = record {
    ascends = Ascends-snoc 0 t.last_id (f (suc t.last_id)) t.rows (omega arith) k.below k.ascends;
    below = Below-snoc t.last_id (f (suc t.last_id)) t.rows k.below;
  }

  Ascends-update_rows :
      (low i : ℕ) (p : R → Bool) (f : R → R) (rows : List (ℕ × R))
      → Ascends low rows
      → Ascends low (update_rows i p f rows)
  Ascends-update_rows low i p f [] a = a
  Ascends-update_rows low i p f ((j, r) ∷ rows) a = ground (arith, Ascends-update_rows j i p f rows)

  Below-update_rows :
      (high i : ℕ) (p : R → Bool) (f : R → R) (rows : List (ℕ × R))
      → Below high rows
      → Below high (update_rows i p f rows)
  Below-update_rows high i p f [] b = b
  Below-update_rows high i p f ((j, r) ∷ rows) b = ground (arith, Below-update_rows high i p f rows)

  pub update-IsKeyed :
      (i : ℕ) (p : R → Bool) (f : R → R) (t : Table R) → IsKeyed t → IsKeyed (update i p f t)
  unfolding update
  update-IsKeyed i p f t k = record {
    ascends = Ascends-update_rows 0 i p f t.rows k.ascends;
    below = Below-update_rows t.last_id i p f t.rows k.below;
  }

  get_row-snoc :
      (n i : ℕ) (r : R) (rows : List (ℕ × R))
      → Below n rows
      → get_row i (rows ++ (suc n, r) ∷ []) ≡ (if suc n == i then some r else get_row i rows)
  get_row-snoc n i r [] b = refl
  get_row-snoc n i r ((j, x) ∷ rows) b = ground (arith, get_row-snoc n i r rows)

  -- After an INSERT its key selects the new row, and every other key what it selected before.
  pub get-insert :
      (f : ℕ → R) (t : Table R) (i : ℕ)
      → IsKeyed t
      → get i (insert f t) ≡ (if suc t.last_id == i then some (f i) else get i t)
  unfolding insert get
  get-insert f t i k = ground (arith, get_row-snoc t.last_id i (f (suc t.last_id)) t.rows)

  -- What an UPDATE of row `i` does to a found row.
  abbrev pub modify : (R → Bool) → (R → R) → Option R → Option R
  modify p f none = none
  modify p f (some r) = some (if p r then f r else r)

  abbrev pub hits : (R → Bool) → Option R → ℕ
  hits p none = 0
  hits p (some r) = if p r then 1 else 0

  get_row-update :
      (i k : ℕ) (p : R → Bool) (f : R → R) (rows : List (ℕ × R))
      → get_row k (update_rows i p f rows)
        ≡ (if i == k then modify p f (get_row k rows) else get_row k rows)
  get_row-update i k p f [] = ground arith
  get_row-update i k p f ((j, r) ∷ rows) = ground (arith, get_row-update i k p f rows)

  -- An UPDATE of row `i` changes that row alone.
  pub get-update :
      (i k : ℕ) (p : R → Bool) (f : R → R) (t : Table R)
      → get k (update i p f t) ≡ (if i == k then modify p f (get k t) else get k t)
  unfolding update get
  get-update i k p f t = get_row-update i k p f t.rows

  count_rows-absent :
      (low i : ℕ) (p : R → Bool) (rows : List (ℕ × R))
      → Ascends low rows
      → i ≤ low
      → count_rows i p rows ≡ 0
  count_rows-absent low i p [] a h = refl
  count_rows-absent low i p ((j, r) ∷ rows) a h = ground (arith, count_rows-absent j i p rows)

  count_rows-hits :
      (low i : ℕ) (p : R → Bool) (rows : List (ℕ × R))
      → Ascends low rows
      → count_rows i p rows ≡ hits p (get_row i rows)
  count_rows-hits low i p [] a = refl
  count_rows-hits low i p ((j, r) ∷ rows) a =
      ground (arith, count_rows-hits j i p rows, count_rows-absent j i p rows)

  -- An UPDATE by key counts one row or none: one exactly when the row is there and fits.
  pub rowcount-hits :
      (i : ℕ) (p : R → Bool) (t : Table R) → IsKeyed t → rowcount i p t ≡ hits p (get i t)
  unfolding rowcount get
  rowcount-hits i p t k = count_rows-hits 0 i p t.rows k.ascends

  hits_lem : (p : R → Bool) (o : Option R) → hits p o ≡ 1 → (r : R) × (o ≡ some r) × (p r ≡ true)
  hits_lem p none h = absurd (zero≢one h)
  hits_lem p (some r) h = elim (Bool-cases (p r)) [
    | inl fits ↦ (r, refl, fits)
    | inr misses ↦ absurd (zero≢one (rw misses at h))
  ]

  -- An UPDATE that counts a row has found it, and leaves the changed row under its key.
  pub update-found :
      (i : ℕ) (p : R → Bool) (f : R → R) (t : Table R)
      → IsKeyed t
      → (rowcount i p t == 1) ≡ true
      → (r : R) × (get i t ≡ some r) × (p r ≡ true) × (get i (update i p f t) ≡ some (f r))
  update-found i p f t k h =
      let one : rowcount i p t ≡ 1 = (==_iff (rowcount i p t) 1).0 h in
      let (r, found, fits) = hits_lem p (get i t) (sym (rowcount-hits i p t k) ∙ one) in
      let same : (if i == i then modify p f (get i t) else get i t) ≡ modify p f (get i t) =
        rw (==_refl i) refl in
      let changed : modify p f (some r) ≡ some (f r) = rw fits refl in
      (r, found, fits, get-update i i p f t ∙ same ∙ ap (modify p f) found ∙ changed)

  -- An UPDATE that the changed row no longer fits does not count it again.
  pub update_again :
      (i : ℕ) (p : R → Bool) (f : R → R) (t : Table R)
      → IsKeyed t
      → ((r : R) → p (f r) ≡ false)
      → (rowcount i p t == 1) ≡ true
      → (rowcount i p (update i p f t) == 1) ≡ false
  update_again i p f t k closes h =
      let (r, found, fits, left) = update-found i p f t k h in
      let missed : hits p (some (f r)) ≡ 0 = rw (closes r) refl in
      ap (λ n. n == 1)
        (rowcount-hits i p (update i p f t) (update-IsKeyed i p f t k) ∙ ap (hits p) left ∙ missed)
