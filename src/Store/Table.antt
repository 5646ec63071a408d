-- ===== src/Store/Table.antt =====
-- A table with an INTEGER PRIMARY KEY AUTOINCREMENT column: a key is never used twice.
pub mod Keys
use sf_f.Base.{
  ℕ, suc, ◌+◌, Bool, ◌&&◌, Option, none, some, List, [], ◌∷◌, ◌++◌, map, ◌==◌, nat_eq,
  if◌then◌else◌,
}

pub record Table (R : Type 0) : Type 0 where
  pub rows : List (ℕ × R)
  pub last_id : ℕ

module _ {R : Type 0} where
  abbrev pub empty : Table R
  empty = record { rows = []; last_id = 0 }

  -- The key that the next INSERT is given: `cur.lastrowid` after it.
  abbrev pub next_id : Table R → ℕ
  next_id t = suc t.last_id

  -- INSERT: the row is given its key.
  unfoldable pub insert : (ℕ → R) → Table R → Table R
  insert f t = record {
    rows = t.rows ++ (suc t.last_id, f (suc t.last_id)) ∷ [];
    last_id = suc t.last_id;
  }

  abbrev pub get_row : ℕ → List (ℕ × R) → Option R
  get_row i [] = none
  get_row i ((j, r) ∷ rows) = let rest = get_row i rows in if j == i then some r else rest

  -- SELECT * … WHERE id = i
  unfoldable pub get : ℕ → Table R → Option R
  get i t = get_row i t.rows

  abbrev pub update_rows : ℕ → (R → Bool) → (R → R) → List (ℕ × R) → List (ℕ × R)
  update_rows i p f [] = []
  update_rows i p f ((j, r) ∷ rows) =
      (if j == i && p r then (j, f r) else (j, r)) ∷ update_rows i p f rows

  abbrev pub count_rows : ℕ → (R → Bool) → List (ℕ × R) → ℕ
  count_rows i p [] = 0
  count_rows i p ((j, r) ∷ rows) =
      let rest = count_rows i p rows in if j == i && p r then suc rest else rest

  -- UPDATE … WHERE id = i AND p
  unfoldable pub update : ℕ → (R → Bool) → (R → R) → Table R → Table R
  update i p f t = record t { rows = update_rows i p f t.rows }

  -- `cur.rowcount` after that UPDATE.
  unfoldable pub rowcount : ℕ → (R → Bool) → Table R → ℕ
  rowcount i p t = count_rows i p t.rows

  -- The rows in the order of their keys, which is the order of insertion.
  abbrev pub values : Table R → List R
  values t = map (λ (entry : ℕ × R). entry.1) t.rows
