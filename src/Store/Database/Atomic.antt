-- ===== src/Store/Database/Atomic.antt =====
-- All or nothing: what `transaction` leaves behind on each of its ways out.
use sf_f.Base.{◌∙◌, ap, sym, ◌≡◌, refl, Bool, true, false, ◌⊎◌, inl, inr, ◌&&◌, not}
use sf_f.Base.Raises.{Error, Result, ok, err, factory_error}
use sf_f.Store.Db.{Db}
use sf_f.Store.Tx.{Tx}
use sf_f.Store.Database.{Database, finish, transaction}

-- A connection that may start a write transaction.
abbrev pub is_ready : Database → Bool
is_ready db = db.is_open && (not db.read_only && not db.in_tx)

-- The outcome of a body on a connection that is ready.
abbrev pub committed {ℓ} : {A : Type ℓ} → Database → Result (A × Db) → Result A × Database
committed db (ok (a, d)) = (ok a, record db { tables = d })
committed db (err e) = (err e, db)

abbrev connection : Bool → Bool → Bool → Db → Database
connection o r t d = record { is_open = o; read_only = r; in_tx = t; tables = d }

finish-committed {ℓ} :
    {A : Type ℓ} (d : Db) (m : Result (A × Db))
    → finish (connection true false true d) m ≡ committed (connection true false false d) m
finish-committed d (ok a) = refl
finish-committed d (err e) = refl

abbrev Outcome {ℓ} : {A : Type ℓ} → Tx A → Database → Type ℓ
Outcome body db =
    ((is_ready db ≡ false) × (transaction body db ≡ (err factory_error, db)))
    ⊎ ((is_ready db ≡ true) × (transaction body db ≡ committed db (body db.tables)))

outcome {ℓ} : {A : Type ℓ} (body : Tx A) (o r t : Bool) (d : Db) → Outcome body (connection o r t d)
unfolding transaction
outcome body true false false d = inr (refl, finish-committed d (body d))
outcome body true false true d = inl (refl, refl)
outcome body true true t d = inl (refl, refl)
outcome body false r t d = inl (refl, refl)

-- On a connection that is closed, read-only or already inside a transaction the body does not run and
-- nothing changes. Otherwise the body's result is returned: a result commits exactly the tables
-- that the body left, and an exception leaves the tables as they were. No transaction stays open.
pub transaction_atomic {ℓ} :
    {A : Type ℓ} (body : Tx A) (db : Database)
    → ((is_ready db ≡ false) × (transaction body db ≡ (err factory_error, db)))
      ⊎ ((is_ready db ≡ true) × (transaction body db ≡ committed db (body db.tables)))
transaction_atomic body db = outcome body db.is_open db.read_only db.in_tx db.tables

committed-err {ℓ} :
    {A : Type ℓ} (db : Database) (m : Result (A × Db)) {e : Error}
    → (committed db m).0 ≡ err e
    → (committed db m).1 ≡ db
committed-err db (ok a) h = cc
committed-err db (err x) h = refl

committed-ok {ℓ} :
    {A : Type ℓ} (db : Database) (m : Result (A × Db)) {a : A}
    → (committed db m).0 ≡ ok a
    → (d' : Db) × (m ≡ ok (a, d')) × ((committed db m).1 ≡ record db { tables = d' })
committed-ok db (ok (x, d)) h = (d, cc, refl)
committed-ok db (err x) h = cc

ok_ne_err {ℓ} : {A : Type ℓ} {a : A} {e : Error} → ok a ≡ err e → ⊥
ok_ne_err h = cc

-- A transaction that raised left everything as it was.
pub transaction-err {ℓ} :
    {A : Type ℓ} (body : Tx A) (db : Database) {e : Error}
    → (transaction body db).0 ≡ err e
    → (transaction body db).1 ≡ db
transaction-err body db h = elim (transaction_atomic body db) [
  | inl (_, same) ↦ ap (λ r. r.1) same
  | inr (_, same) ↦
      ap (λ r. r.1) same ∙ committed-err db (body db.tables) (sym (ap (λ r. r.0) same) ∙ h)
]

-- A transaction that returned ran its body and committed what the body left.
pub transaction-ok {ℓ} :
    {A : Type ℓ} (body : Tx A) (db : Database) {a : A}
    → (transaction body db).0 ≡ ok a
    → (d' : Db) × (body db.tables ≡ ok (a, d'))
      × ((transaction body db).1 ≡ record db { tables = d' })
transaction-ok body db h = elim (transaction_atomic body db) [
  | inl (_, same) ↦ absurd (ok_ne_err (sym h ∙ ap (λ r. r.0) same))
  | inr (_, same) ↦
      let (d', ran, left) = committed-ok db (body db.tables) (sym (ap (λ r. r.0) same) ∙ h) in
      (d', ran, ap (λ r. r.1) same ∙ left)
]
