-- ===== src/Store/Act/Laws.antt =====
-- What a coroutine has done, read off its outcome.
use sf_f.Base.{◌≡◌, refl, ap, ◌⊎◌, inl, inr, Bool-cases}
use sf_f.Base.Raises.{Result, ok, err, factory_error}
use sf_f.Store.Db.{Db}
use sf_f.Store.Database.{Database, read}
use sf_f.Store.Act.{Act, ◌>>=◌, proceed, queried, reads}

-- What a coroutine that returned did first.
pub proceed-ok :
    {A B : Type 0} (r : Result A × Database) (f : A → Act B) {b : B}
    → (proceed r f).0 ≡ ok b
    → (a : A) × (r.0 ≡ ok a) × (proceed r f ≡ f a r.1)
proceed-ok (ok a, db) f h = (a, refl, refl)
proceed-ok (err e, db) f h = cc

-- An end that does not touch the connection.
pub proceed-pure :
    {A B : Type 0} (r : Result A × Database) (b : B) → (proceed r (λ _ db. (ok b, db))).1 ≡ r.1
proceed-pure (ok a, db) b = refl
proceed-pure (err e, db) b = refl

read-cases : (db : Database) → (read db ≡ ok db.tables) ⊎ (read db ≡ err factory_error)
unfolding read
read-cases db = elim (Bool-cases db.is_open) [
  | inl is_open ↦ inl (rw is_open refl)
  | inr closed ↦ inr (rw closed refl)
]

-- A query sees the committed tables, or the connection is closed.
pub reads-cases :
    {A B : Type 0} (f : Db → A) (k : A → Act B) (db : Database)
    → ((reads f >>= k) db ≡ k (f db.tables) db) ⊎ ((reads f >>= k) db ≡ (err factory_error, db))
reads-cases f k db = elim (read-cases db) [
  | inl found ↦ inl (ap (λ r. proceed (queried r f, db) k) found)
  | inr closed ↦ inr (ap (λ r. proceed (queried r f, db) k) closed)
]
