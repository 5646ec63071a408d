-- ===== src/Store/Tx.antt =====
-- A write inside one transaction: it reads and changes the tables, and may raise. What was written
-- before a raise is rolled back by `Database.transaction`, so an error carries no tables.
use sf_f.Base.{true, ◌≡◌, refl, Bool, true, false}
use sf_f.Base.Raises.{Error, Result, ok, err, require}
use sf_f.Store.Db.{Db}

abbrev pub Tx {ℓ} : Type ℓ → Type ℓ
Tx A = Db → Result (A × Db)

abbrev pub bind {ℓ κ} : {A : Type ℓ} {B : Type κ} → Result (A × Db) → (A → Tx B) → Result (B × Db)
bind (ok (a, d)) f = f a d
bind (err e) f = err e

infixl 5 ◌>>=◌ ◌>>◌
abbrev pub ◌>>=◌ {ℓ κ} : {A : Type ℓ} {B : Type κ} → Tx A → (A → Tx B) → Tx B
◌>>=◌ m f d = bind (m d) f

abbrev pub ◌>>◌ {ℓ} : {B : Type ℓ} → Tx (Unit {0}) → Tx B → Tx B
m >> k = m >>= λ _. k

abbrev pub pure {ℓ} : {A : Type ℓ} → A → Tx A
pure a d = ok (a, d)

abbrev pub raise {ℓ} : {A : Type ℓ} → Error → Tx A
raise e d = err e

-- A read.
abbrev pub gets {ℓ} : {A : Type ℓ} → (Db → A) → Tx A
gets f d = ok (f d, d)

abbrev pub put : (Db → Db) → Tx (Unit {0})
put f d = ok (tt, f d)

-- `if not b: raise e`; with `sqlite_integrity_error`, a constraint of the schema.
abbrev pub check : Bool → Error → Tx (Unit {0})
check b e d = elim (require b e) [ ok _ ↦ ok (tt, d) | err x ↦ err x ]

abbrev pub lift {ℓ} : {A : Type ℓ} → Result A → Tx A
lift r d = elim r [ ok a ↦ ok (a, d) | err e ↦ err e ]

pub bind-eq-ok {ℓ κ} :
    {A : Type ℓ} {B : Type κ} (m : Result (A × Db)) (f : A → Tx B) {b : B × Db}
    → bind m f ≡ ok b
    → (a : A) × (d : Db) × (m ≡ ok (a, d)) × (f a d ≡ ok b)
bind-eq-ok (ok (a, d)) f h = (a, d, refl, h)
bind-eq-ok (err e) f h = cc

-- A check that passed was met.
pub check-eq-ok {ℓ} :
    {B : Type ℓ} (b : Bool) (e : Error) (k : Tx B) (d : Db) {r : B × Db}
    → bind (check b e d) (λ _. k) ≡ ok r
    → (b ≡ true) × (k d ≡ ok r)
check-eq-ok true e k d h = (refl, h)
check-eq-ok false e k d h = cc
