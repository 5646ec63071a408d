-- ===== src/Base/Raises.antt =====
-- Python functions that may raise: the error taxonomy of models.py, and the exceptions of Python and
-- of sqlite3 that the modelled code can meet. The texts of the messages are not modelled.
use mathlib.Core.Path.{◌≡◌, refl}
use mathlib.Core.Logic.{◌⊎◌, inl, inr}
use mathlib.Core.Bool.{Bool, true, false}
use mathlib.Core.Option.{Option, none, some}

pub data Error : Type 0 where
  factory_error config_error migration_error transition_error integrity_error git_error : Error
  process_error artifact_contract_error consultation_breach_error notify_error : Error
  sqlite_integrity_error assertion_error key_error value_error : Error

pub data Result {ℓ} (A : Type ℓ) : Type ℓ where
  ok : A → Result A
  err : Error → Result A

infixl 5 ◌>>=◌ ◌>>◌
abbrev pub ◌>>=◌ {ℓ κ} : {A : Type ℓ} {B : Type κ} → Result A → (A → Result B) → Result B
ok x >>= next = next x
err raised >>= next = err raised

abbrev pub ◌>>◌ {ℓ} : {B : Type ℓ} → Result (Unit {0}) → Result B → Result B
first >> after = first >>= λ _. after

-- `if not b: raise e`
abbrev pub require : Bool → Error → Result (Unit {0})
require true e = ok tt
require false e = err e

-- `if x is None: raise e`
abbrev pub require_some {ℓ} : {A : Type ℓ} → Option A → Error → Result A
require_some none e = err e
require_some (some a) e = ok a

pub >>=-eq-ok {ℓ κ} :
    {A : Type ℓ} {B : Type κ} (call : Result A) (next : A → Result B) {b : B}
    → (call >>= next) ≡ ok b
    → (result : A) × (call ≡ ok result) × (next result ≡ ok b)
>>=-eq-ok (ok result) next h = (result, refl, h)
>>=-eq-ok (err raised) next h = cc

pub ok-injective {ℓ} : {A : Type ℓ} {a b : A} → Path (Result A) (ok a) (ok b) → a ≡ b
ok-injective h = cc

pub result-cases :
    {A : Type 0} (r : Result A) → ((a : A) × (r ≡ ok a)) ⊎ ((e : Error) × (r ≡ err e))
result-cases (ok a) = inl (a, refl)
result-cases (err e) = inr (e, refl)
