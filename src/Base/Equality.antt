-- ===== src/Base/Equality.antt =====
-- Boolean equality as an instance: numbers, texts, options and pairs. The program's enumerations
-- are Python `StrEnum`s, which are compared by their texts.
use Prim.Native.Nat.{ℕ}
use Prim.Native.String.{String}
use mathlib.Core.Path.{◌≡◌, refl, ap}
use mathlib.Core.Logic.{◌↔◌}
use mathlib.Core.Bool.{Bool, true, false, ◌&&◌}
use mathlib.Core.Option.{Option, none, some}
use native.Mathlib.Omega.{arith}
use text.Mathlib.Text.{◌==◌ as str_eq}
use text.Mathlib.TextEquality.{eq_iff}
use sf_f.Base.Tests.{nat_beq, nat_beq_iff}

pub record Eq {ℓ} (A : Type ℓ) : Type ℓ where
  pub same : A → A → Bool
  pub same_iff : (x y : A) → (same x y ≡ true) ↔ (x ≡ y)

infix 50 ◌==◌
abbrev pub ◌==◌ {ℓ} : {A : Type ℓ} ⦃e : Eq A⦄ → A → A → Bool
◌==◌ ⦃e⦄ = e.same

pub ==_iff {ℓ} : {A : Type ℓ} ⦃e : Eq A⦄ (a b : A) → (a == b ≡ true) ↔ (a ≡ b)
==_iff ⦃e⦄ a b = e.same_iff a b

pub ==_refl {ℓ} : {A : Type ℓ} ⦃e : Eq A⦄ (a : A) → (a == a) ≡ true
==_refl a = (==_iff a a).1 refl

instance abbrev pub nat_eq : Eq ℕ
nat_eq = record { same = nat_beq; same_iff = nat_beq_iff }

instance abbrev pub string_eq : Eq String
string_eq = record { same = str_eq; same_iff = eq_iff }

abbrev option_beq {ℓ} : {A : Type ℓ} ⦃e : Eq A⦄ → Option A → Option A → Bool
option_beq none none = true
option_beq (some a) (some b) = a == b
option_beq _ _ = false

pub option_beq_iff {ℓ} :
    {A : Type ℓ} ⦃e : Eq A⦄ (a b : Option A) → (option_beq a b ≡ true) ↔ (a ≡ b)
option_beq_iff none none = (λ _. refl, λ _. refl)
option_beq_iff none (some b) = (λ h. cc, λ h. cc)
option_beq_iff (some a) none = (λ h. cc, λ h. cc)
option_beq_iff (some a) (some b) = (λ h. cc ((==_iff a b).0 h), λ h. (==_iff a b).1 (ground arith))

instance abbrev pub option_eq {ℓ} : {A : Type ℓ} ⦃e : Eq A⦄ → Eq (Option A)
option_eq = record { same = option_beq; same_iff = option_beq_iff }

and_parts : (a b : Bool) → (a && b) ≡ true → (a ≡ true) × (b ≡ true)
and_parts a b h = ground arith

and_both : (a b : Bool) → a ≡ true → b ≡ true → (a && b) ≡ true
and_both a b h k = ground arith

abbrev pair_beq {ℓ κ} : {A : Type ℓ} {B : Type κ} ⦃e : Eq A⦄ ⦃f : Eq B⦄ → A × B → A × B → Bool
pair_beq (a, b) (c, d) = a == c && b == d

pub pair_beq_iff {ℓ κ} :
    {A : Type ℓ} {B : Type κ} ⦃e : Eq A⦄ ⦃f : Eq B⦄ (x y : A × B) → (pair_beq x y ≡ true) ↔ (x ≡ y)
pair_beq_iff (a, b) (c, d) = (
  λ h. let (p, q) = and_parts (a == c) (b == d) h in λ i. ((==_iff a c).0 p i, (==_iff b d).0 q i),
  λ h. and_both _ _ ((==_iff a c).1 (ap (λ x. x.0) h)) ((==_iff b d).1 (ap (λ x. x.1) h)),
)

instance abbrev pub pair_eq {ℓ κ} : {A : Type ℓ} {B : Type κ} ⦃e : Eq A⦄ ⦃f : Eq B⦄ → Eq (A × B)
pair_eq = record { same = pair_beq; same_iff = pair_beq_iff }

-- A type whose values are named by texts, as a `StrEnum`: `parse` is the class called on a text.
pub record Named (A : Type 0) : Type 0 where
  pub value : A → String
  pub parse : String → Option A
  pub parse-value : (a : A) → parse (value a) ≡ some a

abbrev pub value_beq : {A : Type 0} → Named A → A → A → Bool
value_beq n a b = str_eq (n.value a) (n.value b)

pub value_beq_iff : {A : Type 0} (n : Named A) (a b : A) → (value_beq n a b ≡ true) ↔ (a ≡ b)
value_beq_iff n a b = (
  λ h. cc ((eq_iff (n.value a) (n.value b)).0 h, n.parse-value a, n.parse-value b),
  λ h. (eq_iff (n.value a) (n.value b)).1 (cc),
)
