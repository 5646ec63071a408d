-- ===== src/Base/Lists.antt =====
-- Lists measured by the native numbers, and the searches that the program's SQL and Python make.
use Prim.Native.Nat.{ℕ, ◌≤◌, suc, zero, ◌+◌}
use mathlib.Core.Path.{ap, ◌∙◌, sym, ◌≡◌, refl, subst}
use mathlib.Core.Logic.{◌⊎◌, inl, inr}
use mathlib.Core.Bool.{Bool, true, false, ◌&&◌, ◌||◌}
use mathlib.Core.Option
use mathlib.Core.Option.{Option, none, some}
use mathlib.Core.List.{List, [], ◌∷◌, ◌++◌}
use native.Mathlib.Omega.{arith}
use sf_f.Base.Tests.{if◌then◌else◌, Bool-cases}
use sf_f.Base.Equality.{Eq, ◌==◌, ==_iff}

module _ {ℓ} {A : Type ℓ} where
  abbrev pub length : List A → ℕ
  length [] = 0
  length (x ∷ xs) = suc (length xs)

  abbrev pub take : ℕ → List A → List A
  take zero xs = []
  take (suc n) [] = []
  take (suc n) (x ∷ xs) = x ∷ take n xs

  abbrev pub All {κ} : (A → Type κ) → List A → Type κ
  All P [] = Unit
  All P (x ∷ xs) = P x × All P xs

  -- There is an element, at a place in the list, with the property.
  abbrev pub Any : (A → Type 0) → List A → Type 0
  Any P [] = ⊥
  Any P (x ∷ xs) = P x ⊎ Any P xs

  abbrev pub any : (A → Bool) → List A → Bool
  any p [] = false
  any p (x ∷ xs) = p x || any p xs

  abbrev pub all : (A → Bool) → List A → Bool
  all p [] = true
  all p (x ∷ xs) = p x && all p xs

  abbrev pub count : (A → Bool) → List A → ℕ
  count p [] = 0
  count p (x ∷ xs) = let rest = count p xs in if p x then suc rest else rest

  abbrev pub filter : (A → Bool) → List A → List A
  filter p [] = []
  filter p (x ∷ xs) = let rest = filter p xs in if p x then x ∷ rest else rest

  abbrev pub find : (A → Bool) → List A → Option A
  find p [] = none
  find p (x ∷ xs) = let rest = find p xs in if p x then some x else rest

  -- UPDATE … WHERE p.
  abbrev pub update_where : (A → Bool) → (A → A) → List A → List A
  update_where p f [] = []
  update_where p f (x ∷ xs) = (if p x then f x else x) ∷ update_where p f xs

  pub length-append : (xs ys : List A) → length (xs ++ ys) ≡ length xs + length ys
  length-append [] ys = omega arith
  length-append (x ∷ xs) ys = omega (arith, length-append xs ys)

  pub find-append_none :
      (p : A → Bool) (xs ys : List A) → find p xs ≡ none → find p (xs ++ ys) ≡ find p ys
  find-append_none p [] ys h = refl
  find-append_none p (x ∷ xs) ys h = ground (arith, find-append_none p xs ys)

  pub find-append_some :
      (p : A → Bool) (xs ys : List A) {a : A} → find p xs ≡ some a → find p (xs ++ ys) ≡ some a
  find-append_some p [] ys h = cc
  find-append_some p (x ∷ xs) ys {a} h = ground (arith, find-append_some p xs ys {a = a})

  pub any-find : (p : A → Bool) (xs : List A) → any p xs ≡ false → find p xs ≡ none
  any-find p [] h = refl
  any-find p (x ∷ xs) h = ground (arith, any-find p xs)

  pub find-any : (p : A → Bool) (xs : List A) {a : A} → find p xs ≡ some a → any p xs ≡ true
  find-any p [] h = cc
  find-any p (x ∷ xs) {a} h = ground (arith, find-any p xs {a = a})

  -- An UPDATE whose rows still fit its predicate is seen by the search for them.
  pub find-update_where_same :
      (p : A → Bool) (f : A → A) (xs : List A)
      → ((x : A) → p (f x) ≡ p x)
      → find p (update_where p f xs) ≡ Option.map f (find p xs)
  find-update_where_same p f [] h = refl
  find-update_where_same p f (x ∷ xs) h = ground (arith, h x, find-update_where_same p f xs h)

  pub count-append : (p : A → Bool) (xs ys : List A) → count p (xs ++ ys) ≡ count p xs + count p ys
  count-append p [] ys = omega arith
  count-append p (x ∷ xs) ys = ground (arith, count-append p xs ys)

  pub any-append : (p : A → Bool) (xs ys : List A) → any p (xs ++ ys) ≡ (any p xs || any p ys)
  any-append p [] ys = refl
  any-append p (x ∷ xs) ys = ground (arith, any-append p xs ys)

  pub filter-append :
      (p : A → Bool) (xs ys : List A) → filter p (xs ++ ys) ≡ filter p xs ++ filter p ys
  filter-append p [] ys = refl
  filter-append p (x ∷ xs) ys = ground (arith, filter-append p xs ys)

  pub All-append {κ} : (P : A → Type κ) (xs ys : List A) → All P xs → All P ys → All P (xs ++ ys)
  All-append P [] ys h k = k
  All-append P (x ∷ xs) ys h k = (h.0, All-append P xs ys h.1 k)

  -- A row that the predicate of an UPDATE misses is found as before.
  pub find-update_where_ne :
      (p q : A → Bool) (f : A → A) (xs : List A)
      → ((x : A) → p x ≡ true → (q x ≡ false) × (q (f x) ≡ false))
      → find q (update_where p f xs) ≡ find q xs
  find-update_where_ne p q f [] h = refl
  find-update_where_ne p q f (x ∷ xs) h = elim (Bool-cases (p x)) [
    | inl hit ↦ rw (hit, (h x hit).0, (h x hit).1) (find-update_where_ne p q f xs h)
    | inr miss ↦ rw (miss, find-update_where_ne p q f xs h)
  ]

module _ {ℓ} {A : Type ℓ} ⦃e : Eq A⦄ where
  -- Python's `x in xs`.
  abbrev pub contains : A → List A → Bool
  contains a xs = any (λ x. a == x) xs

  -- `d.get(k)` on a mapping written out as its items.
  abbrev pub lookup {κ} : {B : Type κ} → A → List (A × B) → Option B
  lookup a [] = none
  lookup a ((k, v) ∷ m) = let rest = lookup a m in if k == a then some v else rest

  -- `d[k] = v`: a key keeps its place, a new key comes last.
  abbrev pub assign {κ} : {B : Type κ} → A → B → List (A × B) → List (A × B)
  assign a b [] = (a, b) ∷ []
  assign a b ((k, v) ∷ m) = let rest = assign a b m in if k == a then (k, b) ∷ m else (k, v) ∷ rest

  pub lookup-assign {κ} :
      {B : Type κ} (a k : A) (b : B) (m : List (A × B))
      → lookup k (assign a b m) ≡ (if a == k then some b else lookup k m)
  lookup-assign a k b [] = refl
  lookup-assign a k b ((j, v) ∷ m) =
      ground (arith, ==_iff a k, ==_iff j a, ==_iff j k, lookup-assign a k b m)

  -- What holds of every value of a mapping holds of the one that is found.
  pub lookup-All {κ μ} :
      {B : Type κ} (P : B → Type μ) (k : A) (m : List (A × B)) {b : B}
      → All (λ (entry : A × B). P entry.1) m
      → lookup k m ≡ some b
      → P b
  lookup-All P k [] hs h = cc
  lookup-All P k ((j, v) ∷ m) {b} hs h = elim (Bool-cases (j == k)) [
    | inl hit ↦ (let e : v ≡ b = cc (hit, h) in subst P e hs.0)
    | inr miss ↦ lookup-All P k m hs.1 (rw miss at h)
  ]

pub or_false : (b : Bool) → b ≡ (b || false)
or_false true = refl
or_false false = refl

module _ {ℓ κ} {A : Type ℓ} {K : Type κ} ⦃e : Eq K⦄ (key : A → K) where
  abbrev pub is_at : K → A → Bool
  is_at k x = key x == k

  -- UPDATE … WHERE key = k, of other columns, and then SELECT … WHERE key = i.
  pub find-update_where :
      (f : A → A) (k i : K) (xs : List A)
      → ((x : A) → key (f x) ≡ key x)
      → find (is_at i) (update_where (is_at k) f xs)
        ≡ (if k == i then Option.map f (find (is_at i) xs) else find (is_at i) xs)
  find-update_where f k i [] h = ground arith
  find-update_where f k i (x ∷ xs) h = ground (
    arith,
    h x,
    ==_iff k i,
    ==_iff (key x) k,
    ==_iff (key x) i,
    ==_iff (key (f x)) i,
    find-update_where f k i xs h,
  )

module _ {ℓ} {A : Type ℓ} ⦃e : Eq A⦄ where
  -- Python's `s.add(a)` on a set written out as its elements.
  abbrev pub add : A → List A → List A
  add a xs = if contains a xs then xs else xs ++ a ∷ []

  contains_absorb :
      (i a : A) (xs : List A) → contains a xs ≡ true → contains i xs ≡ (contains i xs || i == a)
  contains_absorb i a xs there = elim (Bool-cases (i == a)) [
    | inl same ↦
        let here : contains i xs ≡ true =
          subst (λ x. contains x xs ≡ true) (sym ((==_iff i a).0 same)) there in
        rw here
    | inr other ↦ rw other (or_false (contains i xs))
  ]

  pub contains-add : (i a : A) (xs : List A) → contains i (add a xs) ≡ (contains i xs || i == a)
  contains-add i a xs = elim (Bool-cases (contains a xs)) [
    | inl there ↦ rw there (contains_absorb i a xs there)
    | inr new ↦ rw new (
        any-append (λ x. i == x) xs (a ∷ [])
        ∙ ap (λ b. contains i xs || b) (sym (or_false (i == a))))
  ]

module _ {ℓ} {A : Type ℓ} where
  pub filter-all : (p : A → Bool) (xs : List A) → all p xs ≡ true → filter p xs ≡ xs
  filter-all p [] h = refl
  filter-all p (x ∷ xs) h = ground (arith, filter-all p xs)

  pub all-filter : (p : A → Bool) (xs : List A) → all p (filter p xs) ≡ true
  all-filter p [] = refl
  all-filter p (x ∷ xs) = ground (arith, all-filter p xs)

  pub all_mono :
      (p q : A → Bool) (xs : List A)
      → ((x : A) → p x ≡ true → q x ≡ true)
      → all p xs ≡ true
      → all q xs ≡ true
  all_mono p q [] h a = refl
  all_mono p q (x ∷ xs) h a = ground (arith, h x, all_mono p q xs h)

  pub all-append : (p : A → Bool) (xs ys : List A) → all p (xs ++ ys) ≡ (all p xs && all p ys)
  all-append p [] ys = refl
  all-append p (x ∷ xs) ys = ground (arith, all-append p xs ys)

  pub all-filter_mono :
      (p q : A → Bool) (xs : List A) → all p xs ≡ true → all p (filter q xs) ≡ true
  all-filter_mono p q [] h = refl
  all-filter_mono p q (x ∷ xs) h = ground (arith, all-filter_mono p q xs)

  pub length-filter-le : (p : A → Bool) (xs : List A) → length (filter p xs) ≤ length xs
  length-filter-le p [] = omega arith
  length-filter-le p (x ∷ xs) = ground (arith, length-filter-le p xs)
