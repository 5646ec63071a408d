-- ===== src/Base/Sets.antt =====
-- Sets written out as lists, under `contains`: inclusion, growth and size.
use sf_f.Base.Tests.{Bool-cases}
use sf_f.Base.Equality.{==_iff, Eq, ◌==◌, ==_refl}
use sf_f.Base.Lists.{
  filter, or_false, contains, any-append, all, all_mono, all-append, add, length, length-append,
}
use Prim.Native.Nat.{◌+◌, ◌≤◌}
use mathlib.Core.Path.{subst, ◌≡◌, sym, refl, ap, ◌∙◌}
use mathlib.Core.Logic.{inl, inr}
use mathlib.Core.Bool.{Bool, true, false, ◌||◌, ◌&&◌}
use mathlib.Core.List.{List, [], ◌∷◌, ◌++◌}
use native.Mathlib.Omega.{arith}

or_left : (a b : Bool) → a ≡ true → (a || b) ≡ true
or_left a b h = ground arith

or_right : (a b : Bool) → b ≡ true → (a || b) ≡ true
or_right a b h = ground arith

and_false : (a : Bool) → (a && false) ≡ false
and_false a = ground arith

module _ {ℓ} {A : Type ℓ} ⦃e : Eq A⦄ where
  -- Every element of `xs` is one of `ys`.
  abbrev pub is_within : List A → List A → Bool
  is_within ys xs = all (λ x. contains x ys) xs

  pub contains-append_left :
      (k : A) (xs ys : List A) → contains k xs ≡ true → contains k (xs ++ ys) ≡ true
  contains-append_left k xs ys h = any-append (λ x. k == x) xs ys ∙ or_left _ _ h

  pub contains-snoc_self : (k : A) (xs : List A) → contains k (xs ++ k ∷ []) ≡ true
  contains-snoc_self k xs =
      any-append (λ x. k == x) xs (k ∷ []) ∙ or_right _ _ (or_left _ _ (==_refl k))

  pub contains-snoc :
      (k a : A) (xs : List A) → contains k (xs ++ a ∷ []) ≡ (contains k xs || k == a)
  contains-snoc k a xs =
      any-append (λ x. k == x) xs (a ∷ []) ∙ ap (λ b. contains k xs || b) (sym (or_false (k == a)))

  pub is_within-append :
      (ys zs xs : List A) → is_within ys xs ≡ true → is_within (ys ++ zs) xs ≡ true
  is_within-append ys zs xs h =
      all_mono (λ x. contains x ys) (λ x. contains x (ys ++ zs)) xs
        (λ x. contains-append_left x ys zs) h

  pub is_within-add :
      (a : A) (ys xs : List A) → is_within ys xs ≡ true → is_within (ys ++ a ∷ []) (add a xs) ≡ true
  is_within-add a ys xs h = elim (Bool-cases (contains a xs)) [
    | inl there ↦ rw there (is_within-append ys (a ∷ []) xs h)
    | inr new ↦ rw new (
        all-append (λ x. contains x (ys ++ a ∷ [])) xs (a ∷ [])
        ∙ rw (is_within-append ys (a ∷ []) xs h, contains-snoc_self a ys))
  ]

  pub length-add_le : (a : A) (xs : List A) → length (add a xs) ≤ length xs + 1
  length-add_le a xs = elim (Bool-cases (contains a xs)) [
    | inl there ↦ rw there (omega arith)
    | inr new ↦ rw new (omega (arith, length-append xs (a ∷ [])))
  ]

  here :
      (p : A → Bool) (k : A) (xs : List A)
      → contains k (filter p xs) ≡ (contains k xs && p k)
      → contains k (filter p (k ∷ xs)) ≡ (contains k (k ∷ xs) && p k)
  here p k xs h = elim (Bool-cases (p k)) [
    | inl in_ ↦ rw (in_, ==_refl k) refl
    | inr out ↦ rw (out, ==_refl k) (h ∙ rw out (and_false _))
  ]

  pub contains-filter :
      (p : A → Bool) (k : A) (xs : List A) → contains k (filter p xs) ≡ (contains k xs && p k)
  contains-filter p k [] = refl
  contains-filter p k (x ∷ xs) = elim (Bool-cases (k == x)) [
    | inl same ↦
        subst (λ j. contains k (filter p (j ∷ xs)) ≡ (contains k (j ∷ xs) && p k))
          ((==_iff k x).0 same) (here p k xs (contains-filter p k xs))
    | inr other ↦ elim (Bool-cases (p x)) [
      | inl in_ ↦ rw (in_, other) (contains-filter p k xs)
      | inr out ↦ rw (out, other) (contains-filter p k xs)
    ]
  ]
