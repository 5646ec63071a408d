-- ===== src/Plans/Contracts/Pushed.antt =====
-- The inner loop of the walk over the plan.
use mathlib.Core.Path.{subst}
use sf_f.Base.{
  String, ◌≡◌, sym, true, ◌⊎◌, inl, inr, List, [], ◌∷◌, ◌==◌, ==_iff, ==_refl, string_eq, contains,
  Bool-cases, arith,
}
use sf_f.Plans.Contracts.{push}

-- Membership in a list that stands for a set.
abbrev pub In : String → List String → Type 0
In x xs = contains x xs ≡ true

pub In-head : (x : String) (xs : List String) → In x (x ∷ xs)
In-head x xs = ground (arith, ==_refl x)

pub In-tail : (x y : String) (xs : List String) → In x xs → In x (y ∷ xs)
In-tail x y xs h = ground arith

pub In-cases : (x y : String) (xs : List String) → In x (y ∷ xs) → (x ≡ y) ⊎ In x xs
In-cases x y xs h = elim (Bool-cases (x == y)) [
  | inl same ↦ inl ((==_iff x y).0 same)
  | inr other ↦ inr (rw other at h)
]

-- What was in stays in.
pub push_mono :
    (nexts reachable frontier : List String) (x : String)
    → (In x reachable → In x (push nexts reachable frontier).0)
      × (In x frontier → In x (push nexts reachable frontier).1)
unfolding push
push_mono [] reachable frontier x = (λ h. h, λ h. h)
push_mono (n ∷ nexts) reachable frontier x = elim (Bool-cases (contains n reachable)) [
  | inl there ↦ rw there (push_mono nexts reachable frontier x)
  | inr new ↦
      let (r, f) = push_mono nexts (n ∷ reachable) (n ∷ frontier) x in
      rw new (λ h. r (In-tail x n reachable h), λ h. f (In-tail x n frontier h))
]

-- Every node that is pushed gets in.
pub push-all :
    (nexts reachable frontier : List String) (x : String)
    → In x nexts
    → In x (push nexts reachable frontier).0
unfolding push
push-all [] reachable frontier x h = cc
push-all (n ∷ nexts) reachable frontier x h = elim (Bool-cases (contains n reachable)) [
  | inl there ↦ rw there (elim (In-cases x n nexts h) [
    | inl same ↦
        (push_mono nexts reachable frontier x).0 (subst (λ y. In y reachable) (sym same) there)
    | inr later ↦ push-all nexts reachable frontier x later
  ])
  | inr new ↦ rw new (elim (In-cases x n nexts h) [
    | inl same ↦
        (push_mono nexts (n ∷ reachable) (n ∷ frontier) x).0
          (subst (λ y. In y (n ∷ reachable)) (sym same) (In-head n reachable))
    | inr later ↦ push-all nexts (n ∷ reachable) (n ∷ frontier) x later
  ])
]

-- Nothing else gets in, and what is new is in the frontier.
pub push-only :
    (nexts reachable frontier : List String) (x : String)
    → (In x (push nexts reachable frontier).0
        → In x reachable ⊎ (In x nexts × In x (push nexts reachable frontier).1))
      × (In x (push nexts reachable frontier).1 → In x frontier ⊎ In x nexts)
unfolding push
push-only [] reachable frontier x = (λ h. inl h, λ h. inl h)
push-only (n ∷ nexts) reachable frontier x = elim (Bool-cases (contains n reachable)) [
  | inl there ↦
      let (r, f) = push-only nexts reachable frontier x in
      rw there (
        λ h. elim (r h) [ inl old ↦ inl old | inr (new, here) ↦ inr (In-tail x n nexts new, here) ],
        λ h. elim (f h) [ inl old ↦ inl old | inr new ↦ inr (In-tail x n nexts new) ],
      )
  | inr new ↦
      let (r, f) = push-only nexts (n ∷ reachable) (n ∷ frontier) x in
      let m = push_mono nexts (n ∷ reachable) (n ∷ frontier) x in
      rw new (
        λ h. elim (r h) [
          | inl old ↦ elim (In-cases x n reachable old) [
            | inl same ↦ inr (
              subst (λ y. In y (n ∷ nexts)) (sym same) (In-head n nexts),
              m.1 (subst (λ y. In y (n ∷ frontier)) (sym same) (In-head n frontier)),
            )
            | inr older ↦ inl older
          ]
          | inr (later, here) ↦ inr (In-tail x n nexts later, here)
        ],
        λ h. elim (f h) [
          | inl old ↦ elim (In-cases x n frontier old) [
            | inl same ↦ inr (subst (λ y. In y (n ∷ nexts)) (sym same) (In-head n nexts))
            | inr older ↦ inl older
          ]
          | inr later ↦ inr (In-tail x n nexts later)
        ],
      )
]
