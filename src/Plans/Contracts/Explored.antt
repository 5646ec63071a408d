-- ===== src/Plans/Contracts/Explored.antt =====
-- What the walk over the plan finds: it ends, and finds exactly the stages behind a contract.
use mathlib.Core.Path.{subst}
use sf_f.Base.{
  ℕ, zero, suc, ◌+◌, ◌≤◌, ◌<◌, String, ◌≡◌, refl, sym, true, false, ◌⊎◌, inl, inr, Option, some,
  List, [], ◌∷◌, ◌==◌, ==_iff, string_eq, contains, length, Any, Bool-cases, arith,
}
use sf_f.Base.Raises.{Result, ok}
use sf_f.Plans.Contracts.{Edges, push, explore, adjacency, missing}
use sf_f.Plans.Contracts.Pushed.{In, In-head, In-tail, In-cases, push_mono, push-all, push-only}

abbrev pub IsEdge : Edges → String → String → Type 0
IsEdge edges a b = Any (λ (e : String × String). (e.0 ≡ a) × (e.1 ≡ b)) edges

pub IsEdge-adjacency : (edges : Edges) (a b : String) → In b (adjacency edges a) → IsEdge edges a b
IsEdge-adjacency [] a b h = cc
IsEdge-adjacency (e ∷ edges) a b h = elim (Bool-cases (e.0 == a)) [
  | inl from ↦
      let h' : In b (e.1 ∷ adjacency edges a) = rw from at h in
      elim (In-cases b e.1 (adjacency edges a) h') [
        | inl to ↦ inl ((==_iff e.0 a).0 from, sym to)
        | inr later ↦ inr (IsEdge-adjacency edges a b later)
      ]
  | inr other ↦ inr (IsEdge-adjacency edges a b (rw other at h))
]

adjacency-IsEdge : (edges : Edges) (a b : String) → IsEdge edges a b → In b (adjacency edges a)
adjacency-IsEdge [] a b h = absurd h
adjacency-IsEdge (e ∷ edges) a b (inl (from, to)) =
    rw ((==_iff e.0 a).1 from) (subst (λ x. In b (x ∷ adjacency edges a)) (sym to) (In-head b _))
adjacency-IsEdge (e ∷ edges) a b (inr later) = elim (Bool-cases (e.0 == a)) [
  | inl from ↦ rw from (In-tail b e.1 _ (adjacency-IsEdge edges a b later))
  | inr other ↦ rw other (adjacency-IsEdge edges a b later)
]

missing_mono :
    (edges : Edges) (n : String) (reachable : List String)
    → missing edges (n ∷ reachable) ≤ missing edges reachable
missing_mono [] n reachable = omega arith
missing_mono (e ∷ edges) n reachable = ground (arith, missing_mono edges n reachable)

missing-less :
    (edges : Edges) (a n : String) (reachable : List String)
    → IsEdge edges a n
    → contains n reachable ≡ false
    → missing edges (n ∷ reachable) < missing edges reachable
missing-less [] a n reachable h new = absurd h
missing-less (e ∷ edges) a n reachable (inl (from, to)) new =
    let there : (e.1 == n) ≡ true = (==_iff e.1 n).1 to in
    let out : contains e.1 reachable ≡ false =
      subst (λ x. contains x reachable ≡ false) (sym to) new in
    rw (there, out) (ground (arith, missing_mono edges n reachable))
missing-less (e ∷ edges) a n reachable (inr later) new =
    ground (arith, missing-less edges a n reachable later new)

-- A node that is pushed costs an edge whose target was not yet reachable.
push-measure :
    (edges : Edges) (a : String) (nexts reachable frontier : List String)
    → ((x : String) → In x nexts → IsEdge edges a x)
    → length (push nexts reachable frontier).1 + missing edges (push nexts reachable frontier).0
      ≤ length frontier + missing edges reachable
unfolding push
push-measure edges a [] reachable frontier targets = omega arith
push-measure edges a (n ∷ nexts) reachable frontier targets =
    elim (Bool-cases (contains n reachable)) [
      | inl there ↦
          rw there
            (push-measure edges a nexts reachable frontier (λ x h. targets x (In-tail x n nexts h)))
      | inr new ↦
          let rest =
            push-measure edges a nexts (n ∷ reachable) (n ∷ frontier)
              (λ x h. targets x (In-tail x n nexts h)) in
          let less = missing-less edges a n reachable (targets n (In-head n nexts)) new in
          rw new (omega (arith, rest, less))
    ]

-- A stage that comes after a contract stage, by a path of the plan's edges.
pub data Reaches (edges : Edges) (cs : List String) : String → Type 0 where
  hop : (a : String) {b : String} → In a cs → IsEdge edges a b → Reaches edges cs b
  step : (a : String) {b : String} → Reaches edges cs a → IsEdge edges a b → Reaches edges cs b

-- The result of the walk.
abbrev pub Finds : Edges → List String → Option (Result (List String)) → Type 0
Finds edges cs o =
    (reachable : List String) × (o ≡ some (ok reachable))
    × ((b : String) → In b reachable → Reaches edges cs b)
    × ((b : String) → Reaches edges cs b → In b reachable)

module _ (edges : Edges) (ids cs : List String) where
  -- What was found is behind a contract, and a node that is done with has its successors found.
  abbrev Sound : List String → List String → Type 0
  Sound reachable frontier =
      ((b : String) → In b reachable → Reaches edges cs b)
      × ((b : String) → In b frontier → In b cs ⊎ Reaches edges cs b)

  abbrev Closed : List String → List String → Type 0
  Closed reachable frontier =
      (a : String)
      → In a cs ⊎ In a reachable
      → In a frontier ⊎ ((b : String) → In b (adjacency edges a) → In b reachable)

  from_node : (a b : String) → In a cs ⊎ Reaches edges cs a → IsEdge edges a b → Reaches edges cs b
  from_node a b (inl c) e = hop a c e
  from_node a b (inr r) e = step a r e

  module _ (node : String) (frontier reachable : List String) where
    abbrev nexts : List String
    nexts = adjacency edges node

    next-Sound :
        Sound reachable (node ∷ frontier)
        → Sound (push nexts reachable frontier).0 (push nexts reachable frontier).1
    next-Sound s =
        let found : (b : String) → In b nexts → Reaches edges cs b = λ b h.
          from_node node b (s.1 node (In-head node frontier)) (IsEdge-adjacency edges node b h) in
        (
          λ b h. elim ((push-only nexts reachable frontier b).0 h) [
            | inl old ↦ s.0 b old
            | inr (new, _) ↦ found b new
          ],
          λ b h. elim ((push-only nexts reachable frontier b).1 h) [
            | inl old ↦ s.1 b (In-tail b node frontier old)
            | inr new ↦ inr (found b new)
          ],
        )

    next-Closed :
        Closed reachable (node ∷ frontier)
        → Closed (push nexts reachable frontier).0 (push nexts reachable frontier).1
    next-Closed c a h = elim (was h) [ inl old ↦ carry (c a old) | inr here ↦ inl here ]
      where
        was :
            In a cs ⊎ In a (push nexts reachable frontier).0
            → (In a cs ⊎ In a reachable) ⊎ In a (push nexts reachable frontier).1
        was (inl contract) = inl (inl contract)
        was (inr found) = elim ((push-only nexts reachable frontier a).0 found) [
          | inl old ↦ inl (inr old)
          | inr (new, here) ↦ inr here
        ]

        carry :
            In a (node ∷ frontier) ⊎ ((b : String) → In b (adjacency edges a) → In b reachable)
            → In a (push nexts reachable frontier).1
              ⊎ ((b : String) → In b (adjacency edges a) → In b (push nexts reachable frontier).0)
        carry (inl waiting) = elim (In-cases a node frontier waiting) [
          | inl now ↦ inr (λ b e.
              push-all nexts reachable frontier b (subst (λ x. In b (adjacency edges x)) now e))
          | inr later ↦ inl ((push_mono nexts reachable frontier a).1 later)
        ]
        carry (inr done) = inr (λ b e. (push_mono nexts reachable frontier b).0 (done b e))

  no_member : {A : Type 0} (a : String) → In a [] → A
  no_member a h = cc

  Closed-finds :
      (reachable : List String)
      → Closed reachable []
      → (b : String) → Reaches edges cs b
      → In b reachable
  Closed-finds reachable c b (hop a contract e) = elim (c a (inl contract)) [
    | inl waiting ↦ no_member a waiting
    | inr done ↦ done b (adjacency-IsEdge edges a b e)
  ]
  Closed-finds reachable c b (step a r e) = elim (c a (inr (Closed-finds reachable c a r))) [
    | inl waiting ↦ no_member a waiting
    | inr done ↦ done b (adjacency-IsEdge edges a b e)
  ]

  pub explore-Finds :
      (fuel : ℕ) (frontier reachable : List String)
      → ((a b : String) → IsEdge edges a b → In b ids)
      → ((a : String) → In a frontier → In a ids)
      → length frontier + missing edges reachable < fuel
      → Sound reachable frontier
      → Closed reachable frontier
      → Finds edges cs (explore fuel edges ids frontier reachable)
  unfolding explore
  explore-Finds zero frontier reachable known in_ids enough s c = elim enough [ ]
  explore-Finds (suc fuel) [] reachable known in_ids enough s c =
      (reachable, refl, s.0, Closed-finds reachable c)
  explore-Finds (suc fuel) (node ∷ frontier) reachable known in_ids enough s c =
      let next = adjacency edges node in
      let measure =
        push-measure edges node next reachable frontier (λ x h. IsEdge-adjacency edges node x h) in
      rw (in_ids node (In-head node frontier)) (
        explore-Finds fuel (push next reachable frontier).1 (push next reachable frontier).0 known
          (λ a h. elim ((push-only next reachable frontier a).1 h) [
            | inl old ↦ in_ids a (In-tail a node frontier old)
            | inr new ↦ known node a (IsEdge-adjacency edges node a new)
          ])
          (omega (arith, measure, enough)) (next-Sound node frontier reachable s)
          (next-Closed node frontier reachable c))
