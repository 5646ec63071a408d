-- ===== src/Plans/Acyclic/Rounds.antt =====
-- What a round of the algorithm keeps.
use mathlib.Core.Path.{subst}
use sf_f.Base.{
  ℕ, suc, ◌+◌, ◌≤◌, ◌<◌, String, ◌≡◌, sym, ◌∙◌, Bool, true, false, not, ◌&&◌, List, [], ◌∷◌, ◌==◌,
  ==_iff, ==_refl, string_eq, nat_eq, contains, count, length, Bool-cases, inl, inr, arith,
  if◌then◌else◌,
}
use sf_f.Plans.Contracts.{Edges, adjacency}
use sf_f.Plans.Contracts.Pushed.{In, In-head, In-tail}
use sf_f.Plans.Contracts.Explored.{IsEdge, IsEdge-adjacency}
use sf_f.Plans.Acyclic.{InDegree, decrement, insert, relax}
use sf_f.Plans.Acyclic.Counting.{one_if, occurrences, pending, occurrences-insert, pending-done}

-- The time at which a unit was done with; `done` is the list of them, the last first.
abbrev pub rank : List String → String → ℕ
rank [] a = 0
rank (x ∷ xs) a = if x == a then suc (length xs) else rank xs a

pub rank-le : (xs : List String) (a : String) → rank xs a ≤ length xs
rank-le [] a = omega arith
rank-le (x ∷ xs) a = ground (arith, rank-le xs a)

-- What is ready is what is free and not done with, each once.
abbrev pub free : List String → List String → InDegree → String → Bool
free ids done degree u = contains u ids && (degree u == 0 && not (contains u done))

-- The degrees while the dependents `left` of the unit at hand are still to be relaxed.
pub record Relaxing (ids : List String) (edges : Edges) (done left : List String)
    (degree : InDegree) (ready : List String) : Type 0 where
  pub degrees : (u : String) → degree u ≡ pending edges done u + occurrences u left
  pub waiting : (u : String) → occurrences u ready ≡ one_if (free ids done degree u)
  pub freed : (u : String) → contains u done ≡ true → degree u ≡ 0

module _ (ids : List String) (edges : Edges) (done : List String) where
  module _ (v : String) (left : List String) (degree : InDegree) (ready : List String)
      (known : In v ids) (r : Relaxing ids edges done (v ∷ left) degree ready) where
    positive : 1 ≤ degree v
    positive = ground (arith, r.degrees v, ==_refl v)

    less-degrees : (u : String) → decrement v degree u ≡ pending edges done u + occurrences u left
    less-degrees u = ground (arith, ==_iff u v, ==_iff v u, r.degrees u)

    less-freed : (u : String) → contains u done ≡ true → decrement v degree u ≡ 0
    less-freed u h = ground (arith, r.freed u h)

    not_done : contains v done ≡ false
    not_done = ground (arith, positive, r.freed v)

    v-waits : occurrences v ready ≡ 0
    v-waits = ground (arith, positive, r.waiting v)

    held-waiting :
        (decrement v degree v == 0) ≡ false
        → (u : String) → occurrences u ready ≡ one_if (free ids done (decrement v degree) u)
    held-waiting held u = elim (Bool-cases (u == v)) [
      | inl same ↦
          subst (λ x. occurrences x ready ≡ one_if (free ids done (decrement v degree) x))
            (sym ((==_iff u v).0 same)) (ground (arith, v-waits, held))
      | inr other ↦ ground (arith, other, r.waiting u)
    ]

    freed-waiting :
        (decrement v degree v == 0) ≡ true
        → (u : String)
        → occurrences u (insert v ready) ≡ one_if (free ids done (decrement v degree) u)
    freed-waiting now u = occurrences-insert u v ready ∙ elim (Bool-cases (u == v)) [
      | inl same ↦
          subst (λ x. occurrences x (v ∷ ready) ≡ one_if (free ids done (decrement v degree) x))
            (sym ((==_iff u v).0 same)) (ground (arith, v-waits, now, known, not_done, ==_refl v))
      | inr other ↦ ground (arith, other, ==_iff u v, ==_iff v u, r.waiting u)
    ]

  pub relax-Relaxing :
      (left : List String) (degree : InDegree) (ready : List String)
      → ((v : String) → In v left → In v ids)
      → Relaxing ids edges done left degree ready
      → Relaxing ids edges done [] (relax left degree ready).0 (relax left degree ready).1
  unfolding relax
  relax-Relaxing [] degree ready known r = r
  relax-Relaxing (v ∷ left) degree ready known r =
      let here = known v (In-head v left) in
      let later : (u : String) → In u left → In u ids = λ u h. known u (In-tail u v left h) in
      elim (Bool-cases (decrement v degree v == 0)) [
        | inl now ↦ rw now (
            relax-Relaxing left (decrement v degree) (insert v ready) later (record {
              degrees = less-degrees v left degree ready here r;
              waiting = freed-waiting v left degree ready here r now;
              freed = less-freed v left degree ready here r;
            }))
        | inr held ↦ rw held (
            relax-Relaxing left (decrement v degree) ready later (record {
              degrees = less-degrees v left degree ready here r;
              waiting = held-waiting v left degree ready here r held;
              freed = less-freed v left degree ready here r;
            }))
      ]

-- Between two rounds.
pub record Between (ids : List String) (edges : Edges) (done : List String) (degree : InDegree)
    (ready : List String) (processed : ℕ) : Type 0 where
  pub relaxed : Relaxing ids edges done [] degree ready
  pub counted : processed ≡ count (λ u. contains u done) ids
  pub ordered :
      (a b : String) → IsEdge edges a b → In b done → In a done × (rank done a < rank done b)

-- Where no edge into `u` is pending, every edge into it starts at a unit that is done with.
pub pending-zero :
    (edges : Edges) (done : List String) (a u : String)
    → pending edges done u ≡ 0
    → IsEdge edges a u
    → In a done
pending-zero [] done a u h e = absurd e
pending-zero (e ∷ edges) done a u h (inl (from, to)) =
    let into : (e.1 == u) ≡ true = (==_iff e.1 u).1 to in
    subst (λ x. In x done) from (ground (arith, into))
pending-zero (e ∷ edges) done a u h (inr later) = pending-zero edges done a u (ground arith) later

count-done :
    (ids done : List String) (node : String)
    → contains node done ≡ false
    → count (λ u. contains u (node ∷ done)) ids
      ≡ count (λ u. contains u done) ids + occurrences node ids
count-done [] done node new = omega arith
count-done (u ∷ ids) done node new = elim (Bool-cases (u == node)) [
  | inl same ↦
      let out : contains u done ≡ false =
        subst (λ x. contains x done ≡ false) (sym ((==_iff u node).0 same)) new in
      rw (same, out) (ground (arith, count-done ids done node new))
  | inr other ↦ ground (arith, count-done ids done node new)
]

module _ (ids : List String) (edges : Edges) (done : List String) (node : String)
    (degree : InDegree) (ready : List String) (processed : ℕ)
    (b : Between ids edges done degree (node ∷ ready) processed) where
  node_free : free ids done degree node ≡ true
  node_free = ground (arith, ==_refl node, b.relaxed.waiting node)

  parts : (x y z : Bool) → (x && (y && not z)) ≡ true → (x ≡ true) × (y ≡ true) × (z ≡ false)
  parts x y z h = (ground arith, ground arith, ground arith)

  node_parts :
      (contains node ids ≡ true) × ((degree node == 0) ≡ true) × (contains node done ≡ false)
  node_parts = parts (contains node ids) (degree node == 0) (contains node done) node_free

  none_left : pending edges done node ≡ 0
  none_left =
      let zero_degree = (==_iff (degree node) 0).0 node_parts.1 in
      omega (arith, zero_degree, b.relaxed.degrees node)

  start-Relaxing : Relaxing ids edges (node ∷ done) (adjacency edges node) degree ready
  start-Relaxing = record {
    degrees = λ u. omega (arith, b.relaxed.degrees u, pending-done edges done node u node_parts.2);
    waiting = λ u. elim (Bool-cases (u == node)) [
      | inl same ↦
          subst (λ x. occurrences x ready ≡ one_if (free ids (node ∷ done) degree x))
            (sym ((==_iff u node).0 same))
            (ground (arith, ==_refl node, node_free, b.relaxed.waiting node))
      | inr other ↦ ground (arith, other, ==_iff u node, ==_iff node u, b.relaxed.waiting u)
    ];
    freed = λ u h. elim (Bool-cases (u == node)) [
      | inl same ↦
          subst (λ x. degree x ≡ 0) (sym ((==_iff u node).0 same))
            ((==_iff (degree node) 0).0 node_parts.1)
      | inr other ↦ b.relaxed.freed u (rw other at h)
    ];
  }

  next-ordered :
      (x y : String)
      → IsEdge edges x y
      → In y (node ∷ done)
      → In x (node ∷ done) × (rank (node ∷ done) x < rank (node ∷ done) y)
  next-ordered x y e h = elim (Bool-cases (y == node)) [
    | inl same ↦
        let at = (==_iff y node).0 same in
        let there = pending-zero edges done x node none_left (subst (IsEdge edges x) at e) in
        subst (λ z. In x (node ∷ done) × (rank (node ∷ done) x < rank (node ∷ done) z)) (sym at)
          (In-tail x node done there, below x there)
    | inr other ↦
        let old : In y done = rw other at h in
        let (there, less) = b.ordered x y e old in
        (In-tail x node done there, kept x y there old less)
  ]
    where
      apart : (z : String) → In z done → (node == z) ≡ false
      apart z h = elim (Bool-cases (node == z)) [
        | inl same ↦
            cc (sym (subst (λ w. In w done) (sym ((==_iff node z).0 same)) h) ∙ node_parts.2)
        | inr other ↦ other
      ]

      below : (z : String) → In z done → rank (node ∷ done) z < rank (node ∷ done) node
      below z h = rw (apart z h, ==_refl node) (ground (arith, rank-le done z))

      kept :
          (z w : String)
          → In z done
          → In w done
          → rank done z < rank done w
          → rank (node ∷ done) z < rank (node ∷ done) w
      kept z w h k less = rw (apart z h, apart w k) less

  pub next-Between :
      ((u : String) → occurrences u ids ≡ one_if (contains u ids))
      → ((x y : String) → IsEdge edges x y → In y ids)
      → Between ids edges
          (node ∷ done)
          (relax (adjacency edges node) degree ready).0
          (relax (adjacency edges node) degree ready).1
          (processed + 1)
  next-Between unique known = record {
    relaxed =
        relax-Relaxing ids edges (node ∷ done) (adjacency edges node) degree ready
          (λ v h. known node v (IsEdge-adjacency edges node v h)) start-Relaxing;
    counted =
        ground (arith, b.counted, count-done ids done node node_parts.2, unique node, node_parts.0);
    ordered = next-ordered;
  }
