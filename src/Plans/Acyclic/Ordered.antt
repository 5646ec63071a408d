-- ===== src/Plans/Acyclic/Ordered.antt =====
-- Which graphs the algorithm accepts.
use mathlib.Core.Path.{subst}
use sf_f.Base.{
  ℕ, zero, suc, ◌+◌, ◌≤◌, ◌<◌, String, ◌≡◌, refl, sym, ap, ◌∙◌, Bool, true, ◌&&◌, ◌⊎◌, inl, inr,
  Option, some, List, [], ◌∷◌, ◌==◌, ==_iff, string_eq, nat_eq, contains, count, length, Bool-cases,
  arith, filter,
}
use sf_f.Base.Raises.{Result, ok, err, artifact_contract_error, key_error}
use sf_f.Plans.{PhasePlan}
use sf_f.Plans.Contracts.{Edges, adjacency, ids_of}
use sf_f.Plans.Contracts.Pushed.{In, In-head, In-tail, In-cases}
use sf_f.Plans.Contracts.Explored.{IsEdge}
use sf_f.Plans.Acyclic.{
  InDegree, initially_ready, start_degree, relax, kahn, verdict, toposort, assert_acyclic,
  MacroPlan, phase_ids, is_own, ends_known, keys_of, assert_macro_acyclic,
}
use sf_f.Plans.Acyclic.Counting.{one_if, occurrences, pending, indegrees-pending, occurrences-ready}
use sf_f.Plans.Acyclic.Keys.{contains-keys_of, occurrences-keys_of}
use sf_f.Plans.Acyclic.Rounds.{Between, rank, next-Between}

-- No unit is listed twice.
abbrev pub Unique : List String → Type 0
Unique ids = (u : String) → occurrences u ids ≡ one_if (contains u ids)

abbrev pub Joins : List String → Edges → Type 0
Joins ids edges = (a b : String) → IsEdge edges a b → In a ids × In b ids

-- The units can be numbered so that every edge goes up.
abbrev pub CanBeOrdered : Edges → Type 0
CanBeOrdered edges =
    (number : String → ℕ) × ((a b : String) → IsEdge edges a b → number a < number b)

-- The answer of the check: accepted for a graph that can be ordered, refused for one that cannot.
abbrev pub Decides : Edges → Option (Result (Unit {0})) → Type 0
Decides edges answer =
    ((answer ≡ some (ok tt)) × CanBeOrdered edges)
    ⊎ ((answer ≡ some (err artifact_contract_error)) × (¬ CanBeOrdered edges))

count-le : (p : String → Bool) (xs : List String) → count p xs ≤ length xs
count-le p [] = omega arith
count-le p (x ∷ xs) = ground (arith, count-le p xs)

count-full :
    (p : String → Bool) (xs : List String) (x : String)
    → count p xs ≡ length xs
    → In x xs
    → p x ≡ true
count-full p [] x h there = cc
count-full p (y ∷ xs) x h there = elim (In-cases x y xs there) [
  | inl same ↦ subst (λ z. p z ≡ true) (sym same) (ground (arith, count-le p xs))
  | inr later ↦ count-full p xs x (ground (arith, count-le p xs)) later
]

full-count :
    (p : String → Bool) (xs : List String)
    → ((x : String) → In x xs → p x ≡ true)
    → count p xs ≡ length xs
full-count p [] h = refl
full-count p (x ∷ xs) h =
    let here = h x (In-head x xs) in
    let rest = full-count p xs (λ y k. h y (In-tail y x xs k)) in ground (arith, here, rest)

-- The state in which the loop ends.
abbrev Ends : List String → Edges → Option ℕ → Type 0
Ends ids edges o =
    (n : ℕ) × (o ≡ some n)
    × (done : List String) × (degree : InDegree) × Between ids edges done degree [] n

module _ (ids : List String) (edges : Edges) (unique : Unique ids) (known : Joins ids edges) where
  kahn-Ends :
      (fuel : ℕ) (done : List String) (degree : InDegree) (ready : List String) (processed : ℕ)
      → length ids < processed + fuel
      → Between ids edges done degree ready processed
      → Ends ids edges (kahn fuel edges degree ready processed)
  unfolding kahn
  kahn-Ends zero done degree ready processed enough b =
      absurd (omega (arith, enough, b.counted, count-le (λ u. contains u done) ids))
  kahn-Ends (suc fuel) done degree [] processed enough b = (processed, refl, done, degree, b)
  kahn-Ends (suc fuel) done degree (node ∷ ready) processed enough b =
      kahn-Ends fuel (node ∷ done) (relax (adjacency edges node) degree ready).0
        (relax (adjacency edges node) degree ready).1 (processed + 1) (omega (arith, enough))
        (next-Between ids edges done node degree ready processed b unique
          (λ x y e. (known x y e).1))

  nothing_done : (xs : List String) → count (λ u. contains u []) xs ≡ 0
  nothing_done [] = refl
  nothing_done (x ∷ xs) = nothing_done xs

  start-Between :
      Between ids edges [] (start_degree edges) (initially_ready (start_degree edges) ids) 0
  start-Between = record {
    relaxed = record {
      degrees = λ u. ground (arith, indegrees-pending edges (λ _. 0) u);
      waiting = λ u. ground (arith, occurrences-ready (start_degree edges) u ids, unique u);
      freed = λ u h. cc;
    };
    counted = sym (nothing_done ids);
    ordered = λ a b e h. cc;
  }

  module _ (done : List String) (degree : InDegree) (n : ℕ)
      (b : Between ids edges done degree [] n) where
    accepted : n ≡ length ids → CanBeOrdered edges
    accepted full = (
      rank done,
      λ x y e.
          (b.ordered x y e
            (count-full (λ u. contains u done) ids y (sym b.counted ∙ full) (known x y e).1)).1,
    )

    -- A unit with no pending edge is done with, since nothing is ready any more.
    settled : (u : String) → In u ids → pending edges done u ≡ 0 → In u done
    settled u there none_left =
        let zero_degree : degree u ≡ 0 = omega (arith, none_left, b.relaxed.degrees u) in
        ground (arith, there, ==_iff (degree u) 0, b.relaxed.waiting u)

    module _ (number : String → ℕ)
        (up : (x y : String) → IsEdge edges x y → number x < number y) where
      nothing_pending :
          (es : Edges) (u : String)
          → ((x : String) → IsEdge es x u → In x done)
          → pending es done u ≡ 0
      nothing_pending [] u h = refl
      nothing_pending (e ∷ es) u h = elim (Bool-cases (e.1 == u)) [
        | inl into ↦
            let from = h e.0 (inl (refl, (==_iff e.1 u).0 into)) in
            rw (into, from) (nothing_pending es u (λ x k. h x (inr k)))
        | inr other ↦ rw other (nothing_pending es u (λ x k. h x (inr k)))
      ]

      all_done : (bound : ℕ) (u : String) → In u ids → number u < bound → In u done
      all_done zero u there h = elim h [ ]
      all_done (suc bound) u there h = settled u there (
          nothing_pending edges u (λ x e.
            let less = up x u e in all_done bound x (known x u e).0 (omega (arith, less, h))))

      full : n ≡ length ids
      full =
          b.counted
          ∙ full-count (λ u. contains u done) ids
              (λ u there. all_done (suc (number u)) u there (omega arith))

  toposort-Decides : Decides edges (toposort ids edges)
  unfolding toposort
  toposort-Decides =
      let (n, ended, done, degree, b) =
        kahn-Ends (suc (length ids)) [] (start_degree edges)
          (initially_ready (start_degree edges) ids) 0 (omega arith) start-Between in
      subst (λ o. Decides edges (verdict (length ids) o)) (sym ended)
        (elim (Bool-cases (n == length ids)) [
          | inl all ↦ rw all (inl (refl, accepted done degree n b ((==_iff n (length ids)).0 all)))
          | inr some_left ↦ rw some_left (
              inr (
                refl,
                λ (number, up). absurd (
                    cc
                      (sym some_left ∙ (==_iff n (length ids)).1 (full done degree n b number up))),
              ))
        ])

-- A graph over the keys of a dict of units.
keys-Decides :
    (ids : List String) (edges : Edges)
    → Joins ids edges
    → Decides edges (toposort (keys_of ids) edges)
keys-Decides ids edges known =
    toposort-Decides (keys_of ids) edges
      (λ u. occurrences-keys_of u ids ∙ ap one_if (sym (contains-keys_of u ids)))
      (λ a b edge.
        let (from, to) = known a b edge in
        (contains-keys_of a ids ∙ from, contains-keys_of b ids ∙ to))

both : (x y : Bool) → (x && y) ≡ true → (x ≡ true) × (y ≡ true)
both x y k = ground arith

ends_known-Joins :
    (ids : List String) (edges : Edges) → ends_known ids edges ≡ true → Joins ids edges
ends_known-Joins ids [] h a b edge = absurd edge
ends_known-Joins ids (e ∷ edges) h a b edge =
    let (own, rest) = both (is_own ids e) (ends_known ids edges) h in
    elim edge [
      | inl (from, to) ↦
          let (start, end) = both (contains e.0 ids) (contains e.1 ids) own in
          (subst (λ x. In x ids) from start, subst (λ x. In x ids) to end)
      | inr later ↦ ends_known-Joins ids edges rest a b later
    ]

Joins-ends_known :
    (ids : List String) (edges : Edges) → Joins ids edges → ends_known ids edges ≡ true
Joins-ends_known ids [] known = refl
Joins-ends_known ids (e ∷ edges) known =
    let (start, end) = known e.0 e.1 (inl (refl, refl)) in
    let rest = Joins-ends_known ids edges (λ a b edge. known a b (inr edge)) in
    rw (start, end, rest) refl

pub declared-Decides :
    (plan : PhasePlan)
    → Joins (ids_of plan) plan.dag_edges
    → Decides plan.dag_edges (assert_acyclic plan)
unfolding assert_acyclic
declared-Decides plan known =
    rw (Joins-ends_known (ids_of plan) plan.dag_edges known)
      (keys-Decides (ids_of plan) plan.dag_edges known)

-- The check on a plan's graph ends within its fuel and decides what it is for, for any plan. When every
-- edge joins stages of the plan, it accepts exactly when the stages can be numbered so that every
-- edge goes up, and refuses the plan otherwise: a plan with a cycle is never ingested. When an edge
-- has an end that is no stage of the plan, it raises KeyError.
pub assert_acyclic-Decides :
    (plan : PhasePlan)
    → (Joins (ids_of plan) plan.dag_edges × Decides plan.dag_edges (assert_acyclic plan))
      ⊎ ((¬ Joins (ids_of plan) plan.dag_edges) × (assert_acyclic plan ≡ some (err key_error)))
unfolding assert_acyclic
assert_acyclic-Decides plan = elim (Bool-cases (ends_known (ids_of plan) plan.dag_edges)) [
  | inl declared ↦
      let known = ends_known-Joins (ids_of plan) plan.dag_edges declared in
      inl (known, rw declared (keys-Decides (ids_of plan) plan.dag_edges known))
  | inr foreign ↦ inr (
    λ known. cc (sym foreign ∙ Joins-ends_known (ids_of plan) plan.dag_edges known),
    rw foreign refl,
  )
]

own-joins :
    (ids : List String) (edges : Edges) (a b : String)
    → IsEdge (filter (is_own ids) edges) a b
    → In a ids × In b ids
own-joins ids [] a b h = absurd h
own-joins ids (e ∷ edges) a b h = elim (Bool-cases (is_own ids e)) [
  | inl own ↦
      let h' : IsEdge (e ∷ filter (is_own ids) edges) a b = rw own at h in
      elim h' [
        | inl (from, to) ↦
            let (start, end) = both (contains e.0 ids) (contains e.1 ids) own in
            (subst (λ x. In x ids) from start, subst (λ x. In x ids) to end)
        | inr later ↦ own-joins ids edges a b later
      ]
  | inr foreign ↦ own-joins ids edges a b (rw foreign at h)
]

-- The check on a macro plan decides the graph of the edges between its
-- own phases; an edge with a foreign end does not count.
pub assert_macro_acyclic-Decides :
    (plan : MacroPlan)
    → Decides (filter (is_own (phase_ids plan)) plan.dag_edges) (assert_macro_acyclic plan)
unfolding assert_macro_acyclic
assert_macro_acyclic-Decides plan =
    keys-Decides (phase_ids plan) (filter (is_own (phase_ids plan)) plan.dag_edges)
      (own-joins (phase_ids plan) plan.dag_edges)
