-- ===== src/Plans/Sizes.antt =====
-- What a plan without violations satisfies, in src/sf_factory/artifacts.py.
use mathlib.Core.Path.{subst, subst₂}
use sf_f.Base.{
  ℕ, suc, ◌+◌, ◌≤◌, String, ◌≡◌, ◌⊎◌, refl, sym, ap, ◌∙◌, Bool, true, false, Option, none, some,
  List, [], ◌∷◌, ◌++◌, ◌==◌, string_eq, option_eq, lookup, lookup-assign, get_or, count, All, ltb,
  if◌then◌else◌, Bool-cases, Option-cases, inl, inr, ==_iff, arith,
}
use sf_f.Base.Raises.{ok, >>=-eq-ok, ok-injective}
use sf_f.Plans.{
  PhasePlanStage, PhasePlan, StageSizeLimits, Axis, Degrees, zeros, bump, tally, gap, above, thin,
  size, stage_violations, degree_of, violations, evaluate_stage_sizes, acceptance_criteria, touched,
  dependency_degree,
}

-- The edges that leave the stage and those that enter it.
abbrev pub edges_out : List (String × String) → String → ℕ
edges_out edges i = count (λ (e : String × String). e.0 == i) edges

abbrev pub edges_in : List (String × String) → String → ℕ
edges_in edges i = count (λ (e : String × String). e.1 == i) edges

abbrev one_if : Bool → ℕ
one_if b = if b then 1 else 0

abbrev at : Degrees → String → ℕ
at m k = get_or (lookup k m) 0

bump-at :
    (key k : String) (m : Degrees) {m' : Degrees}
    → bump key m ≡ ok m'
    → at m' k ≡ one_if (key == k) + at m k
bump-at key k m h = elim (Option-cases (lookup key m)) [
  | inl missing ↦ cc (rw (missing, bump) at h)
  | inr (n, found) ↦
      let left = ok-injective (rw (found, bump) at h) in
      ap (λ x. at x k) (sym left)
      ∙ ap (λ o. get_or o 0) (lookup-assign key k (n + 1) m)
      ∙ bumped n found
]
  where
    bumped :
        (n : ℕ)
        → lookup key m ≡ some n
        → get_or (if key == k then some (n + 1) else lookup k m) 0 ≡ one_if (key == k) + at m k
    bumped n found = elim (Bool-cases (key == k)) [
      | inr other ↦ rw other (omega arith)
      | inl same ↦
          let here : at m k ≡ n =
            ap (λ j. at m j) (sym ((==_iff key k).0 same)) ∙ ap (λ o. get_or o 0) found in
          rw same (omega (arith, here))
    ]

set_to_zero : (b : Bool) (o : Option ℕ) → get_or o 0 ≡ 0 → get_or (if b then some 0 else o) 0 ≡ 0
set_to_zero true o h = refl
set_to_zero false o h = h

zeros-at : (stages : List PhasePlanStage) (k : String) → at (zeros stages) k ≡ 0
zeros-at [] k = refl
zeros-at (s ∷ stages) k =
    ap (λ o. get_or o 0) (lookup-assign s.id k 0 (zeros stages))
    ∙ set_to_zero (s.id == k) (lookup k (zeros stages)) (zeros-at stages k)

one_more :
    (b : Bool) (x c s t : ℕ) → x ≡ c + s → s ≡ one_if b + t → x ≡ (if b then suc c else c) + t
one_more b x c s t h k = ground arith

tally-at :
    (edges : List (String × String)) (o i : Degrees) (k : String) {o' i' : Degrees}
    → tally edges o i ≡ ok (o', i')
    → (at o' k ≡ edges_out edges k + at o k) × (at i' k ≡ edges_in edges k + at i k)
unfolding tally
tally-at [] o i k h =
    let same = ok-injective h in
    (
      ap (λ (x : Degrees × Degrees). at x.0 k) (sym same) ∙ omega arith,
      ap (λ (x : Degrees × Degrees). at x.1 k) (sym same) ∙ omega arith,
    )
tally-at ((from_id, to_id) ∷ edges) o i k h =
    let (o1, out, h1) = >>=-eq-ok (bump from_id o) _ h in
    let (i1, into, h2) = >>=-eq-ok (bump to_id i) _ h1 in
    let (rest_out, rest_in) = tally-at edges o1 i1 k h2 in
    (
      one_more (from_id == k) _ _ _ _ rest_out (bump-at from_id k o out),
      one_more (to_id == k) _ _ _ _ rest_in (bump-at to_id k i into),
    )

-- The degree that the code computes is the number of edges at the stage.
degree_lem :
    (plan : PhasePlan) (i : String) {o' i' : Degrees}
    → tally plan.dag_edges (zeros plan.stages) (zeros plan.stages) ≡ ok (o', i')
    → degree_of o' i' i ≡ edges_in plan.dag_edges i + edges_out plan.dag_edges i
degree_lem plan i h =
    let (out, into) = tally-at plan.dag_edges (zeros plan.stages) (zeros plan.stages) i h in
    omega (arith, out, into, zeros-at plan.stages i)

-- Both counts are given and, like the degree, within their limits; only a contract is thin on both.
abbrev pub Fits : StageSizeLimits → ℕ → PhasePlanStage → Type 0
Fits limits degree s =
    (c : ℕ) × (t : ℕ) × (size s.acceptance_criteria ≡ some c)
    × (size s.touched ≡ some t)
    × (c ≤ limits.max_acceptance_criteria)
    × (t ≤ limits.max_touched)
    × (degree ≤ limits.max_dependency_degree)
    × (s.role ≡ some "contract" ⊎ (limits.min_acceptance_criteria ≤ c ⊎ limits.min_touched ≤ t))

++-nil : {A : Type 0} (xs ys : List A) → xs ++ ys ≡ [] → (xs ≡ []) × (ys ≡ [])
++-nil [] ys h = (refl, h)
++-nil (x ∷ xs) ys h = cc

six-nil :
    {A : Type 0} (u v w x y z : List A)
    → u ++ v ++ w ++ x ++ y ++ z ≡ []
    → (u ≡ []) × (v ≡ []) × (w ≡ []) × (x ≡ []) × (y ≡ []) × (z ≡ [])
six-nil [] [] [] [] [] z h = (refl, refl, refl, refl, refl, h)
six-nil (a ∷ u) v w x y z h = cc
six-nil [] (a ∷ v) w x y z h = cc
six-nil [] [] (a ∷ w) x y z h = cc
six-nil [] [] [] (a ∷ x) y z h = cc
six-nil [] [] [] [] (a ∷ y) z h = cc

gap-nil :
    (s : PhasePlanStage) (axis : Axis) (o : Option ℕ) → gap s axis o ≡ [] → (n : ℕ) × (o ≡ some n)
gap-nil s axis none h = cc
gap-nil s axis (some n) h = (n, refl)

above-nil :
    (s : PhasePlanStage) (axis : Axis) (n limit : ℕ) → above s axis (some n) limit ≡ [] → n ≤ limit
above-nil s axis n limit h = elim (Bool-cases (ltb limit n)) [
  | inl over ↦ cc (rw (over, above) at h)
  | inr within ↦ ground arith
]

thin-nil :
    (limits : StageSizeLimits) (s : PhasePlanStage) (c t : ℕ)
    → thin limits s (some c) (some t) ≡ []
    → s.role ≡ some "contract" ⊎ (limits.min_acceptance_criteria ≤ c ⊎ limits.min_touched ≤ t)
thin-nil limits s c t h = elim (Bool-cases (s.role == some "contract")) [
  | inl contract ↦ inl ((==_iff s.role (some "contract")).0 contract)
  | inr leaf ↦ elim (Bool-cases (ltb c limits.min_acceptance_criteria)) [
    | inr enough ↦ inr (inl (ground arith))
    | inl few ↦ elim (Bool-cases (ltb t limits.min_touched)) [
      | inr enough ↦ inr (inr (ground arith))
      | inl little ↦ cc (rw (leaf, few, little, thin) at h)
    ]
  ]
]

stage-Fits :
    (limits : StageSizeLimits) (s : PhasePlanStage) (degree : ℕ)
    → stage_violations limits s degree ≡ []
    → Fits limits degree s
unfolding stage_violations
stage-Fits limits s degree h =
    let (no_gap, no_gap', criteria, touching, edges, floor) =
      six-nil (gap s acceptance_criteria (size s.acceptance_criteria))
        (gap s touched (size s.touched))
        (above s acceptance_criteria (size s.acceptance_criteria) limits.max_acceptance_criteria)
        (above s touched (size s.touched) limits.max_touched)
        (above s dependency_degree (some degree) limits.max_dependency_degree)
        (thin limits s (size s.acceptance_criteria) (size s.touched)) h in
    let (c, is_c) = gap-nil s acceptance_criteria (size s.acceptance_criteria) no_gap in
    let (t, is_t) = gap-nil s touched (size s.touched) no_gap' in
    (
      c,
      t,
      is_c,
      is_t,
      above-nil s acceptance_criteria c limits.max_acceptance_criteria (
          subst (λ o. above s acceptance_criteria o limits.max_acceptance_criteria ≡ []) is_c
            criteria),
      above-nil s touched t limits.max_touched
          (subst (λ o. above s touched o limits.max_touched ≡ []) is_t touching),
      above-nil s dependency_degree degree limits.max_dependency_degree edges,
      thin-nil limits s c t (subst₂ (λ o o'. thin limits s o o' ≡ []) is_c is_t floor),
    )

violations-nil :
    (limits : StageSizeLimits) (edges : List (String × String)) (o i : Degrees)
    (stages : List PhasePlanStage)
    → ((k : String) → degree_of o i k ≡ edges_in edges k + edges_out edges k)
    → violations limits o i stages ≡ []
    → All (λ s. Fits limits (edges_in edges s.id + edges_out edges s.id) s) stages
unfolding violations
violations-nil limits edges o i [] same h = tt
violations-nil limits edges o i (s ∷ stages) same h =
    let (here, there) = ++-nil (stage_violations limits s (degree_of o i s.id)) _ h in
    (
      subst (λ n. Fits limits n s) (same s.id) (stage-Fits limits s (degree_of o i s.id) here),
      violations-nil limits edges o i stages same there,
    )

-- A plan for which the gate reports nothing is within its limits: every stage gives its acceptance
-- criteria and its touched files, both lists and the number of edges at the stage are within the
-- upper limits, and only a contract stage is below both floors.
pub evaluate_stage_sizes-Fits :
    (plan : PhasePlan) (limits : StageSizeLimits)
    → evaluate_stage_sizes plan limits ≡ ok []
    → All
        (λ s. Fits limits (edges_in plan.dag_edges s.id + edges_out plan.dag_edges s.id) s)
        plan.stages
unfolding evaluate_stage_sizes
evaluate_stage_sizes-Fits plan limits h =
    let ((o, i), tallied, h') =
      >>=-eq-ok (tally plan.dag_edges (zeros plan.stages) (zeros plan.stages)) _ h in
    violations-nil limits plan.dag_edges o i plan.stages (λ k. degree_lem plan k tallied)
      (ok-injective h')
