-- ===== src/Plans/Reading/Accepted.antt =====
-- What is known of a plan that was read.
use mathlib.Core.Path.{subst}
use sf_f.Base.{
  String, ◌≡◌, refl, sym, ap, ◌∙◌, Bool, true, false, not, ◌&&◌, ◌⊎◌, inl, inr, Option, some, List,
  [], ◌∷◌, ◌==◌, ==_iff, ==_refl, string_eq, contains, Bool-cases, arith,
}
use sf_f.Base.Raises.{
  result-cases, Result, Error, ok, err, require, >>=-eq-ok, artifact_contract_error,
}
use sf_f.Plans.{PhasePlan, PhasePlanStage}
use sf_f.Plans.Ids.{is_plan_id, IsSafe, is_plan_id-IsSafe}
use sf_f.Plans.Contracts.{Edges, ids_of, contracts_of}
use sf_f.Plans.Contracts.Pushed.{In}
use sf_f.Plans.Contracts.Guarded.{Guarded, assert_contract_reachable-Decides}
use sf_f.Plans.Acyclic.Counting.{occurrences, one_if}
use sf_f.Plans.Acyclic.Ordered.{Unique, Joins, CanBeOrdered, declared-Decides}
use sf_f.Plans.Reading.{
  is_seen, distinct, has_stages, check_stages, check_edges, check_plan, and_then, check_graph,
  check_seams, checked, read_phase_plan,
}

require-ok : (b : Bool) (e : Error) {x : Unit {0}} → require b e ≡ ok x → b ≡ true
require-ok true e h = refl
require-ok false e h = cc

none-occurs : (u : String) (xs : List String) → contains u xs ≡ false → occurrences u xs ≡ 0
none-occurs u [] h = refl
none-occurs u (x ∷ xs) h = ground (arith, ==_iff x u, ==_iff u x, none-occurs u xs)

both : (a b : Bool) → (a && b) ≡ true → (a ≡ true) × (b ≡ true)
both a b h = ground arith

once :
    (x : String) (ids : List String)
    → not (contains x ids) ≡ true
    → occurrences x (x ∷ ids) ≡ one_if (contains x (x ∷ ids))
once x ids h =
    let new : contains x ids ≡ false = ground arith in
    let rest = none-occurs x ids new in ground (arith, ==_refl x, rest)

distinct-Unique : (ids : List String) → distinct ids ≡ true → Unique ids
distinct-Unique [] h u = refl
distinct-Unique (x ∷ ids) h u = elim (Bool-cases (u == x)) [
  | inl same ↦
      subst (λ z. occurrences z (x ∷ ids) ≡ one_if (contains z (x ∷ ids)))
        (sym ((==_iff u x).0 same)) (once x ids (both (not (contains x ids)) (distinct ids) h).0)
  | inr other ↦
      let rest = distinct-Unique ids (both (not (contains x ids)) (distinct ids) h).1 in
      ground (arith, other, ==_iff x u, ==_iff u x, rest u)
]

check_edges-Joins :
    (ids : List String) (seen edges : Edges) {x : Unit {0}}
    → check_edges ids seen edges ≡ ok x
    → Joins ids edges
unfolding check_edges
check_edges-Joins ids seen [] h a b e = absurd e
check_edges-Joins ids seen (e ∷ edges) h a b edge =
    let (x1, new, h1) = >>=-eq-ok (require (not (is_seen e seen)) artifact_contract_error) _ h in
    let (x2, from_known, h2) =
      >>=-eq-ok (require (contains e.0 ids) artifact_contract_error) _ h1 in
    let (x3, to_known, h3) = >>=-eq-ok (require (contains e.1 ids) artifact_contract_error) _ h2 in
    elim edge [
      | inl (from, to) ↦ (
        subst (λ z. In z ids) from (require-ok _ artifact_contract_error from_known),
        subst (λ z. In z ids) to (require-ok _ artifact_contract_error to_known),
      )
      | inr later ↦ check_edges-Joins ids (e ∷ seen) edges h3 a b later
    ]

-- What the loop over the stages has tested.
abbrev pub Admitted : List String → List PhasePlanStage → Type 0
Admitted risk_classes [] = Unit
Admitted risk_classes (s ∷ stages) =
    (IsSafe s.id) × (In s.risk_class risk_classes) × Admitted risk_classes stages

check_stages-Admitted :
    (risk_classes : List String) (stages : List PhasePlanStage) {x : Unit {0}}
    → check_stages risk_classes stages ≡ ok x
    → Admitted risk_classes stages
unfolding check_stages
check_stages-Admitted risk_classes [] h = tt
check_stages-Admitted risk_classes (s ∷ stages) h =
    let (x1, formed, h1) = >>=-eq-ok (require (is_plan_id s.id) artifact_contract_error) _ h in
    let (x2, known, h2) =
      >>=-eq-ok (require (contains s.risk_class risk_classes) artifact_contract_error) _ h1 in
    (
      is_plan_id-IsSafe s.id (require-ok _ artifact_contract_error formed),
      require-ok _ artifact_contract_error known,
      check_stages-Admitted risk_classes stages h2,
    )

check_plan-ok :
    (risk_classes : List String) (plan : PhasePlan) {x : Unit {0}}
    → check_plan risk_classes plan ≡ ok x
    → Unique (ids_of plan) × Joins (ids_of plan) plan.dag_edges × Admitted risk_classes plan.stages
unfolding check_plan
check_plan-ok risk_classes plan h =
    let (x1, filled, h1) =
      >>=-eq-ok (require (has_stages plan.stages) artifact_contract_error) _ h in
    let (x2, apart, h2) =
      >>=-eq-ok (require (distinct (ids_of plan)) artifact_contract_error) _ h1 in
    let (x3, fine, h3) = >>=-eq-ok (check_stages risk_classes plan.stages) _ h2 in
    (
      distinct-Unique (ids_of plan) (require-ok _ artifact_contract_error apart),
      check_edges-Joins (ids_of plan) [] plan.dag_edges h3,
      check_stages-Admitted risk_classes plan.stages fine,
    )

-- A plan that may be ingested.
abbrev pub Sound : List String → PhasePlan → Type 0
Sound risk_classes plan =
    Unique (ids_of plan)
    × Admitted risk_classes plan.stages
    × Joins (ids_of plan) plan.dag_edges
    × CanBeOrdered plan.dag_edges
    × ((contracts_of plan ≡ []) ⊎ Guarded plan)

-- The reading ended, with an exception or with the plan that was loaded, which is sound.
abbrev pub ReadAs : List String → Result PhasePlan → Option (Result PhasePlan) → Type 0
ReadAs risk_classes loaded answer =
    ((e : Error) × (answer ≡ some (err e)))
    ⊎ ((plan : PhasePlan) × (loaded ≡ ok plan)
        × (answer ≡ some (ok plan))
        × Sound risk_classes plan)

checked-ReadAs :
    (risk_classes : List String) (plan : PhasePlan)
    → ReadAs risk_classes (ok plan) (checked risk_classes plan)
checked-ReadAs risk_classes plan = elim (result-cases (check_plan risk_classes plan)) [
  | inr (e, refused) ↦ inl (e, ap (λ r. and_then (some r) (check_graph plan)) refused)
  | inl (x, passed) ↦
      let (unique, known, admitted) = check_plan-ok risk_classes plan passed in
      let first = ap (λ r. and_then (some r) (check_graph plan)) passed in
      elim (declared-Decides plan known) [
        | inr (cyclic, _) ↦
            inl (artifact_contract_error, first ∙ ap (λ r. and_then r (check_seams plan)) cyclic)
        | inl (acyclic, ordered) ↦
            let second = first ∙ ap (λ r. and_then r (check_seams plan)) acyclic in
            elim (assert_contract_reachable-Decides plan known) [
              | inr (orphans, _, _) ↦
                  inl (
                    artifact_contract_error,
                    second ∙ ap (λ r. and_then r (some (ok plan))) orphans,
                  )
              | inl (guarded, is) ↦ inr (
                plan,
                refl,
                second ∙ ap (λ r. and_then r (some (ok plan))) guarded,
                (unique, admitted, known, ordered, is),
              )
            ]
      ]
]

-- The reading of a phase's plan ends, whatever was loaded: it raises, or returns the plan that was loaded.
-- In a plan that it returns no id stands twice, every id is safe (it is not empty, has no separator of
-- paths, and begins neither with a dash nor with a dot), every risk class is known, every edge joins stages of the plan, the stages can be
-- numbered so that every edge goes up, and, if there is a contract stage, every stage is one or
-- comes after one.
pub read_phase_plan-ReadAs :
    (loaded : Result PhasePlan) (risk_classes : List String)
    → ReadAs risk_classes loaded (read_phase_plan loaded risk_classes)
unfolding read_phase_plan
read_phase_plan-ReadAs (err e) risk_classes = inl (e, refl)
read_phase_plan-ReadAs (ok plan) risk_classes = checked-ReadAs risk_classes plan
