-- ===== src/Plans/Tests.antt =====
-- A plan of a contract and one stage behind it.
use sf_f.Plans.Ids.{is_plan_id, is_alphanumeric, is_id_character}
use sf_f.Plans.Reading.{read_phase_plan, check_plan, check_stages, check_edges}
use sf_f.Plans.Reading.Accepted.{ReadAs, read_phase_plan-ReadAs}
use sf_f.Plans.Acyclic.{
  keys_of, assert_acyclic, assert_macro_acyclic, toposort, kahn, relax, initially_ready, insert,
  indegrees, MacroPlan,
}
use sf_f.Plans.Acyclic.Counting.{occurrences, one_if}
use sf_f.Plans.Acyclic.Ordered
use sf_f.Plans.Acyclic.Ordered.{Unique, assert_acyclic-Decides, assert_macro_acyclic-Decides}
use sf_f.Plans.Contracts.{ids_of, explore, push, assert_contract_reachable}
use sf_f.Plans.Contracts.Pushed.{In}
use sf_f.Plans.Contracts.Guarded.{EndsKnown, Decides, assert_contract_reachable-Decides}
use mathlib.Core.Path.{subst}
use sf_f.Base.{
  ◌⊎◌, none, Bool-cases, contains, ==_iff, ◌==◌, string_eq, arith, inl, inr, ◌+◌, ◌≡◌, refl, some,
  [], ◌∷◌, All,
}
use sf_f.Base.Raises.{ok, err, artifact_contract_error, key_error}
use sf_f.Plans.{
  PhasePlan, StageSizeLimits, evaluate_stage_sizes, tally, violations, stage_violations,
}
use sf_f.Plans.Sizes.{Fits, edges_in, edges_out, evaluate_stage_sizes-Fits}

abbrev plan : PhasePlan
plan = record {
  stages =
      record {
        id = "C1";
        name = "the seam";
        risk_class = "standard";
        acceptance = "passes";
        kind = none;
        role = some "contract";
        acceptance_criteria = some ("the seam is frozen" ∷ []);
        touched = some ("api.py" ∷ []);
      }
      ∷ record {
        id = "S1";
        name = "the parser";
        risk_class = "standard";
        acceptance = "passes";
        kind = none;
        role = some "leaf";
        acceptance_criteria = some ("parses" ∷ "prints" ∷ []);
        touched = some ("parser.py" ∷ "printer.py" ∷ []);
      }
      ∷ [];
  dag_edges = ("C1", "S1") ∷ [];
}

abbrev limits : StageSizeLimits
limits = record {
  max_acceptance_criteria = 5;
  max_touched = 8;
  max_dependency_degree = 4;
  min_acceptance_criteria = 2;
  min_touched = 2;
}

quiet : evaluate_stage_sizes plan limits ≡ ok []
unfolding evaluate_stage_sizes tally violations stage_violations
quiet = refl

evaluate_stage_sizes-Fits_example :
    All
      (λ s. Fits limits (edges_in plan.dag_edges s.id + edges_out plan.dag_edges s.id) s)
      plan.stages
evaluate_stage_sizes-Fits_example = evaluate_stage_sizes-Fits plan limits quiet

ends-known : EndsKnown plan
ends-known a b (inl (from, to)) =
    (subst (λ x. In x ("C1" ∷ "S1" ∷ [])) from refl, subst (λ x. In x ("C1" ∷ "S1" ∷ [])) to refl)
ends-known a b (inr none_left) = absurd none_left

assert_contract_reachable-Decides_example : Decides plan (assert_contract_reachable plan)
assert_contract_reachable-Decides_example = assert_contract_reachable-Decides plan ends-known

accepted : assert_contract_reachable plan ≡ some (ok tt)
unfolding assert_contract_reachable explore push
accepted = refl

-- Without the edge the stage would be built against a seam that nobody froze.
orphaned :
    assert_contract_reachable (record plan { dag_edges = [] }) ≡ some (err artifact_contract_error)
unfolding assert_contract_reachable explore push
orphaned = refl

Unique-ids : Unique ("C1" ∷ "S1" ∷ [])
Unique-ids u = elim (Bool-cases ("C1" == u)) [
  | inl first ↦
      subst (λ x. occurrences x ("C1" ∷ "S1" ∷ []) ≡ one_if (contains x ("C1" ∷ "S1" ∷ [])))
        ((==_iff "C1" u).0 first) refl
  | inr other ↦ ground (arith, other, ==_iff "C1" u, ==_iff u "C1", ==_iff "S1" u, ==_iff u "S1")
]

assert_acyclic-Decides_example :
    (Ordered.Joins (ids_of plan) plan.dag_edges
      × Ordered.Decides plan.dag_edges (assert_acyclic plan))
    ⊎ ((¬ Ordered.Joins (ids_of plan) plan.dag_edges)
        × (assert_acyclic plan ≡ some (err key_error)))
assert_acyclic-Decides_example = assert_acyclic-Decides plan

-- A cycle of two stages.
cyclic :
    assert_acyclic (record plan { dag_edges = ("C1", "S1") ∷ ("S1", "C1") ∷ [] })
    ≡ some (err artifact_contract_error)
unfolding assert_acyclic keys_of toposort kahn relax initially_ready insert indegrees
cyclic = refl

abbrev macro_plan : MacroPlan
macro_plan = record {
  project = "web";
  phases = record { id = "C1"; name = "seam" } ∷ record { id = "S1"; name = "leaf" } ∷ [];
  dag_edges = ("P0", "C1") ∷ ("C1", "S1") ∷ [];
}

macro_accepted : assert_macro_acyclic macro_plan ≡ some (ok tt)
unfolding assert_macro_acyclic keys_of toposort kahn relax initially_ready insert indegrees
macro_accepted = refl

read_phase_plan-ReadAs_example :
    ReadAs ("standard" ∷ []) (ok plan) (read_phase_plan (ok plan) ("standard" ∷ []))
read_phase_plan-ReadAs_example = read_phase_plan-ReadAs (ok plan) ("standard" ∷ [])

reads : read_phase_plan (ok plan) ("standard" ∷ []) ≡ some (ok plan)
unfolding read_phase_plan is_plan_id is_alphanumeric is_id_character keys_of check_plan check_stages
    check_edges assert_acyclic toposort kahn relax initially_ready insert indegrees
    assert_contract_reachable explore push
reads = refl
