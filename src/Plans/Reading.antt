-- ===== src/Plans/Reading.antt =====
-- `read_phase_plan` of src/sf_factory/artifacts.py, from the schema's outcome on: the file, the JSON and
-- the pydantic model give a plan or raise.
pub mod Accepted
use sf_f.Base.{
  String, Bool, true, false, not, ◌&&◌, ◌||◌, Option, none, some, List, [], ◌∷◌, ◌==◌, string_eq,
  any, contains,
}
use sf_f.Base.Raises.{Result, ok, err, require, ◌>>=◌, ◌>>◌, artifact_contract_error}
use sf_f.Plans.{PhasePlanStage, PhasePlan}
use sf_f.Plans.Ids.{is_plan_id}
use sf_f.Plans.Contracts.{Edges, ids_of, assert_contract_reachable}
use sf_f.Plans.Acyclic.{assert_acyclic}

abbrev pub has_stages : List PhasePlanStage → Bool
has_stages [] = false
has_stages (s ∷ stages) = true

-- `len(set(ids)) == len(ids)`
abbrev pub distinct : List String → Bool
distinct [] = true
distinct (x ∷ xs) = not (contains x xs) && distinct xs

-- The loop over the stages.
unfoldable pub check_stages : List String → List PhasePlanStage → Result (Unit {0})
check_stages risk_classes [] = ok tt
check_stages risk_classes (s ∷ stages) = do
  require (is_plan_id s.id) artifact_contract_error
  require (contains s.risk_class risk_classes) artifact_contract_error
  check_stages risk_classes stages

abbrev pub is_seen : String × String → Edges → Bool
is_seen e = any (λ (s : String × String). s.0 == e.0 && s.1 == e.1)

-- The loop over the edges.
unfoldable pub check_edges : List String → Edges → Edges → Result (Unit {0})
check_edges ids seen [] = ok tt
check_edges ids seen (e ∷ edges) = do
  require (not (is_seen e seen)) artifact_contract_error
  require (contains e.0 ids) artifact_contract_error
  require (contains e.1 ids) artifact_contract_error
  check_edges ids (e ∷ seen) edges

-- What is tested before the graph is.
unfoldable pub check_plan : List String → PhasePlan → Result (Unit {0})
check_plan risk_classes plan = do
  require (has_stages plan.stages) artifact_contract_error
  require (distinct (ids_of plan)) artifact_contract_error
  check_stages risk_classes plan.stages
  check_edges (ids_of plan) [] plan.dag_edges

-- A check that may run out of fuel, and what comes after it.
abbrev pub and_then :
    {A : Type 0} → Option (Result (Unit {0})) → Option (Result A) → Option (Result A)
and_then none after = none
and_then (some (err e)) after = some (err e)
and_then (some (ok _)) after = after

abbrev pub check_seams : PhasePlan → Option (Result PhasePlan)
check_seams plan = and_then (assert_contract_reachable plan) (some (ok plan))

abbrev pub check_graph : PhasePlan → Option (Result PhasePlan)
check_graph plan = and_then (assert_acyclic plan) (check_seams plan)

abbrev pub checked : List String → PhasePlan → Option (Result PhasePlan)
checked risk_classes plan = and_then (some (check_plan risk_classes plan)) (check_graph plan)

unfoldable pub read_phase_plan : Result PhasePlan → List String → Option (Result PhasePlan)
read_phase_plan (err e) risk_classes = some (err e)
read_phase_plan (ok plan) risk_classes = checked risk_classes plan
