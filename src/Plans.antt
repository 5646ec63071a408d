-- ===== src/Plans.antt =====
-- `evaluate_stage_sizes` of src/sf_factory/artifacts.py: the mechanical gate on the size of stages.
pub mod Ids
pub mod Sizes
pub mod Contracts
pub mod Acyclic
pub mod Reading
pub mod Tests
use sf_f.Base.{
  ℕ, ◌+◌, String, Bool, true, false, not, ◌&&◌, Option, none, some, List, [], ◌∷◌, ◌++◌, ◌==◌,
  string_eq, option_eq, lookup, assign, length, if◌then◌else◌, ltb, map, get_or,
}
use sf_f.Base.Raises.{Result, ok, err, ◌>>=◌, key_error}

pub record PhasePlanStage : Type 0 where
  pub id : String
  pub name : String
  pub risk_class : String
  pub acceptance : String
  pub kind : Option String
  pub role : Option String
  pub acceptance_criteria : Option (List String)
  pub touched : Option (List String)

pub record PhasePlan : Type 0 where
  pub stages : List PhasePlanStage
  pub dag_edges : List (String × String)

pub record StageSizeLimits : Type 0 where
  pub max_acceptance_criteria : ℕ
  pub max_touched : ℕ
  pub max_dependency_degree : ℕ
  pub min_acceptance_criteria : ℕ
  pub min_touched : ℕ

pub data Axis : Type 0 where
  acceptance_criteria touched dependency_degree : Axis

pub data Kind : Type 0 where
  over under skipped : Kind

pub record StageSizeViolation : Type 0 where
  pub stage_id : String
  pub axis : Axis
  pub kind : Kind
  pub value : Option ℕ
  pub limit : Option ℕ

-- A dict of degrees, written out as its items.
abbrev pub Degrees : Type 0
Degrees = List (String × ℕ)

-- {stage.id: 0 for stage in plan.stages}
abbrev pub zeros : List PhasePlanStage → Degrees
zeros [] = []
zeros (s ∷ stages) = assign s.id 0 (zeros stages)

-- `degree[key] += 1`, which raises KeyError for an id that is no stage of the plan.
abbrev pub bump : String → Degrees → Result Degrees
bump key degree = elim (lookup key degree) [
  | none ↦ err key_error
  | some n ↦ ok (assign key (n + 1) degree)
]

-- The loop over the edges: `degree_out`, then `degree_in`.
unfoldable pub tally : List (String × String) → Degrees → Degrees → Result (Degrees × Degrees)
tally [] degree_out degree_in = ok (degree_out, degree_in)
tally ((from_id, to_id) ∷ edges) degree_out degree_in = do
  degree_out' ← bump from_id degree_out
  degree_in' ← bump to_id degree_in
  tally edges degree_out' degree_in'

abbrev found : PhasePlanStage → Axis → Kind → ℕ → ℕ → List StageSizeViolation
found s axis kind value limit =
    record { stage_id = s.id; axis = axis; kind = kind; value = some value; limit = some limit }
    ∷ []

-- An axis that is None cannot be checked, which is reported.
abbrev pub gap : PhasePlanStage → Axis → Option ℕ → List StageSizeViolation
gap s axis none =
    record { stage_id = s.id; axis = axis; kind = skipped; value = none; limit = none } ∷ []
gap s axis (some n) = []

abbrev pub above : PhasePlanStage → Axis → Option ℕ → ℕ → List StageSizeViolation
above s axis none limit = []
above s axis (some n) limit = if ltb limit n then found s axis over n limit else []

-- The floor: both counts are known and thin, and the stage is no contract.
abbrev pub thin : StageSizeLimits → PhasePlanStage → Option ℕ → Option ℕ → List StageSizeViolation
thin limits s (some criteria) (some touching) =
    if not (s.role == some "contract")
      && (ltb criteria limits.min_acceptance_criteria && ltb touching limits.min_touched)
    then found s acceptance_criteria under criteria limits.min_acceptance_criteria
      ++ found s touched under touching limits.min_touched
    else []
thin limits s (some criteria) none = []
thin limits s none o = []

abbrev pub size : Option (List String) → Option ℕ
size none = none
size (some xs) = some (length xs)

unfoldable pub stage_violations : StageSizeLimits → PhasePlanStage → ℕ → List StageSizeViolation
stage_violations limits s degree =
    gap s acceptance_criteria (size s.acceptance_criteria)
    ++ gap s touched (size s.touched)
    ++ above s acceptance_criteria (size s.acceptance_criteria) limits.max_acceptance_criteria
    ++ above s touched (size s.touched) limits.max_touched
    ++ above s dependency_degree (some degree) limits.max_dependency_degree
    ++ thin limits s (size s.acceptance_criteria) (size s.touched)

-- `degree_in[stage.id] + degree_out[stage.id]`: each stage has its entry since `zeros`.
abbrev pub degree_of : Degrees → Degrees → String → ℕ
degree_of degree_out degree_in i = get_or (lookup i degree_in) 0 + get_or (lookup i degree_out) 0

unfoldable pub violations :
    StageSizeLimits → Degrees → Degrees → List PhasePlanStage → List StageSizeViolation
violations limits degree_out degree_in [] = []
violations limits degree_out degree_in (s ∷ stages) =
    stage_violations limits s (degree_of degree_out degree_in s.id)
    ++ violations limits degree_out degree_in stages

unfoldable pub evaluate_stage_sizes : PhasePlan → StageSizeLimits → Result (List StageSizeViolation)
unfolding tally violations
evaluate_stage_sizes plan limits = do
  (degree_out, degree_in) ← tally plan.dag_edges (zeros plan.stages) (zeros plan.stages)
  ok (violations limits degree_out degree_in plan.stages)
