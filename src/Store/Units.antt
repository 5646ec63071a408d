-- ===== src/Store/Units.antt =====
-- The units of src/sf_factory/db.py: phases and stages.
pub mod Laws
use Prim.Native.Nat.{Ordering}
use Prim.Native.String.{compare}
use sf_f.Base.{
  true, false, String, Bool, Option, none, some, List, [], ◌∷◌, ◌++◌, map, ◌==◌, string_eq, nat_eq,
  any, count, find, filter, contains, update_where, if◌then◌else◌, not, ◌&&◌, ◌||◌,
}
use sf_f.Base.Raises.{factory_error, sqlite_integrity_error, require_some}
use sf_f.Models.Level.{Level, stage, phase}
use sf_f.Models.StageState
use sf_f.Models.PhaseState
use sf_f.Models.UnitState.{UnitState, of_stage, of_phase}
use sf_f.Models.Records.{Time, Phase, Stage}
use sf_f.Store.Db.{Db}
use sf_f.Store.Tx.{Tx, ◌>>=◌, ◌>>◌, gets, put, check, lift}
use sf_f.Store.Artifacts.{refers}

unfoldable pub get_phase : String → Db → Option Phase
get_phase phase_id d = find (λ p. p.id == phase_id) d.phases

unfoldable pub get_stage : String → Db → Option Stage
get_stage stage_id d = find (λ s. s.id == stage_id) d.stages

-- PRIMARY KEY (id) and the reference to the plan.
abbrev phase_fits : Phase → Db → Bool
phase_fits p d = not (any (λ q. q.id == p.id) d.phases) && refers p.plan_artifact_id d

unfoldable pub insert_phase : Phase → Tx (Unit {0})
insert_phase p = do
  fits ← gets (phase_fits p)
  check fits sqlite_integrity_error
  put (λ d. record d { phases = d.phases ++ p ∷ [] })

-- PRIMARY KEY (id) and the references to the phase and the spec.
abbrev stage_fits : Stage → Db → Bool
stage_fits s d =
    not (any (λ t. t.id == s.id) d.stages)
    && (any (λ p. p.id == s.phase_id) d.phases && refers s.spec_artifact_id d)

unfoldable pub insert_stage : Stage → Tx (Unit {0})
insert_stage s = do
  fits ← gets (stage_fits s)
  check fits sqlite_integrity_error
  put (λ d. record d { stages = d.stages ++ s ∷ [] })

-- ORDER BY id: insertion into a list that is in the order of the texts.
abbrev place : {A : Type 0} → (A → String) → A → List A → List A
place id a [] = a ∷ []
place id a (x ∷ xs) =
    let rest = place id a xs in
    elim (compare (id a) (id x)) [ Ordering.gt ↦ x ∷ rest | _ ↦ a ∷ x ∷ xs ]

abbrev pub order_by : {A : Type 0} → (A → String) → List A → List A
order_by id [] = []
order_by id (x ∷ xs) = place id x (order_by id xs)

-- The `Phase | Stage` that `list_units` returns.
pub data AnyUnit : Type 0 where
  a_phase : Phase → AnyUnit
  a_stage : Stage → AnyUnit

-- An empty `states` is no restriction.
abbrev selected : List String → String → Bool
selected [] v = true
selected (s ∷ states) v = contains v (s ∷ states)

unfoldable pub list_units : Level → List String → Db → List AnyUnit
list_units phase states d =
    map a_phase
      (order_by (λ p. p.id) (filter (λ p. selected states (PhaseState.value p.state)) d.phases))
list_units stage states d =
    map a_stage
      (order_by (λ s. s.id) (filter (λ s. selected states (StageState.value s.state)) d.stages))

-- The row of the unit; a text that is no state fails the CHECK of the column.
unfoldable pub set_unit_state : Time → Level → String → String → Tx (Unit {0})
set_unit_state now stage unit_id state = do
  found ← gets (λ d. count (λ s. s.id == unit_id) d.stages)
  check (found == 1) factory_error
  target ← lift (require_some (StageState.parse state) sqlite_integrity_error)
  put (λ d. record d {
    stages =
        update_where (λ s. s.id == unit_id) (λ s. record s { state = target; updated_at = now })
          d.stages;
  })
set_unit_state now phase unit_id state = do
  found ← gets (λ d. count (λ p. p.id == unit_id) d.phases)
  check (found == 1) factory_error
  target ← lift (require_some (PhaseState.parse state) sqlite_integrity_error)
  put (λ d. record d {
    phases =
        update_where (λ p. p.id == unit_id) (λ p. record p { state = target; updated_at = now })
          d.phases;
  })

unfoldable pub set_stage_worktree : Time → String → String → String → Tx (Unit {0})
set_stage_worktree now stage_id branch worktree_path = do
  found ← gets (λ d. count (λ s. s.id == stage_id) d.stages)
  check (found == 1) factory_error
  put (λ d. record d {
    stages =
        update_where (λ s. s.id == stage_id)
          (λ s. record s {
            branch = some branch;
            worktree_path = some worktree_path;
            updated_at = now;
          })
          d.stages;
  })

-- `unit.state` of a unit row (`_current_state` of src/sf_factory/statemachine.py, before its error).
abbrev pub unit_state : Level → String → Db → Option UnitState
unit_state stage unit_id d = elim (get_stage unit_id d) [
  | none ↦ none
  | some s ↦ some (of_stage s.state)
]
unit_state phase unit_id d = elim (get_phase unit_id d) [
  | none ↦ none
  | some p ↦ some (of_phase p.state)
]
