-- ===== src/Models/Tests.antt =====
-- The laws of the transition tables at concrete states.
use sf_f.Base.{◌≡◌, refl, true, false, string_eq}
use sf_f.Models.Level.{stage, phase}
use sf_f.Models.StageState.{StageState}
use sf_f.Models.UnitState
use sf_f.Models.UnitState.{UnitState, of_stage, of_phase, allowed, transitions}
use sf_f.Models.SchedCategory.{sched_category}
use sf_f.Models.Lifecycle.{
  category?, Route, is_cancellable, sched_category_lem, not_terminal-Route, escalated_at,
  escalation_resolutions-allowed,
}

sched_category_lem_example :
    sched_category phase "PENDING" false ≡ category? (UnitState.parse phase "PENDING") false
sched_category_lem_example = sched_category_lem phase "PENDING" false

not_terminal-Route_example :
    Route (of_stage StageState.done) (of_stage StageState.escalated)
    × (is_cancellable (of_stage StageState.escalated) ≡ true)
not_terminal-Route_example = not_terminal-Route (of_stage StageState.escalated) refl

escalation_resolutions-allowed_example :
    allowed (escalated_at stage) (of_stage StageState.merge_gate) ≡ true
escalation_resolutions-allowed_example =
    escalation_resolutions-allowed stage "rework:MERGE_GATE" (of_stage StageState.merge_gate) refl
