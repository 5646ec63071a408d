-- ===== src/Models/GateAnswers.antt =====
-- GATE_ANSWERS of src/sf_factory/models.py, the answers that a gate declares, and the private maps of
-- src/sf_factory/scheduler.py that route an answer to a state.
use sf_f.Base.{String, List, [], ◌∷◌, ◌==◌, string_eq, if◌then◌else◌, contains}
use sf_f.Models.StageState.{StageState}
use sf_f.Models.PhaseState.{PhaseState, running, planning}

abbrev pub stage_answers : List String
stage_answers = "approved" ∷ "rework:BUILD" ∷ "rework:SPEC" ∷ []

-- `GATE_ANSWERS.get((unit_level, gate_kind), ())`
abbrev pub gate_answers : String → String → List String
gate_answers unit_level gate_kind =
    if unit_level == "stage"
    then (if contains gate_kind ("critical_stage" ∷ "escalation_tradeoff" ∷ [])
        then stage_answers
        else [])
    else if unit_level == "phase"
    then (if gate_kind == "phase_signoff"
        then "approved" ∷ "changes" ∷ []
        else if gate_kind == "escalation_tradeoff"
        then "resume" ∷ "replan" ∷ []
        else [])
    else []

-- _STAGE_ANSWER_TARGETS
abbrev pub stage_answer_targets : List (String × StageState)
stage_answer_targets =
    ("approved", StageState.merge_gate)
    ∷ ("rework:BUILD", StageState.build)
    ∷ ("rework:SPEC", StageState.spec)
    ∷ []

-- _PHASE_ANSWER_TARGETS
abbrev pub phase_answer_targets : List (String × PhaseState)
phase_answer_targets = ("resume", running) ∷ ("replan", planning) ∷ []
