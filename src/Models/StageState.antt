-- ===== src/Models/StageState.antt =====
-- `StageState` of src/sf_factory/models.py and its table of transitions.
use text.Mathlib.Text.{◌==◌ as str_eq}
use sf_f.Base.{
  String, ◌≡◌, refl, Option, none, some, if◌then◌else◌, Eq, Named, value_beq, value_beq_iff, List,
  [], ◌∷◌,
}

pub data StageState : Type 0 where
  pending spec spec_audit build validate audit awaiting_human merge_gate escalated done failed
        cancelled :
      StageState

abbrev pub value : StageState → String
value pending = "PENDING"
value spec = "SPEC"
value spec_audit = "SPEC_AUDIT"
value build = "BUILD"
value validate = "VALIDATE"
value audit = "AUDIT"
value awaiting_human = "AWAITING_HUMAN"
value merge_gate = "MERGE_GATE"
value escalated = "ESCALATED"
value done = "DONE"
value failed = "FAILED"
value cancelled = "CANCELLED"

-- The class called on a text; `none` stands for its ValueError.
abbrev pub parse : String → Option StageState
parse s =
    if str_eq s "PENDING"
    then some pending
    else if str_eq s "SPEC"
    then some spec
    else if str_eq s "SPEC_AUDIT"
    then some spec_audit
    else if str_eq s "BUILD"
    then some build
    else if str_eq s "VALIDATE"
    then some validate
    else if str_eq s "AUDIT"
    then some audit
    else if str_eq s "AWAITING_HUMAN"
    then some awaiting_human
    else if str_eq s "MERGE_GATE"
    then some merge_gate
    else if str_eq s "ESCALATED"
    then some escalated
    else if str_eq s "DONE"
    then some done
    else if str_eq s "FAILED"
    then some failed
    else if str_eq s "CANCELLED"
    then some cancelled
    else none

pub parse-value : (x : StageState) → parse (value x) ≡ some x
parse-value pending = refl
parse-value _ = refl

abbrev pub stage_state_named : Named StageState
stage_state_named = record { value = value; parse = parse; parse-value = parse-value }

instance abbrev pub stage_state_eq : Eq StageState
stage_state_eq = record {
  same = value_beq stage_state_named;
  same_iff = value_beq_iff stage_state_named;
}

-- VALID_STAGE_TRANSITIONS; a frozenset is a list without repetition.
abbrev pub valid_transitions : StageState → List StageState
valid_transitions pending = spec ∷ cancelled ∷ []
valid_transitions spec = spec_audit ∷ build ∷ validate ∷ escalated ∷ cancelled ∷ []
valid_transitions spec_audit = build ∷ spec ∷ escalated ∷ cancelled ∷ []
valid_transitions build = validate ∷ escalated ∷ cancelled ∷ []
valid_transitions validate = merge_gate ∷ audit ∷ build ∷ spec ∷ escalated ∷ cancelled ∷ []
valid_transitions audit = merge_gate ∷ awaiting_human ∷ build ∷ escalated ∷ cancelled ∷ []
valid_transitions awaiting_human = merge_gate ∷ build ∷ spec ∷ escalated ∷ cancelled ∷ []
valid_transitions merge_gate = done ∷ build ∷ escalated ∷ cancelled ∷ []
valid_transitions escalated =
    spec ∷ build ∷ validate ∷ merge_gate ∷ awaiting_human ∷ failed ∷ cancelled ∷ []
valid_transitions done = []
valid_transitions failed = []
valid_transitions cancelled = []

-- _RUNNING_STAGE_STATES
abbrev pub running_states : List StageState
running_states = spec ∷ spec_audit ∷ build ∷ validate ∷ audit ∷ merge_gate ∷ []

-- STAGE_ESCALATION_RESOLUTIONS
abbrev pub escalation_resolutions : List (String × StageState)
escalation_resolutions =
    ("rework:BUILD", build)
    ∷ ("rework:SPEC", spec)
    ∷ ("rework:SPEC_DOC", spec)
    ∷ ("respec", spec)
    ∷ ("rework:VALIDATE", validate)
    ∷ ("rework:MERGE_GATE", merge_gate)
    ∷ ("awaiting_human", awaiting_human)
    ∷ ("failed", failed)
    ∷ ("cancelled", cancelled)
    ∷ []
