-- ===== src/Models/PhaseState.antt =====
-- `PhaseState` of src/sf_factory/models.py and its table of transitions.
use text.Mathlib.Text.{◌==◌ as str_eq}
use sf_f.Base.{
  String, ◌≡◌, refl, Option, none, some, if◌then◌else◌, Eq, Named, value_beq, value_beq_iff, List,
  [], ◌∷◌,
}

pub data PhaseState : Type 0 where
  pending planning contracts_frozen running integrating awaiting_signoff awaiting_human escalated
        done failed cancelled :
      PhaseState

abbrev pub value : PhaseState → String
value pending = "PENDING"
value planning = "PLANNING"
value contracts_frozen = "CONTRACTS_FROZEN"
value running = "RUNNING"
value integrating = "INTEGRATING"
value awaiting_signoff = "AWAITING_SIGNOFF"
value awaiting_human = "AWAITING_HUMAN"
value escalated = "ESCALATED"
value done = "DONE"
value failed = "FAILED"
value cancelled = "CANCELLED"

-- The class called on a text; `none` stands for its ValueError.
abbrev pub parse : String → Option PhaseState
parse s =
    if str_eq s "PENDING"
    then some pending
    else if str_eq s "PLANNING"
    then some planning
    else if str_eq s "CONTRACTS_FROZEN"
    then some contracts_frozen
    else if str_eq s "RUNNING"
    then some running
    else if str_eq s "INTEGRATING"
    then some integrating
    else if str_eq s "AWAITING_SIGNOFF"
    then some awaiting_signoff
    else if str_eq s "AWAITING_HUMAN"
    then some awaiting_human
    else if str_eq s "ESCALATED"
    then some escalated
    else if str_eq s "DONE"
    then some done
    else if str_eq s "FAILED"
    then some failed
    else if str_eq s "CANCELLED"
    then some cancelled
    else none

pub parse-value : (x : PhaseState) → parse (value x) ≡ some x
parse-value pending = refl
parse-value _ = refl

abbrev pub phase_state_named : Named PhaseState
phase_state_named = record { value = value; parse = parse; parse-value = parse-value }

instance abbrev pub phase_state_eq : Eq PhaseState
phase_state_eq = record {
  same = value_beq phase_state_named;
  same_iff = value_beq_iff phase_state_named;
}

-- VALID_PHASE_TRANSITIONS
abbrev pub valid_transitions : PhaseState → List PhaseState
valid_transitions pending = planning ∷ cancelled ∷ []
valid_transitions planning = contracts_frozen ∷ escalated ∷ cancelled ∷ []
valid_transitions contracts_frozen = running ∷ cancelled ∷ []
valid_transitions running = integrating ∷ escalated ∷ awaiting_human ∷ cancelled ∷ []
valid_transitions integrating = awaiting_signoff ∷ running ∷ escalated ∷ cancelled ∷ []
valid_transitions awaiting_signoff = done ∷ running ∷ cancelled ∷ []
valid_transitions awaiting_human = running ∷ planning ∷ cancelled ∷ []
valid_transitions escalated =
    planning ∷ running ∷ awaiting_human ∷ awaiting_signoff ∷ failed ∷ cancelled ∷ []
valid_transitions done = []
valid_transitions failed = []
valid_transitions cancelled = []

-- _RUNNING_PHASE_STATES
abbrev pub running_states : List PhaseState
running_states = planning ∷ contracts_frozen ∷ running ∷ integrating ∷ []

-- PHASE_ESCALATION_RESOLUTIONS
abbrev pub escalation_resolutions : List (String × PhaseState)
escalation_resolutions =
    ("replan", planning)
    ∷ ("resume", running)
    ∷ ("awaiting_human", awaiting_human)
    ∷ ("failed", failed)
    ∷ ("cancelled", cancelled)
    ∷ []
