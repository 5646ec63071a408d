-- ===== src/Models/UnitState.antt =====
-- A concrete unit state of either level, the transition tables selected by `Level`, and the
-- coercion of a text to a state of a level (src/sf_factory/statemachine.py and models.py).
use mathlib.Core.Path.{subst}
use sf_f.Base.{
  Option-cases, inl, inr, ◌≡◌, String, Option, none, some, List, map, string_eq, contains, Bool,
}
use sf_f.Models.Level.{Level, stage, phase}
use sf_f.Models.StageState
use sf_f.Models.StageState.{StageState}
use sf_f.Models.PhaseState
use sf_f.Models.PhaseState.{PhaseState}

-- `type UnitState = StageState | PhaseState`
pub data UnitState : Type 0 where
  of_stage : StageState → UnitState
  of_phase : PhaseState → UnitState

abbrev pub value : UnitState → String
value (of_stage s) = StageState.value s
value (of_phase p) = PhaseState.value p

abbrev pub level_of : UnitState → Level
level_of (of_stage s) = stage
level_of (of_phase p) = phase

-- `StageState(state)` or `PhaseState(state)`; `none` stands for the ValueError.
abbrev pub parse : Level → String → Option UnitState
parse stage s = elim (StageState.parse s) [ none ↦ none | some x ↦ some (of_stage x) ]
parse phase s = elim (PhaseState.parse s) [ none ↦ none | some x ↦ some (of_phase x) ]

-- `_transition_table(level)[current]`
abbrev pub transitions : UnitState → List UnitState
transitions (of_stage s) = map of_stage (StageState.valid_transitions s)
transitions (of_phase p) = map of_phase (PhaseState.valid_transitions p)

-- Members of two enumerations that share a text are equal in Python, but a table holds the states of
-- one level, and the target is coerced to that level: so the texts decide membership.
abbrev pub allowed : UnitState → UnitState → Bool
allowed u v = contains (value v) (map value (transitions u))

-- A state that a text was read as is read back from its own text.
pub parse-value_of :
    (level : Level) (text : String) (u : UnitState)
    → parse level text ≡ some u
    → parse level (value u) ≡ some u
parse-value_of stage text u h = elim (Option-cases (StageState.parse text)) [
  | inl missing ↦ cc (rw (missing, parse) at h)
  | inr (s, found) ↦
      let e : of_stage s ≡ u = cc (rw (found, parse) at h) in
      subst (λ x. parse stage (value x) ≡ some x) e (rw (StageState.parse-value s, parse))
]
parse-value_of phase text u h = elim (Option-cases (PhaseState.parse text)) [
  | inl missing ↦ cc (rw (missing, parse) at h)
  | inr (s, found) ↦
      let e : of_phase s ≡ u = cc (rw (found, parse) at h) in
      subst (λ x. parse phase (value x) ≡ some x) e (rw (PhaseState.parse-value s, parse))
]
