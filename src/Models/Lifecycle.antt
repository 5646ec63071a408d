-- ===== src/Models/Lifecycle.antt =====
-- What the transition tables of src/sf_factory/models.py allow a unit to do in its life.
use sf_f.Base.{
  String, ◌≡◌, ◌≢◌, refl, Option, none, some, List, [], ◌∷◌, Bool, true, false, inl, inr, arith,
  lookup, lookup-All, if◌then◌else◌, Option-cases, string_eq,
}
use sf_f.Base.Raises.{Result, ok, err, transition_error}
use mathlib.Core.Path.{subst}
use sf_f.Models.Level.{Level, stage, phase}
use sf_f.Models.StageState
use sf_f.Models.StageState.{StageState}
use sf_f.Models.PhaseState
use sf_f.Models.PhaseState.{PhaseState}
use sf_f.Models.UnitState
use sf_f.Models.UnitState.{UnitState, of_stage, of_phase, transitions, allowed}
use sf_f.Models.SchedCategory.{
  SchedCategory, blocked, running, category_of, terminal_ok, terminal_fail, runnable, waiting,
  sched_category,
}

abbrev pub is_terminal : Result SchedCategory → Bool
is_terminal (ok terminal_ok) = true
is_terminal (ok terminal_fail) = true
is_terminal _ = false

abbrev pub is_empty : {A : Type 0} → List A → Bool
is_empty [] = true
is_empty (x ∷ xs) = false

-- A unit is in a terminal scheduling category exactly when its state has no way out.
pub sched_category-terminal :
    (u : UnitState) (deps : Bool)
    → is_terminal (sched_category (UnitState.level_of u) (UnitState.value u) deps)
      ≡ is_empty (transitions u)
unfolding sched_category
sched_category-terminal (of_stage StageState.pending) deps = ground arith
sched_category-terminal (of_stage _) deps = refl
sched_category-terminal (of_phase PhaseState.pending) deps = ground arith
sched_category-terminal (of_phase _) deps = refl

-- The scheduling category of a state, by cases.
abbrev category : UnitState → Bool → SchedCategory
category (of_stage StageState.pending) deps = if deps then runnable else waiting
category (of_stage StageState.done) deps = terminal_ok
category (of_stage StageState.failed) deps = terminal_fail
category (of_stage StageState.cancelled) deps = terminal_fail
category (of_stage StageState.awaiting_human) deps = blocked
category (of_stage StageState.escalated) deps = blocked
category (of_stage _) deps = running
category (of_phase PhaseState.pending) deps = if deps then runnable else waiting
category (of_phase PhaseState.done) deps = terminal_ok
category (of_phase PhaseState.failed) deps = terminal_fail
category (of_phase PhaseState.cancelled) deps = terminal_fail
category (of_phase PhaseState.awaiting_human) deps = blocked
category (of_phase PhaseState.awaiting_signoff) deps = blocked
category (of_phase PhaseState.escalated) deps = blocked
category (of_phase _) deps = running

abbrev pub category? : Option UnitState → Bool → Result SchedCategory
category? none deps = err transition_error
category? (some u) deps = ok (category u deps)

category_of-eq :
    (u : UnitState) (deps : Bool) → category_of (UnitState.value u) deps ≡ ok (category u deps)
unfolding category_of
category_of-eq (of_stage StageState.pending) deps = refl
category_of-eq (of_stage _) deps = refl
category_of-eq (of_phase PhaseState.pending) deps = refl
category_of-eq (of_phase _) deps = refl

-- For every level and text: a text that names no state of the level is refused with TransitionError,
-- and any other gets the category of its state by the table of cases; the assertion never fails.
pub sched_category_lem :
    (level : Level) (state : String) (deps : Bool)
    → sched_category level state deps ≡ category? (UnitState.parse level state) deps
unfolding sched_category
sched_category_lem level state deps = elim (Option-cases (UnitState.parse level state)) [
  | inl missing ↦ rw missing
  | inr (u, found) ↦ rw found (category_of-eq u deps)
]

-- A route through the transition table.
pub data Route (v : UnitState) : UnitState → Type 0 where
  here : Route v v
  step : {u w : UnitState} → allowed u w ≡ true → Route v w → Route v u

merge_gate-Route : Route (of_stage StageState.done) (of_stage StageState.merge_gate)
merge_gate-Route = step {w = of_stage StageState.done} refl here

build-Route : Route (of_stage StageState.done) (of_stage StageState.build)
build-Route =
    step {w = of_stage StageState.validate} refl
      (step {w = of_stage StageState.merge_gate} refl merge_gate-Route)

stage_Route :
    (s : StageState)
    → is_empty (StageState.valid_transitions s) ≡ false
    → Route (of_stage StageState.done) (of_stage s)
stage_Route StageState.pending h =
    step {w = of_stage StageState.spec} refl (step {w = of_stage StageState.build} refl build-Route)
stage_Route StageState.build h = build-Route
stage_Route StageState.merge_gate h = merge_gate-Route
stage_Route StageState.validate h = step {w = of_stage StageState.merge_gate} refl merge_gate-Route
stage_Route StageState.done h = cc
stage_Route StageState.failed h = cc
stage_Route StageState.cancelled h = cc
stage_Route _ h = step {w = of_stage StageState.build} refl build-Route

running-Route : Route (of_phase PhaseState.done) (of_phase PhaseState.running)
running-Route = step {w = of_phase PhaseState.integrating} refl (
    step {w = of_phase PhaseState.awaiting_signoff} refl
      (step {w = of_phase PhaseState.done} refl here))

planning-Route : Route (of_phase PhaseState.done) (of_phase PhaseState.planning)
planning-Route =
    step {w = of_phase PhaseState.contracts_frozen} refl
      (step {w = of_phase PhaseState.running} refl running-Route)

phase_Route :
    (p : PhaseState)
    → is_empty (PhaseState.valid_transitions p) ≡ false
    → Route (of_phase PhaseState.done) (of_phase p)
phase_Route PhaseState.pending h = step {w = of_phase PhaseState.planning} refl planning-Route
phase_Route PhaseState.planning h = planning-Route
phase_Route PhaseState.running h = running-Route
phase_Route PhaseState.done h = cc
phase_Route PhaseState.failed h = cc
phase_Route PhaseState.cancelled h = cc
phase_Route _ h = step {w = of_phase PhaseState.running} refl running-Route

abbrev pub done_of : UnitState → UnitState
done_of (of_stage s) = of_stage StageState.done
done_of (of_phase p) = of_phase PhaseState.done

abbrev cancelled_of : UnitState → UnitState
cancelled_of (of_stage s) = of_stage StageState.cancelled
cancelled_of (of_phase p) = of_phase PhaseState.cancelled

abbrev pub is_cancellable : UnitState → Bool
is_cancellable u = allowed u (cancelled_of u)

-- Every state that is not terminal has a route to DONE through its table, and may be cancelled at
-- once: no state of the tables wedges a unit.
pub not_terminal-Route :
    (u : UnitState)
    → is_empty (transitions u) ≡ false
    → Route (done_of u) u × (is_cancellable u ≡ true)
not_terminal-Route (of_stage StageState.pending) h = (stage_Route StageState.pending h, refl)
not_terminal-Route (of_stage StageState.done) h = cc
not_terminal-Route (of_stage StageState.failed) h = cc
not_terminal-Route (of_stage StageState.cancelled) h = cc
not_terminal-Route (of_stage s) h = (stage_Route s refl, refl)
not_terminal-Route (of_phase PhaseState.pending) h = (phase_Route PhaseState.pending h, refl)
not_terminal-Route (of_phase PhaseState.done) h = cc
not_terminal-Route (of_phase PhaseState.failed) h = cc
not_terminal-Route (of_phase PhaseState.cancelled) h = cc
not_terminal-Route (of_phase p) h = (phase_Route p refl, refl)

-- Where the vocabulary of a level's escalations sends a resolution.
abbrev pub resolution_target : Level → String → Option UnitState
resolution_target stage r = elim (lookup r StageState.escalation_resolutions) [
  | none ↦ none
  | some s ↦ some (of_stage s)
]
resolution_target phase r = elim (lookup r PhaseState.escalation_resolutions) [
  | none ↦ none
  | some p ↦ some (of_phase p)
]

abbrev pub escalated_at : Level → UnitState
escalated_at stage = of_stage StageState.escalated
escalated_at phase = of_phase PhaseState.escalated

-- Every resolution that the vocabulary of a level's escalations names leads to a state that the level's
-- transition table allows from ESCALATED.
pub escalation_resolutions-allowed :
    (level : Level) (r : String) (u : UnitState)
    → resolution_target level r ≡ some u
    → allowed (escalated_at level) u ≡ true
escalation_resolutions-allowed stage r u h =
    elim (Option-cases (lookup r StageState.escalation_resolutions)) [
      | inl missing ↦ cc (rw (missing, resolution_target) at h)
      | inr (s, found) ↦
          let e : of_stage s ≡ u = cc (rw (found, resolution_target) at h) in
          subst (λ x. allowed (of_stage StageState.escalated) x ≡ true) e
            (lookup-All (λ t. allowed (of_stage StageState.escalated) (of_stage t) ≡ true) r
              StageState.escalation_resolutions
              (refl, (refl, (refl, (refl, (refl, (refl, (refl, (refl, (refl, tt))))))))) found)
    ]
escalation_resolutions-allowed phase r u h =
    elim (Option-cases (lookup r PhaseState.escalation_resolutions)) [
      | inl missing ↦ cc (rw (missing, resolution_target) at h)
      | inr (p, found) ↦
          let e : of_phase p ≡ u = cc (rw (found, resolution_target) at h) in
          subst (λ x. allowed (of_phase PhaseState.escalated) x ≡ true) e
            (lookup-All (λ t. allowed (of_phase PhaseState.escalated) (of_phase t) ≡ true) r
              PhaseState.escalation_resolutions (refl, (refl, (refl, (refl, (refl, tt))))) found)
    ]

abbrev Entry : StageState → StageState → Type 0
Entry s t =
    (t ≢ StageState.pending)
    × (t ≡ StageState.failed → s ≡ StageState.escalated)
    × (t ≡ StageState.done → s ≡ StageState.merge_gate)

abbrev PhaseEntry : PhaseState → PhaseState → Type 0
PhaseEntry s t =
    (t ≢ PhaseState.pending)
    × (t ≡ PhaseState.failed → s ≡ PhaseState.escalated)
    × (t ≡ PhaseState.done → s ≡ PhaseState.awaiting_signoff)

stage-Entry : (s t : StageState) → allowed (of_stage s) (of_stage t) ≡ true → Entry s t
stage-Entry StageState.pending StageState.pending h = cc
stage-Entry StageState.spec StageState.pending h = cc
stage-Entry StageState.spec_audit StageState.pending h = cc
stage-Entry StageState.build StageState.pending h = cc
stage-Entry StageState.validate StageState.pending h = cc
stage-Entry StageState.audit StageState.pending h = cc
stage-Entry StageState.awaiting_human StageState.pending h = cc
stage-Entry StageState.merge_gate StageState.pending h = cc
stage-Entry StageState.escalated StageState.pending h = cc
stage-Entry StageState.done StageState.pending h = cc
stage-Entry StageState.failed StageState.pending h = cc
stage-Entry StageState.cancelled StageState.pending h = cc
stage-Entry _ _ h = ground arith

phase-PhaseEntry : (s t : PhaseState) → allowed (of_phase s) (of_phase t) ≡ true → PhaseEntry s t
phase-PhaseEntry PhaseState.pending PhaseState.pending h = cc
phase-PhaseEntry PhaseState.planning PhaseState.pending h = cc
phase-PhaseEntry PhaseState.contracts_frozen PhaseState.pending h = cc
phase-PhaseEntry PhaseState.running PhaseState.pending h = cc
phase-PhaseEntry PhaseState.integrating PhaseState.pending h = cc
phase-PhaseEntry PhaseState.awaiting_signoff PhaseState.pending h = cc
phase-PhaseEntry PhaseState.awaiting_human PhaseState.pending h = cc
phase-PhaseEntry PhaseState.escalated PhaseState.pending h = cc
phase-PhaseEntry PhaseState.done PhaseState.pending h = cc
phase-PhaseEntry PhaseState.failed PhaseState.pending h = cc
phase-PhaseEntry PhaseState.cancelled PhaseState.pending h = cc
phase-PhaseEntry _ _ h = ground arith

-- On either level no transition leads back to PENDING, and FAILED is entered only from ESCALATED. A
-- stage becomes DONE only from MERGE_GATE, and a phase only from AWAITING_SIGNOFF.
pub allowed-Entry :
    ((s t : StageState) → allowed (of_stage s) (of_stage t) ≡ true → Entry s t)
    × ((s t : PhaseState) → allowed (of_phase s) (of_phase t) ≡ true → PhaseEntry s t)
allowed-Entry = (stage-Entry, phase-PhaseEntry)
