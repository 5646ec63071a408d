-- ===== src/Models/SchedCategory.antt =====
-- `SchedCategory` and `sched_category` of src/sf_factory/models.py.
use sf_f.Base.{
  String, List, [], ◌∷◌, ◌++◌, map, Bool, ◌||◌, ◌==◌, string_eq, contains, if◌then◌else◌,
}
use sf_f.Base.Raises.{Result, ok, err, transition_error, assertion_error, ◌>>=◌, require_some}
use sf_f.Models.Level.{Level}
use sf_f.Models.StageState
use sf_f.Models.PhaseState
use sf_f.Models.UnitState
use sf_f.Models.UnitState.{UnitState}

pub data SchedCategory : Type 0 where
  waiting runnable running blocked terminal_ok terminal_fail : SchedCategory

-- _BLOCKED_STATES
abbrev pub blocked_states : List String
blocked_states = "AWAITING_HUMAN" ∷ "AWAITING_SIGNOFF" ∷ "ESCALATED" ∷ []

-- _RUNNING_STAGE_STATES | _RUNNING_PHASE_STATES
abbrev pub in_flight : List String
in_flight =
    map StageState.value StageState.running_states ++ map PhaseState.value PhaseState.running_states

-- The tests on `concrete.value`, the assertion included.
unfoldable pub category_of : String → Bool → Result SchedCategory
category_of v deps_done =
    if v == "PENDING"
    then ok (if deps_done then runnable else waiting)
    else if v == "DONE"
    then ok terminal_ok
    else if v == "FAILED" || v == "CANCELLED"
    then ok terminal_fail
    else if contains v blocked_states
    then ok blocked
    else if contains v in_flight
    then ok running
    else err assertion_error

unfoldable pub sched_category : Level → String → Bool → Result SchedCategory
unfolding category_of
sched_category level state deps_done = do
  concrete ← require_some (UnitState.parse level state) transition_error
  category_of (UnitState.value concrete) deps_done
