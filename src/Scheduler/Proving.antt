-- ===== src/Scheduler/Proving.antt =====
-- `proving_held_phase_ids` of src/sf_factory/scheduler.py: the proving-ground dispatch hold.
pub mod Held
use sf_f.Base.{
  String, Bool, true, false, not, ◌&&◌, Option, none, some, List, [], ◌∷◌, ◌++◌, ◌==◌, string_eq,
  any, contains, lookup, assign, add, if◌then◌else◌,
}
use sf_f.Config.{FactoryConfig, ProjectCfg}
use sf_f.Models.PhaseState
use sf_f.Models.PhaseState.{PhaseState, phase_state_eq}
use sf_f.Models.Records.{Phase}

-- The loop's variables: `held`, and `gating_by_project`, which remembers a project's answer.
pub record Holding : Type 0 where
  pub held : List String
  pub gating : List (String × Bool)

-- A phase row of the project that is listed and is not DONE.
abbrev pub gates : String → List String → Phase → Bool
gates project proving other =
    other.project == project && (contains other.id proving && not (other.state == PhaseState.done))

-- The answer for the project, computed at its first use and kept.
abbrev recall :
    List Phase → String → List String → List (String × Bool) → Option Bool → List (String × Bool)
recall phases project proving gating none =
    assign project (any (gates project proving) phases) gating
recall phases project proving gating (some b) = gating

abbrev remembered : List Phase → String → List String → List (String × Bool) → List (String × Bool)
remembered phases project proving gating =
    recall phases project proving gating (lookup project gating)

-- `if gating_by_project[phase.project]: held.add(phase.id)`
abbrev hold_if : String → Holding → List (String × Bool) → Option Bool → Holding
hold_if id st gating none = record st { gating = gating }
hold_if id st gating (some b) = record st {
  held = if b then add id st.held else st.held;
  gating = gating;
}

abbrev hold : String → String → Holding → List (String × Bool) → Holding
hold project id st gating = hold_if id st gating (lookup project gating)

-- An empty list is no hold, and a phase that is listed is never held.
abbrev consider : List Phase → Holding → Phase → List String → Holding
consider phases st phase [] = st
consider phases st phase (p ∷ ps) =
    if contains phase.id (p ∷ ps)
    then st
    else hold phase.project phase.id st (remembered phases phase.project (p ∷ ps) st.gating)

abbrev consider_project : List Phase → Holding → Phase → Option ProjectCfg → Holding
consider_project phases st phase none = st
consider_project phases st phase (some project) = consider phases st phase project.proving_phases

-- One round of the loop; the `continue`s return the variables unchanged.
visit : FactoryConfig → List Phase → Holding → Phase → Holding
visit cfg phases st phase =
    if phase.state == PhaseState.pending
    then consider_project phases st phase (lookup phase.project cfg.projects)
    else st

rounds : FactoryConfig → List Phase → Holding → List Phase → Holding
rounds cfg phases st [] = st
rounds cfg phases st (phase ∷ rest) = rounds cfg phases (visit cfg phases st phase) rest

unfoldable pub proving_held_phase_ids : FactoryConfig → List Phase → List String
unfolding rounds visit
proving_held_phase_ids cfg phases =
    (rounds cfg phases (record { held = []; gating = [] }) phases).held
