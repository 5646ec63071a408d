-- ===== src/Scheduler/Scan.antt =====
-- `_levels` and `_scan_units` of src/sf_factory/scheduler.py: one categorized pass over all units.
use sf_f.Base.{String, true, List, [], ◌∷◌, ◌++◌, ◌==◌, string_eq, contains, if◌then◌else◌}
use sf_f.Base.Raises.{Result, ok, ◌>>=◌}
use sf_f.Config.{FactoryConfig}
use sf_f.Models.Level.{Level, stage, phase, level_eq}
use sf_f.Models.StageState
use sf_f.Models.PhaseState
use sf_f.Models.SchedCategory.{SchedCategory, runnable, waiting, sched_category}
use sf_f.Models.Records.{Phase}
use sf_f.Store.Db.{Db}
use sf_f.Store.Units.{AnyUnit, a_phase, a_stage, list_units}
use sf_f.Store.Dag.{deps_done}
use sf_f.Scheduler.Proving.{proving_held_phase_ids}

-- A row of the scan: the tuple (level, unit id, category, unit).
pub record Candidate : Type 0 where
  pub level : Level
  pub unit_id : String
  pub category : SchedCategory
  pub unit : AnyUnit

abbrev pub id_of : AnyUnit → String
id_of (a_phase p) = p.id
id_of (a_stage s) = s.id

abbrev pub state_of : AnyUnit → String
state_of (a_phase p) = PhaseState.value p.state
state_of (a_stage s) = StageState.value s.state

-- `[u for u in units if isinstance(u, Phase)]`
abbrev phases_of : List AnyUnit → List Phase
phases_of [] = []
phases_of (a_phase p ∷ units) = p ∷ phases_of units
phases_of (a_stage s ∷ units) = phases_of units

-- Only the phase level has a hold.
abbrev held_at : FactoryConfig → Level → List AnyUnit → List String
held_at cfg phase units = proving_held_phase_ids cfg (phases_of units)
held_at cfg stage units = []

-- `deps_done` is asked for a PENDING unit alone; a held unit that is RUNNABLE waits.
abbrev pub after_hold : List String → String → SchedCategory → SchedCategory
after_hold held unit_id runnable = if contains unit_id held then waiting else runnable
after_hold held unit_id category = category

unfoldable pub candidate : Db → Level → List String → AnyUnit → Result Candidate
candidate d level held unit = do
  category ←
      sched_category level (state_of unit)
        (if state_of unit == "PENDING" then deps_done level (id_of unit) d else true)
  ok (record {
    level = level;
    unit_id = id_of unit;
    category = after_hold held (id_of unit) category;
    unit = unit;
  })

scan_level : Db → Level → List String → List AnyUnit → Result (List Candidate)
scan_level d level held [] = ok []
scan_level d level held (unit ∷ units) = do
  c ← candidate d level held unit
  rest ← scan_level d level held units
  ok (c ∷ rest)

-- `levels` is `_levels()`: the keys of the executors, phase before stage.
unfoldable pub scan_units : FactoryConfig → List Level → Db → Result (List Candidate)
unfolding candidate scan_level
scan_units cfg [] d = ok []
scan_units cfg (level ∷ levels) d = do
  found ← scan_level d level (held_at cfg level (list_units level [] d)) (list_units level [] d)
  rest ← scan_units cfg levels d
  ok (found ++ rest)
