-- ===== src/Store/Units/Laws.antt =====
-- What the writes to the unit tables do to the state of every unit.
use mathlib.Core.Path.{subst}
use sf_f.Base.Raises.{ok}
use sf_f.Models.StageState
use sf_f.Models.PhaseState
use sf_f.Models.UnitState
use sf_f.Base.{
  false, ◌&&◌, Bool-cases, Option-cases, inl, inr, count, String, ◌≡◌, refl, Bool, Option, none,
  some, ◌==◌, string_eq, find-update_where, update_where, arith, if◌then◌else◌, nat_eq,
}
use sf_f.Models.Level.{Level, stage, phase, level_eq}
use sf_f.Models.StageState.{StageState}
use sf_f.Models.PhaseState.{PhaseState}
use sf_f.Models.UnitState.{UnitState, of_stage, of_phase}
use sf_f.Models.Records.{Time, Phase, Stage}
use sf_f.Store.Db.{Db}
use sf_f.Store.Units.{get_phase, get_stage, unit_state, set_unit_state}

-- What a write of state `v` to one unit does to the state of a unit.
abbrev pub overwrite : Bool → UnitState → Option UnitState → Option UnitState
overwrite hit v none = none
overwrite hit v (some u) = some (if hit then v else u)

abbrev restate : Time → StageState → Stage → Stage
restate now v s = record s { state = v; updated_at = now }

abbrev restate_phase : Time → PhaseState → Phase → Phase
restate_phase now v p = record p { state = v; updated_at = now }

stage_written :
    (now : Time) (v : StageState) (k i : String) (d : Db)
    → unit_state stage i
        (record d { stages = update_where (λ s. s.id == k) (restate now v) d.stages })
      ≡ overwrite (k == i) (of_stage v) (unit_state stage i d)
unfolding get_stage
stage_written now v k i d =
    ground (arith, find-update_where (λ (s : Stage). s.id) (restate now v) k i d.stages (λ s. refl))

phase_written :
    (now : Time) (v : PhaseState) (k i : String) (d : Db)
    → unit_state phase i
        (record d { phases = update_where (λ p. p.id == k) (restate_phase now v) d.phases })
      ≡ overwrite (k == i) (of_phase v) (unit_state phase i d)
unfolding get_phase
phase_written now v k i d =
    ground (
      arith,
      find-update_where (λ (p : Phase). p.id) (restate_phase now v) k i d.phases (λ p. refl),
    )

-- The tables after a write of state `v` to the unit: its state is `v`, every other unit has the state
-- that it had, and no event was written.
pub record Written (level : Level) (unit_id : String) (v : UnitState) (d d' : Db) : Type 0 where
  pub states :
      (l : Level) (i : String)
      → unit_state l i d' ≡ overwrite (level == l && unit_id == i) v (unit_state l i d)
  pub events : d'.events ≡ d.events

pub overwrite_miss : (v : UnitState) (o : Option UnitState) → o ≡ overwrite false v o
overwrite_miss v none = refl
overwrite_miss v (some u) = refl

stage-Written :
    (now : Time) (v : StageState) (k : String) (d : Db)
    → Written stage k
        (of_stage v)
        d
        (record d { stages = update_where (λ s. s.id == k) (restate now v) d.stages })
unfolding get_phase
stage-Written now v k d = record { states = states; events = refl }
  where
    states :
        (l : Level) (i : String)
        → unit_state l i
            (record d { stages = update_where (λ s. s.id == k) (restate now v) d.stages })
          ≡ overwrite (stage == l && k == i) (of_stage v) (unit_state l i d)
    states stage i = stage_written now v k i d
    states phase i = overwrite_miss (of_stage v) (unit_state phase i d)

phase-Written :
    (now : Time) (v : PhaseState) (k : String) (d : Db)
    → Written phase k
        (of_phase v)
        d
        (record d { phases = update_where (λ p. p.id == k) (restate_phase now v) d.phases })
unfolding get_stage
phase-Written now v k d = record { states = states; events = refl }
  where
    states :
        (l : Level) (i : String)
        → unit_state l i
            (record d { phases = update_where (λ p. p.id == k) (restate_phase now v) d.phases })
          ≡ overwrite (phase == l && k == i) (of_phase v) (unit_state l i d)
    states phase i = phase_written now v k i d
    states stage i = overwrite_miss (of_phase v) (unit_state stage i d)

-- A write that succeeds was given a state of the level: the unit then has that state, every other unit
-- of either level has the state that it had, and no event was written.
pub set_unit_state-Written :
    (now : Time) (level : Level) (unit_id state : String) (d : Db) {x : Unit {0}} {d' : Db}
    → set_unit_state now level unit_id state d ≡ ok (x, d')
    → (v : UnitState) × (UnitState.parse level state ≡ some v) × Written level unit_id v d d'
unfolding set_unit_state
set_unit_state-Written now stage unit_id state d {d' = d'} h =
    elim (Bool-cases (count (λ s. s.id == unit_id) d.stages == 1)) [
      | inl one ↦ elim (Option-cases (StageState.parse state)) [
        | inl bad ↦ cc (rw (one, bad) at h)
        | inr (v, good) ↦
            let e : record d {
              stages = update_where (λ s. s.id == unit_id) (restate now v) d.stages;
            }
                ≡ d' =
              cc (rw (one, good) at h) in
            (
              of_stage v,
              rw (good, UnitState.parse),
              subst (Written stage unit_id (of_stage v) d) e (stage-Written now v unit_id d),
            )
      ]
      | inr other ↦ cc (rw other at h)
    ]
set_unit_state-Written now phase unit_id state d {d' = d'} h =
    elim (Bool-cases (count (λ p. p.id == unit_id) d.phases == 1)) [
      | inl one ↦ elim (Option-cases (PhaseState.parse state)) [
        | inl bad ↦ cc (rw (one, bad) at h)
        | inr (v, good) ↦
            let e : record d {
              phases = update_where (λ p. p.id == unit_id) (restate_phase now v) d.phases;
            }
                ≡ d' =
              cc (rw (one, good) at h) in
            (
              of_phase v,
              rw (good, UnitState.parse),
              subst (Written phase unit_id (of_phase v) d) e (phase-Written now v unit_id d),
            )
      ]
      | inr other ↦ cc (rw other at h)
    ]
