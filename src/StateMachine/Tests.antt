-- ===== src/StateMachine/Tests.antt =====
-- Runs of `transition` at concrete units, and its laws at them.
use mathlib.Core.Path.{subst}
use sf_f.Base.{
  if◌then◌else◌, ℕ, String, ◌≡◌, refl, sym, ap, true, false, none, some, List, [], ◌∷◌, ◌==◌,
  string_eq, Bool-cases, inl, inr, ==_iff, any,
}
use sf_f.Base.Raises.{ok-injective, Result, ok, err, factory_error, transition_error}
use sf_f.Models.Level.{Level, stage, phase}
use sf_f.Models.StageState.{StageState}
use sf_f.Models.UnitState.{UnitState, of_stage}
use sf_f.Models.Records.{Stage, Event}
use sf_f.Store.Table
use sf_f.Store.Db
use sf_f.Store.Db.{Db}
use sf_f.Store.Tx.{raise}
use sf_f.Store.Database.{Database, transaction}
use sf_f.Store.Events.{insert_event}
use sf_f.Store.Units.{unit_state, get_stage, get_phase, set_unit_state}
use sf_f.Models.Level
use sf_f.Models.UnitState
use sf_f.StateMachine.{coupled_writes, transition, transition_block}
use sf_f.StateMachine.History.{IsTraced, Agrees, moves, replay}
use sf_f.StateMachine.Invariant.{KeepsTraced, transition-IsTraced}
use sf_f.StateMachine.Gates.{Enters, done-Enters}
use sf_f.StateMachine.Atomic.{transition_rolls_back, transition-Moved, Moved}

abbrev pub stage_at : StageState → Stage
stage_at state = record {
  id = "S1";
  phase_id = "P1";
  name = "parser";
  risk_class = "standard";
  state = state;
  branch = none;
  worktree_path = none;
  spec_artifact_id = none;
  created_at = 0;
  updated_at = 0;
  kind = none;
}

abbrev pub moved : ℕ → String → String → Event
moved seq from to = record {
  seq = seq;
  unit_level = "stage";
  unit_id = some "S1";
  event_type = "transition";
  from_state = some from;
  to_state = some to;
  actor = "executor";
  payload = [];
  created_at = seq;
}

abbrev history : List (ℕ × Event)
history =
    (1, moved 1 "PENDING" "SPEC")
    ∷ (2, moved 2 "SPEC" "VALIDATE")
    ∷ (3, moved 3 "VALIDATE" "MERGE_GATE")
    ∷ (4, moved 4 "MERGE_GATE" "DONE")
    ∷ []

-- One stage, with the log that took it to its state.
abbrev pub tables_at : StageState → List (ℕ × Event) → Db
tables_at state rows = record Db.empty {
  stages = stage_at state ∷ [];
  events = record { rows = rows; last_id = 4 };
}

abbrev pub db_at : StageState → List (ℕ × Event) → Database
db_at state rows = record {
  is_open = true;
  read_only = false;
  in_tx = false;
  tables = tables_at state rows;
}

-- A unit other than S1 has no event in the history.
other_moves :
    (i : String)
    → ("S1" == i) ≡ false
    → any (moves stage i) (Table.values (tables_at StageState.done history).events) ≡ false
other_moves i other = rw (other, moves) refl

module _ (i : String) where
  stage-Agrees :
      (state : StageState) (rows : List (ℕ × Event))
      → Agrees stage "S1"
          (unit_state stage "S1" (tables_at state rows))
          (Table.values (tables_at state rows).events)
      → (("S1" == i) ≡ false
          → any (moves stage i) (Table.values (tables_at state rows).events) ≡ false)
      → Agrees stage i
          (unit_state stage i (tables_at state rows))
          (Table.values (tables_at state rows).events)
  unfolding get_stage
  stage-Agrees state rows here there = elim (Bool-cases ("S1" == i)) [
    | inl same ↦
        subst
          (λ x.
            Agrees stage x (unit_state stage x (tables_at state rows))
              (Table.values (tables_at state rows).events))
          ((==_iff "S1" i).0 same) here
    | inr other ↦
        subst
          (λ b.
            Agrees stage i
              (elim (if b then some (stage_at state) else none) [
                | none ↦ none
                | some s ↦ some (of_stage s.state)
              ])
              (Table.values (tables_at state rows).events))
          (sym other) (there other)
  ]

pub fresh-IsTraced : IsTraced (tables_at StageState.pending [])
unfolding get_phase get_stage replay
fresh-IsTraced = record { traced = traced }
  where
    traced :
        (level : Level) (i : String)
        → Agrees level i (unit_state level i (tables_at StageState.pending [])) []
    traced stage i = stage-Agrees i StageState.pending [] refl (λ _. refl)
    traced phase i = refl

done-IsTraced : IsTraced (tables_at StageState.done history)
unfolding get_phase get_stage replay
done-IsTraced = record { traced = traced }
  where
    traced :
        (level : Level) (i : String)
        → Agrees level i
            (unit_state level i (tables_at StageState.done history))
            (Table.values (tables_at StageState.done history).events)
    traced stage i = stage-Agrees i StageState.done history refl (other_moves i)
    traced phase i = refl

no_writes-KeepsTraced : KeepsTraced (coupled_writes none)
no_writes-KeepsTraced d d' t h = subst IsTraced (ap (λ (x : Unit × Db). x.1) (ok-injective h)) t

abbrev started : Result ℕ × Database
started =
    transition 9 "stage" "S1" "SPEC" "executor" "dispatched" none none (db_at StageState.pending [])

-- The first move of a stage.
started_returns : started.0 ≡ ok 5
unfolding transition transition_block transaction set_unit_state insert_event get_stage Table.insert
started_returns = refl

transition-IsTraced_example : IsTraced started.1.tables
transition-IsTraced_example =
    transition-IsTraced 9 "stage" "S1" "SPEC" "executor" "dispatched" none none
      (db_at StageState.pending []) no_writes-KeepsTraced fresh-IsTraced

done-Enters_example :
    Enters "S1" StageState.merge_gate (Table.values (tables_at StageState.done history).events)
unfolding get_stage
done-Enters_example = done-Enters (tables_at StageState.done history) "S1" done-IsTraced refl

-- Coupled writes that raise take the state and the event back with them.
abbrev failed : Result ℕ × Database
failed =
    transition 9 "stage" "S1" "SPEC" "executor" "dispatched" none (some (raise factory_error))
      (db_at StageState.pending [])

failed_raises : failed.0 ≡ err factory_error
unfolding transition transition_block transaction set_unit_state insert_event get_stage Table.insert
failed_raises = refl

transition_rolls_back_example : failed.1 ≡ db_at StageState.pending []
transition_rolls_back_example =
    transition_rolls_back 9 "stage" "S1" "SPEC" "executor" "dispatched" none
      (some (raise factory_error)) (db_at StageState.pending []) failed_raises

transition-Moved_example :
    (lv : Level) × (target : UnitState) × (d' : Db) × (Level.parse "stage" ≡ some lv)
    × (UnitState.parse lv "SPEC" ≡ some target)
    × Moved 9 lv "S1" target "executor" "dispatched" none none
        (tables_at StageState.pending [])
        5
        d'
    × (started.1 ≡ record (db_at StageState.pending []) { tables = d' })
transition-Moved_example =
    transition-Moved 9 "stage" "S1" "SPEC" "executor" "dispatched" none none
      (db_at StageState.pending []) started_returns

-- A move that the table does not allow is refused.
skipped :
    (transition 9 "stage" "S1" "DONE" "executor" "skip" none none (db_at StageState.pending [])).0
    ≡ err transition_error
unfolding transition transition_block transaction get_stage
skipped = refl
