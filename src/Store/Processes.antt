-- ===== src/Store/Processes.antt =====
-- The process registry of src/sf_factory/db.py. An exit code is modelled by a number.
pub mod Laws
use sf_f.Base.Integers.{ℤ}
use mathlib.Core.List.{reverse}
use sf_f.Base.{
  ℕ, String, Bool, true, false, not, ◌&&◌, Option, none, some, List, [], ◌∷◌, ◌==◌, string_eq,
  nat_eq, option_eq, find, filter, contains, is_none, if◌then◌else◌,
}
use sf_f.Base.Raises.{factory_error, sqlite_integrity_error}
use sf_f.Models.Records.{Time, ProcessRecord}
use sf_f.Store.Table
use sf_f.Store.Db.{Db}
use sf_f.Store.Tx.{Tx, ◌>>=◌, ◌>>◌, pure, gets, put, check}

abbrev pub process_states : List String
process_states = "spawned" ∷ "running" ∷ "exited" ∷ "timed_out" ∷ "killed" ∷ "orphaned" ∷ []

-- The CHECKs on `kind`, `state` and `cp_id`: a consultation, and nothing else, names its point.
abbrev pub process_fits : ProcessRecord → Bool
process_fits rec =
    contains rec.kind ("agent" ∷ "consultation" ∷ "tests" ∷ [])
    && (contains rec.state process_states
        && (if rec.kind == "consultation" then not (is_none rec.cp_id) else is_none rec.cp_id))

unfoldable pub insert_process : ProcessRecord → Tx ℕ
unfolding Table.insert
insert_process rec = do
  check (process_fits rec) sqlite_integrity_error
  id ← gets (λ d. Table.next_id d.processes)
  put (λ d. record d { processes = Table.insert (λ n. record rec { id = some n }) d.processes })
  pure id

abbrev pub is_spawned : ProcessRecord → Bool
is_spawned r = r.state == "spawned"

abbrev pub start : ℕ → Time → ProcessRecord → ProcessRecord
start pid at r = record r { state = "running"; pid = some pid; heartbeat_at = some at }

-- WHERE id = ? AND state = 'spawned'; a missing row and a row in another state both raise.
unfoldable pub mark_process_running : ℕ → ℕ → Time → Tx (Unit {0})
unfolding Table.update Table.rowcount
mark_process_running process_id pid at = do
  updated ← gets (λ d. Table.rowcount process_id is_spawned d.processes)
  check (updated == 1) factory_error
  put (λ d. record d { processes = Table.update process_id is_spawned (start pid at) d.processes })

-- The session id is written only when one is given.
abbrev pub conclude : String → Option ℤ → Time → Option String → ProcessRecord → ProcessRecord
conclude state exit_code ended_at none r = record r {
  state = state;
  exit_code = exit_code;
  ended_at = some ended_at;
}
conclude state exit_code ended_at (some sid) r = record r {
  state = state;
  exit_code = exit_code;
  ended_at = some ended_at;
  session_id = some sid;
}

unfoldable pub finalize_process : ℕ → String → Option ℤ → Time → Option String → Tx (Unit {0})
unfolding Table.update Table.rowcount
finalize_process process_id state exit_code ended_at session_id = do
  updated ← gets (λ d. Table.rowcount process_id (λ _. true) d.processes)
  check (updated == 1) factory_error
  check (contains state process_states) sqlite_integrity_error
  put (λ d. record d {
    processes =
        Table.update process_id (λ _. true) (conclude state exit_code ended_at session_id)
          d.processes;
  })

unfoldable pub heartbeat_process : ℕ → Time → Tx (Unit {0})
unfolding Table.update Table.rowcount
heartbeat_process process_id at = do
  updated ← gets (λ d. Table.rowcount process_id (λ _. true) d.processes)
  check (updated == 1) factory_error
  put (λ d. record d {
    processes =
        Table.update process_id (λ _. true) (λ r. record r { heartbeat_at = some at }) d.processes;
  })

unfoldable pub processes_in_state : String → Db → List ProcessRecord
processes_in_state state d = filter (λ r. r.state == state) (Table.values d.processes)

abbrev is_resumable : String → String → String → ProcessRecord → Bool
is_resumable unit_level unit_id role r =
    r.unit_level == some unit_level
    && (r.unit_id == some unit_id
        && (r.role == role && (not (is_none r.ended_at) && not (is_none r.session_id))))

-- ORDER BY id DESC LIMIT 1
unfoldable pub last_session_id : String → String → String → Db → Option String
last_session_id unit_level unit_id role d =
    elim (find (is_resumable unit_level unit_id role) (reverse (Table.values d.processes))) [
      | none ↦ none
      | some r ↦ r.session_id
    ]
