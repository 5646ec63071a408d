-- ===== src/Scheduler/Dispatch.antt =====
-- `_dispatch`, `_drive_spawns`, `_spawning_count`, `_reap` and the end of `_drive` of
-- src/sf_factory/scheduler.py. A task is named by its key; what an executor runs is not modelled
-- here, and its `spawn_roles` is a parameter.
pub mod Cap
pub mod Fair
pub mod Steps
pub mod Visits
use sf_f.Base.{
  ℕ, ◌+◌, String, Bool, true, false, not, ◌&&◌, ◌||◌, Option, none, some, List, [], ◌∷◌, ◌++◌, ◌==◌,
  string_eq, nat_eq, pair_eq, option_eq, contains, filter, length, lookup, assign, add,
  if◌then◌else◌, leb, ltb, is_none,
}
use sf_f.Base.Raises.{Result, ok, err, ◌>>=◌}
use sf_f.Config.{FactoryConfig}
use sf_f.Models.Level
use sf_f.Models.Level.{Level, level_eq}
use sf_f.Models.SchedCategory.{
  SchedCategory, waiting, runnable, running, blocked, terminal_ok, terminal_fail,
}
use sf_f.Store.Db.{Db}
use sf_f.Store.Units.{AnyUnit}
use sf_f.Store.Events.{max_event_seq}
use sf_f.Store.Escalations.{open_escalation_count}
use sf_f.Store.Decisions.{pending_decision_count}
use sf_f.Store.Settings.{get_runtime_settings}
use sf_f.Store.Settings.Effective.{max_parallel_agents, drain_manual}
use sf_f.Scheduler.Scan.{Candidate}

abbrev pub Key : Type 0
Key = Level × String

-- The fields of `Scheduler` that the dispatch reads and writes. `spawning` is a set; the dicts
-- are written out as their items.
pub record SchedState : Type 0 where
  pub tasks : List Key
  pub spawning : List Key
  pub last_seq : List (Key × ℕ)
  pub blocked_snapshot : List (Key × (ℕ × ℕ))
  pub prev_drain_manual : Bool

abbrev pub key_of : Candidate → Key
key_of c = (c.level, c.unit_id)

-- What one call of `_dispatch` reads once, before its loop.
pub record Tick : Type 0 where
  pub cap : ℕ
  pub draining : Bool
  pub drain_lifted : Bool
  pub seq : ℕ
  pub db : Db
  pub spawn_roles : Level → AnyUnit → List String

-- WAITING and the two terminal categories are passed over.
abbrev pub is_active : SchedCategory → Bool
is_active waiting = false
is_active terminal_ok = false
is_active terminal_fail = false
is_active _ = true

-- `key not in self._last_seq or seq > self._last_seq[key]`
abbrev pub advanced : ℕ → Option ℕ → Bool
advanced seq none = true
advanced seq (some n) = ltb n seq

abbrev pub snapshot : Db → Key → ℕ × ℕ
snapshot d (level, unit_id) = (
  open_escalation_count (Level.value level) unit_id d,
  pending_decision_count (Level.value level) unit_id d,
)

unfoldable pub is_eligible : Tick → SchedState → Key → SchedCategory → Bool
is_eligible t st key runnable = true
is_eligible t st key running = t.drain_lifted || advanced t.seq (lookup key st.last_seq)
is_eligible t st key _ =
    advanced t.seq (lookup key st.last_seq)
    || not (lookup key st.blocked_snapshot == some (snapshot t.db key))

abbrev is_nonempty : List String → Bool
is_nonempty [] = false
is_nonempty (x ∷ xs) = true

unfoldable pub drive_spawns : Tick → Candidate → Bool
drive_spawns t c = elim c.category [
  | runnable ↦ true
  | other ↦ is_nonempty (t.spawn_roles c.level c.unit)
]

-- `self._spawning &= set(self._tasks)`
abbrev pub reconcile : SchedState → SchedState
reconcile st = record st { spawning = filter (λ k. contains k st.tasks) st.spawning }

abbrev pub spawning_count : SchedState → ℕ
spawning_count st = length (reconcile st).spawning

abbrev pub start : Bool → Key → SchedState → SchedState
start spawns key st = record st {
  tasks = st.tasks ++ key ∷ [];
  spawning = if spawns then add key st.spawning else st.spawning;
}

-- The end of the loop's body, for a unit that is eligible: the drain hold, the cap, the new task.
-- `_spawning_count` is called, and reconciles the set, only for a drive that spawns.
unfoldable pub admit : Tick → Bool → Key → SchedState → SchedState × ℕ
admit t false key st = (start false key st, 1)
admit t true key st =
    if t.draining
    then (st, 0)
    else if leb t.cap (spawning_count st)
    then (reconcile st, 0)
    else (start true key (reconcile st), 1)

unfoldable pub visit : Tick → SchedState → Candidate → SchedState × ℕ
unfolding is_eligible drive_spawns admit
visit t st c =
    if contains (key_of c) st.tasks
    then (st, 0)
    else if not (is_active c.category)
    then (st, 0)
    else if not (is_eligible t st (key_of c) c.category)
    then (st, 0)
    else admit t (drive_spawns t c) (key_of c) st

-- The loop over the scan.
unfoldable pub rounds : Tick → SchedState → List Candidate → SchedState × ℕ
unfolding visit
rounds t st [] = (st, 0)
rounds t st (c ∷ scan) =
    let (st', n) = visit t st c in let (st'', m) = rounds t st' scan in (st'', n + m)

-- What is read before the loop; the cap is an override that may not be a number.
unfoldable pub begin_tick :
    FactoryConfig → (Level → AnyUnit → List String) → Db → SchedState → Result (Tick × SchedState)
begin_tick cfg spawn_roles d st = do
  overrides ← get_runtime_settings cfg.json d
  cap ← max_parallel_agents overrides cfg
  let draining = drain_manual overrides
  ok (
    record {
      cap = cap;
      draining = draining;
      drain_lifted = st.prev_drain_manual && not draining;
      seq = max_event_seq d;
      db = d;
      spawn_roles = spawn_roles;
    },
    record st { prev_drain_manual = draining },
  )

unfoldable pub dispatch :
    FactoryConfig
    → (Level → AnyUnit → List String)
    → List Candidate
    → Db
    → SchedState
    → Result (SchedState × ℕ)
unfolding rounds begin_tick
dispatch cfg spawn_roles scan d st = do
  (t, st') ← begin_tick cfg spawn_roles d st
  ok (rounds t st' scan)

abbrev is_other : Key → Key → Bool
is_other key k = not (k == key)

-- `_reap`: the finished tasks are forgotten, and free their slots.
unfoldable pub reap : (Key → Bool) → SchedState → SchedState
reap done st = record st {
  tasks = filter (λ k. not (done k)) st.tasks;
  spawning = filter (λ k. not (contains k st.tasks && done k)) st.spawning;
}

-- The `finally` of `_drive`, over the tables as they are then.
unfoldable pub drive_end : Db → Key → SchedState → SchedState
drive_end d key st = record st {
  spawning = filter (is_other key) st.spawning;
  last_seq = assign key (max_event_seq d) st.last_seq;
  blocked_snapshot = assign key (snapshot d key) st.blocked_snapshot;
}
