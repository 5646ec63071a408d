-- ===== src/Scheduler/Dispatch/Steps.antt =====
-- The life of the scheduler's state: dispatches, reaped tasks and drives that end, in any order.
use mathlib.Core.Path.{subst}
use sf_f.Base.{
  contains-filter, ℕ, ◌≤◌, String, ◌≡◌, refl, Bool, true, not, ◌&&◌, List, [], ◌∷◌, pair_eq,
  string_eq, contains, filter, length, all, all-filter_mono, length-filter-le, arith,
}
use sf_f.Base.Raises.{ok}
use sf_f.Config.{FactoryConfig}
use sf_f.Models.Level.{Level, level_eq}
use sf_f.Models.Json.{Json}
use sf_f.Store.Db.{Db}
use sf_f.Store.Units.{AnyUnit}
use sf_f.Store.Settings.{get_runtime_settings}
use sf_f.Store.Settings.Effective.{max_parallel_agents, drain_manual}
use sf_f.Scheduler.Scan.{Candidate}
use sf_f.Scheduler.Dispatch.{
  max_event_seq, Key, SchedState, Tick, rounds, dispatch, begin_tick, reap, drive_end,
}
use sf_f.Scheduler.Dispatch.Cap.{Bounded, rounds-Bounded}

-- One step; a dispatch reads a cap of at most `n`.
pub data Step (cfg : FactoryConfig) (n : ℕ) : SchedState → SchedState → Type 0 where
  dispatched :
      (spawn_roles : Level → AnyUnit → List String) (scan : List Candidate) (d : Db)
      {overrides : List (String × Json)} {cap k : ℕ} {st st' : SchedState}
      → get_runtime_settings cfg.json d ≡ ok overrides
      → max_parallel_agents overrides cfg ≡ ok cap
      → cap ≤ n
      → dispatch cfg spawn_roles scan d st ≡ ok (st', k)
      → Step cfg n st st'
  reaped : (done : Key → Bool) {st : SchedState} → Step cfg n st (reap done st)
  ended : (d : Db) (key : Key) {st : SchedState} → Step cfg n st (drive_end d key st)

pub data Run (cfg : FactoryConfig) (n : ℕ) (first : SchedState) : SchedState → Type 0 where
  start : Run cfg n first first
  step : {st st' : SchedState} → Run cfg n first st → Step cfg n st st' → Run cfg n first st'

dispatch-Bounded :
    (cfg : FactoryConfig) (spawn_roles : Level → AnyUnit → List String) (scan : List Candidate)
    (d : Db) (n : ℕ) (st : SchedState) {overrides : List (String × Json)} {cap k : ℕ}
    {st' : SchedState}
    → get_runtime_settings cfg.json d ≡ ok overrides
    → max_parallel_agents overrides cfg ≡ ok cap
    → cap ≤ n
    → dispatch cfg spawn_roles scan d st ≡ ok (st', k)
    → Bounded n st
    → Bounded n st'
unfolding dispatch begin_tick
dispatch-Bounded cfg spawn_roles scan d n st {overrides} {cap} {k} {st'} found read h run b =
    let t : Tick = record {
      cap = cap;
      draining = drain_manual overrides;
      drain_lifted = st.prev_drain_manual && not (drain_manual overrides);
      seq = max_event_seq d;
      db = d;
      spawn_roles = spawn_roles;
    } in
    let run' : rounds t (record st { prev_drain_manual = drain_manual overrides }) scan ≡ (st', k) =
      cc (rw (found, read) at run) in
    subst (λ x. Bounded n (x.0)) run'
      (rounds-Bounded t n (record st { prev_drain_manual = drain_manual overrides }) scan h b)

-- A finished task leaves with its slot.
keeps_slot :
    (tasks : List Key) (done : Key → Bool) (spawning : List Key)
    → all (λ k. contains k tasks) spawning ≡ true
    → all
        (λ k. contains k (filter (λ j. not (done j)) tasks))
        (filter (λ k. not (contains k tasks && done k)) spawning)
      ≡ true
keeps_slot tasks done [] h = refl
keeps_slot tasks done (k ∷ spawning) h =
    ground (arith, contains-filter (λ j. not (done j)) k tasks, keeps_slot tasks done spawning)

filter-le : (p : Key → Bool) (xs : List Key) (n : ℕ) → length xs ≤ n → length (filter p xs) ≤ n
filter-le p xs n h = omega (arith, length-filter-le p xs)

reap-Bounded :
    (n : ℕ) (done : Key → Bool) (st : SchedState) → Bounded n st → Bounded n (reap done st)
unfolding reap
reap-Bounded n done st b = (keeps_slot st.tasks done st.spawning b.0, filter-le _ st.spawning n b.1)

drive_end-Bounded :
    (n : ℕ) (d : Db) (key : Key) (st : SchedState) → Bounded n st → Bounded n (drive_end d key st)
unfolding drive_end
drive_end-Bounded n d key st b =
    (all-filter_mono (λ k. contains k st.tasks) _ st.spawning b.0, filter-le _ st.spawning n b.1)

Step-Bounded :
    (cfg : FactoryConfig) (n : ℕ) {st st' : SchedState}
    → Step cfg n st st'
    → Bounded n st
    → Bounded n st'
Step-Bounded cfg n {st} (dispatched spawn_roles scan d found read h run) b =
    dispatch-Bounded cfg spawn_roles scan d n st found read h run b
Step-Bounded cfg n {st} (reaped done) b = reap-Bounded n done st b
Step-Bounded cfg n {st} (ended d key) b = drive_end-Bounded n d key st b

-- However dispatches, reaped tasks and ended drives follow each other: while no dispatch reads a cap
-- above `n`, at most `n` drives hold a slot, and each of them is a live task, if it was so at first.
pub Run-Bounded :
    (cfg : FactoryConfig) (n : ℕ) {first st : SchedState}
    → Run cfg n first st
    → Bounded n first
    → Bounded n st
Run-Bounded cfg n start b = b
Run-Bounded cfg n (step run s) b = Step-Bounded cfg n s (Run-Bounded cfg n run b)
