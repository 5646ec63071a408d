-- ===== src/Scheduler/Dispatch/Fair.antt =====
-- Which units a dispatch of src/sf_factory/scheduler.py gives a task.
use mathlib.Core.Path.{subst}
use sf_f.Base.Raises.{ok-injective, ok, >>=-eq-ok}
use sf_f.Base.{
  ==_iff, ℕ, String, ◌≡◌, refl, sym, ap, ◌∙◌, Bool, true, false, not, ◌&&◌, ◌||◌, List, [], ◌∷◌,
  ◌==◌, pair_eq, string_eq, contains, any, arith, Bool-cases, inl, inr,
}
use sf_f.Models.Level.{Level, level_eq}
use sf_f.Scheduler.Scan.{Candidate}
use sf_f.Scheduler.Dispatch.{
  get_runtime_settings, max_parallel_agents, ok, Db, AnyUnit, begin_tick, FactoryConfig, dispatch,
  Key, SchedState, Tick, key_of, visit, rounds, drive_spawns, is_active,
}
use sf_f.Scheduler.Dispatch.Visits.{
  SameClocks, visit-SameClocks, is_eligible-SameClocks, may_start, starts_freely, visit-has,
  visit-keeps, visit-adds, or_left,
}

-- The unit named by `k` is in the scan and has the property.
abbrev pub names : Key → (Candidate → Bool) → List Candidate → Bool
names k p scan = any (λ c. k == key_of c && p c) scan

rounds-keeps :
    (t : Tick) (st : SchedState) (scan : List Candidate) (k : Key)
    → contains k st.tasks ≡ true
    → contains k (rounds t st scan).0.tasks ≡ true
unfolding rounds
rounds-keeps t st [] k h = h
rounds-keeps t st (c ∷ scan) k h = rounds-keeps t (visit t st c).0 scan k (visit-keeps t st c k h)

may_start-SameClocks :
    (t : Tick) (a b : SchedState) (c : Candidate)
    → SameClocks a b
    → may_start t b c ≡ may_start t a c
may_start-SameClocks t a b c s =
    ap (λ x. is_active c.category && x) (is_eligible-SameClocks t a b (key_of c) c.category s)

visit-same :
    (t : Tick) (first st : SchedState) (c : Candidate)
    → SameClocks first st
    → SameClocks first (visit t st c).0
visit-same t first st c s = let v = visit-SameClocks t st c in (v.0 ∙ s.0, v.1 ∙ s.1)

and_true : (a b : Bool) → (a && b) ≡ true → (a ≡ true) × (b ≡ true)
and_true a b h = ground arith

spread :
    (v old now then_ here rest : Bool)
    → (v || rest) ≡ true
    → (v ≡ true → (old || (now && here)) ≡ true)
    → now ≡ then_
    → (old || ((here && then_) || rest)) ≡ true
spread true old now then_ here rest h k e = let g = k refl in ground arith
spread false old now then_ here rest h k e = ground arith

-- The same clocks as the first state's all along the loop.
module _ (t : Tick) (first : SchedState) where
  pub rounds-has :
      (st : SchedState) (scan : List Candidate) (k : Key)
      → SameClocks first st
      → names k (starts_freely t first) scan ≡ true
      → contains k (rounds t st scan).0.tasks ≡ true
  unfolding rounds
  rounds-has st [] k s h = cc
  rounds-has st (c ∷ scan) k s h = elim (Bool-cases (k == key_of c && starts_freely t first c)) [
    | inl here ↦
        let (same, free) = and_true (k == key_of c) (starts_freely t first c) here in
        rounds-keeps t (visit t st c).0 scan k (
          subst (λ j. contains j (visit t st c).0.tasks ≡ true) (sym ((==_iff k (key_of c)).0 same))
            (visit-has t st c
              (ap (λ b. b && not (drive_spawns t c)) (may_start-SameClocks t first st c s) ∙ free)))
    | inr there ↦ rounds-has (visit t st c).0 scan k (visit-same t first st c s) (rw there at h)
  ]

  pub rounds-adds :
      (st : SchedState) (scan : List Candidate) (k : Key)
      → SameClocks first st
      → contains k (rounds t st scan).0.tasks ≡ true
      → (contains k st.tasks || names k (may_start t first) scan) ≡ true
  unfolding rounds
  rounds-adds st [] k s h = or_left _ _ h
  rounds-adds st (c ∷ scan) k s h =
      spread (contains k (visit t st c).0.tasks) (contains k st.tasks) (may_start t st c)
        (may_start t first c) (k == key_of c) (names k (may_start t first) scan)
        (rounds-adds (visit t st c).0 scan k (visit-same t first st c s) h) (visit-adds t st c k)
        (may_start-SameClocks t first st c s)

-- The dispatch changes no task before its loop.
begin_tick-tasks :
    (cfg : FactoryConfig) (spawn_roles : Level → AnyUnit → List String) (d : Db) (st : SchedState)
    {t : Tick} {first : SchedState}
    → begin_tick cfg spawn_roles d st ≡ ok (t, first)
    → first.tasks ≡ st.tasks
unfolding begin_tick
begin_tick-tasks cfg spawn_roles d st {t} {first} b =
    let (overrides, found, b1) = >>=-eq-ok (get_runtime_settings cfg.json d) _ b in
    let (cap, read, e) = >>=-eq-ok (max_parallel_agents overrides cfg) _ b1 in
    sym (ap (λ (x : Tick × SchedState). x.1.tasks) (ok-injective e))

begun :
    (cfg : FactoryConfig) (spawn_roles : Level → AnyUnit → List String) (scan : List Candidate)
    (d : Db) (st : SchedState) {t : Tick} {first st' : SchedState} {n : ℕ}
    → begin_tick cfg spawn_roles d st ≡ ok (t, first)
    → dispatch cfg spawn_roles scan d st ≡ ok (st', n)
    → rounds t first scan ≡ (st', n)
unfolding dispatch
begun cfg spawn_roles scan d st b h = cc (rw b at h)

-- A unit of the scan that may start and whose drive needs no slot has a task after the dispatch, at
-- any cap and also while a drain is on.
pub dispatch-has :
    (cfg : FactoryConfig) (spawn_roles : Level → AnyUnit → List String) (scan : List Candidate)
    (d : Db) (st : SchedState) {t : Tick} {first st' : SchedState} {n : ℕ} (k : Key)
    → begin_tick cfg spawn_roles d st ≡ ok (t, first)
    → dispatch cfg spawn_roles scan d st ≡ ok (st', n)
    → names k (starts_freely t first) scan ≡ true
    → contains k st'.tasks ≡ true
dispatch-has cfg spawn_roles scan d st {t} {first} k b h wanted =
    subst (λ x. contains k x.0.tasks ≡ true) (begun cfg spawn_roles scan d st b h)
      (rounds-has t first first scan k (refl, refl) wanted)

-- A task after the dispatch was there before it, or is of a unit of the scan that may start: neither
-- WAITING nor terminal, and RUNNABLE, or with a new event, a lifted drain or a changed snapshot.
pub dispatch-adds :
    (cfg : FactoryConfig) (spawn_roles : Level → AnyUnit → List String) (scan : List Candidate)
    (d : Db) (st : SchedState) {t : Tick} {first st' : SchedState} {n : ℕ} (k : Key)
    → begin_tick cfg spawn_roles d st ≡ ok (t, first)
    → dispatch cfg spawn_roles scan d st ≡ ok (st', n)
    → contains k st'.tasks ≡ true
    → (contains k st.tasks || names k (may_start t first) scan) ≡ true
dispatch-adds cfg spawn_roles scan d st {t} {first} k b h has =
    subst (λ tasks. (contains k tasks || names k (may_start t first) scan) ≡ true)
      (begin_tick-tasks cfg spawn_roles d st b)
      (rounds-adds t first first scan k (refl, refl)
        (subst (λ x. contains k x.0.tasks ≡ true) (sym (begun cfg spawn_roles scan d st b h)) has))
