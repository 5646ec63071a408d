-- ===== src/Scheduler/Dispatch/Visits.antt =====
-- One visit of the dispatch loop of src/sf_factory/scheduler.py: what it changes.
use sf_f.Base.{
  contains-snoc, contains-append_left, contains-snoc_self, ℕ, ◌≡◌, refl, sym, ◌∙◌, Bool, true,
  false, not, ◌&&◌, ◌||◌, List, [], ◌∷◌, ◌++◌, ◌==◌, pair_eq, string_eq, contains, arith, leb,
  Bool-cases, inl, inr,
}
use sf_f.Models.Level.{level_eq}
use sf_f.Models.SchedCategory.{SchedCategory, runnable, running}
use sf_f.Scheduler.Scan.{Candidate}
use sf_f.Scheduler.Dispatch.{
  Key, SchedState, Tick, key_of, admit, visit, spawning_count, drive_spawns, is_eligible, is_active,
}

-- `b` differs from `a` in its tasks and slots alone.
abbrev pub SameClocks : SchedState → SchedState → Type 0
SameClocks a b = (b.last_seq ≡ a.last_seq) × (b.blocked_snapshot ≡ a.blocked_snapshot)

admit-SameClocks :
    (t : Tick) (spawns : Bool) (key : Key) (st : SchedState)
    → SameClocks st (admit t spawns key st).0
unfolding admit
admit-SameClocks t false key st = (refl, refl)
admit-SameClocks t true key st = ground arith

pub visit-SameClocks : (t : Tick) (st : SchedState) (c : Candidate) → SameClocks st (visit t st c).0
unfolding visit
visit-SameClocks t st c = elim (Bool-cases (contains (key_of c) st.tasks)) [
  | inl there ↦ rw there (refl, refl)
  | inr new ↦ elim (Bool-cases (is_active c.category)) [
    | inr off ↦ rw (new, off) (refl, refl)
    | inl on ↦ elim (Bool-cases (is_eligible t st (key_of c) c.category)) [
      | inr off ↦ rw (new, on, off) (refl, refl)
      | inl go ↦ rw (new, on, go) (admit-SameClocks t (drive_spawns t c) (key_of c) st)
    ]
  ]
]

pub is_eligible-SameClocks :
    (t : Tick) (a b : SchedState) (key : Key) (category : SchedCategory)
    → SameClocks a b
    → is_eligible t b key category ≡ is_eligible t a key category
unfolding is_eligible
is_eligible-SameClocks t a b key runnable s = refl
is_eligible-SameClocks t a b key running s = rw (s.0) refl
is_eligible-SameClocks t a b key _ s = rw (s.0, s.1) refl

-- A unit of the scan that may be given a task under the clocks of `st`.
abbrev pub may_start : Tick → SchedState → Candidate → Bool
may_start t st c = is_active c.category && is_eligible t st (key_of c) c.category

-- Such a unit whose drive needs no slot.
abbrev pub starts_freely : Tick → SchedState → Candidate → Bool
starts_freely t st c = may_start t st c && not (drive_spawns t c)

-- A visit passes the unit over, or it admits a unit that has no task and may start.
visit-cases :
    (t : Tick) (st : SchedState) (c : Candidate) (P : SchedState × ℕ → Type 0)
    → (contains (key_of c) st.tasks || not (may_start t st c) ≡ true → P (st, 0))
    → (may_start t st c ≡ true → P (admit t (drive_spawns t c) (key_of c) st))
    → P (visit t st c)
unfolding visit
visit-cases t st c P pass go = elim (Bool-cases (contains (key_of c) st.tasks)) [
  | inl there ↦ rw there (pass (rw there refl))
  | inr new ↦ elim (Bool-cases (is_active c.category)) [
    | inr off ↦ rw (new, off) (pass (rw (new, off) refl))
    | inl on ↦ elim (Bool-cases (is_eligible t st (key_of c) c.category)) [
      | inr off ↦ rw (new, on, off) (pass (rw (new, on, off) refl))
      | inl due ↦ rw (new, on, due) (go (rw (on, due) refl))
    ]
  ]
]

-- A unit that is admitted gets its task, or waits for a slot.
admit-cases :
    (t : Tick) (spawns : Bool) (key : Key) (st : SchedState) (P : List Key → Type 0)
    → (spawns ≡ true → P st.tasks)
    → P (st.tasks ++ key ∷ [])
    → P (admit t spawns key st).0.tasks
unfolding admit
admit-cases t false key st P wait new = new
admit-cases t true key st P wait new = elim (Bool-cases t.draining) [
  | inl on ↦ rw on (wait refl)
  | inr off ↦ elim (Bool-cases (leb t.cap (spawning_count st))) [
    | inl full ↦ rw (off, full) (wait refl)
    | inr free ↦ rw (off, free) new
  ]
]

cover :
    (there may spawns : Bool)
    → (may && not spawns) ≡ true
    → (there || not may) ≡ true
    → there ≡ true
cover there may spawns h k = ground arith

pub visit-has :
    (t : Tick) (st : SchedState) (c : Candidate)
    → starts_freely t st c ≡ true
    → contains (key_of c) (visit t st c).0.tasks ≡ true
visit-has t st c h =
    visit-cases t st c (λ r. contains (key_of c) r.0.tasks ≡ true)
      (cover (contains (key_of c) st.tasks) (may_start t st c) (drive_spawns t c) h)
      (λ may.
        admit-cases t (drive_spawns t c) (key_of c) st (λ tasks. contains (key_of c) tasks ≡ true)
          (λ spawns. cc (rw (may, spawns) at h)) (contains-snoc_self (key_of c) st.tasks))

pub visit-keeps :
    (t : Tick) (st : SchedState) (c : Candidate) (k : Key)
    → contains k st.tasks ≡ true
    → contains k (visit t st c).0.tasks ≡ true
visit-keeps t st c k h =
    visit-cases t st c (λ r. contains k r.0.tasks ≡ true) (λ _. h)
      (λ _.
        admit-cases t (drive_spawns t c) (key_of c) st (λ tasks. contains k tasks ≡ true) (λ _. h)
          (contains-append_left k st.tasks (key_of c ∷ []) h))

pub or_left : (a b : Bool) → a ≡ true → (a || b) ≡ true
or_left a b h = ground arith

pub visit-adds :
    (t : Tick) (st : SchedState) (c : Candidate) (k : Key)
    → contains k (visit t st c).0.tasks ≡ true
    → (contains k st.tasks || (may_start t st c && k == key_of c)) ≡ true
visit-adds t st c k =
    visit-cases t st c
      (λ r.
        contains k r.0.tasks ≡ true
        → (contains k st.tasks || (may_start t st c && k == key_of c)) ≡ true)
      (λ _ h. or_left _ _ h)
      (λ may.
        admit-cases t (drive_spawns t c) (key_of c) st
          (λ tasks.
            contains k tasks ≡ true
            → (contains k st.tasks || (may_start t st c && k == key_of c)) ≡ true)
          (λ _ h. or_left _ _ h) (λ h. rw may (sym (contains-snoc k (key_of c) st.tasks) ∙ h)))
