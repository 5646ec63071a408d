-- ===== src/Scheduler/Dispatch/Cap.antt =====
-- The cap on agents and the manual drain: how many slots of spawning drives a dispatch takes.
use mathlib.Core.Path.{subst}
use sf_f.Base.{
  ℕ, ◌+◌, ◌≤◌, ◌≡◌, sym, ap, Bool, true, false, List, [], ◌∷◌, pair_eq, string_eq, contains, length,
  add, filter-all, is_within, is_within-append, is_within-add, length-add_le, arith, leb,
  Bool-cases, inl, inr,
}
use sf_f.Models.Level.{level_eq}
use sf_f.Scheduler.Scan.{Candidate}
use sf_f.Scheduler.Dispatch.{
  Key, SchedState, Tick, key_of, admit, visit, rounds, start, reconcile, spawning_count,
  drive_spawns, is_eligible, is_active,
}

-- Every slot belongs to a live task.
abbrev pub is_slotted : SchedState → Bool
is_slotted st = is_within st.tasks st.spawning

-- The slots are within a bound that is at least the cap.
abbrev pub Bounded : ℕ → SchedState → Type 0
Bounded n st = (is_slotted st ≡ true) × (length st.spawning ≤ n)

reconcile_lem : (st : SchedState) → is_slotted st ≡ true → reconcile st ≡ st
reconcile_lem st s =
    ap (λ spawning. record st { spawning = spawning })
      (filter-all (λ k. contains k st.tasks) st.spawning s)

leb-false : (c cap l m n : ℕ) → leb cap c ≡ false → c ≡ l → m ≤ l + 1 → cap ≤ n → m ≤ n
leb-false c cap l m n free count grown h = ground arith

room :
    (t : Tick) (n : ℕ) (key : Key) (st : SchedState)
    → t.cap ≤ n
    → Bounded n st
    → leb t.cap (spawning_count st) ≡ false
    → length (add key st.spawning) ≤ n
room t n key st h b free =
    let count = ap length (filter-all (λ k. contains k st.tasks) st.spawning b.0) in
    leb-false (spawning_count st) t.cap (length st.spawning) (length (add key st.spawning)) n free
      count (length-add_le key st.spawning) h

admit-Bounded :
    (t : Tick) (n : ℕ) (spawns : Bool) (key : Key) (st : SchedState)
    → t.cap ≤ n
    → Bounded n st
    → Bounded n (admit t spawns key st).0
unfolding admit
admit-Bounded t n false key st h b = (is_within-append st.tasks (key ∷ []) st.spawning b.0, b.1)
admit-Bounded t n true key st h b = elim (Bool-cases t.draining) [
  | inl on ↦ rw on b
  | inr off ↦ elim (Bool-cases (leb t.cap (spawning_count st))) [
    | inl full ↦ rw (off, full) (subst (Bounded n) (sym (reconcile_lem st b.0)) b)
    | inr free ↦
        rw (off, free)
          (subst (λ x. Bounded n (start true key x)) (sym (reconcile_lem st b.0))
            (is_within-add key st.tasks st.spawning b.0, room t n key st h b free))
  ]
]

visit-Bounded :
    (t : Tick) (n : ℕ) (st : SchedState) (c : Candidate)
    → t.cap ≤ n
    → Bounded n st
    → Bounded n (visit t st c).0
unfolding visit
visit-Bounded t n st c h b = elim (Bool-cases (contains (key_of c) st.tasks)) [
  | inl there ↦ rw there b
  | inr new ↦ elim (Bool-cases (is_active c.category)) [
    | inr off ↦ rw (new, off) b
    | inl on ↦ elim (Bool-cases (is_eligible t st (key_of c) c.category)) [
      | inr off ↦ rw (new, on, off) b
      | inl go ↦ rw (new, on, go) (admit-Bounded t n (drive_spawns t c) (key_of c) st h b)
    ]
  ]
]

pub rounds-Bounded :
    (t : Tick) (n : ℕ) (st : SchedState) (scan : List Candidate)
    → t.cap ≤ n
    → Bounded n st
    → Bounded n (rounds t st scan).0
unfolding rounds
rounds-Bounded t n st [] h b = b
rounds-Bounded t n st (c ∷ scan) h b =
    rounds-Bounded t n (visit t st c).0 scan h (visit-Bounded t n st c h b)
