-- ===== src/Thresholds/Sentinels.antt =====
-- The cursor of the sentinel triggers of src/sf_factory/thresholds.py.
use mathlib.Core.Path.{subst}
use mathlib.Core.Bool.{false≢true}
use sf_f.Base.{
  ==_iff, ℕ, ◌≤◌, ◌<◌, ◌≡◌, refl, sym, ap, ◌∙◌, String, Bool, true, ◌&&◌, none, some, List, [], ◌∷◌,
  ◌==◌, string_eq, option_eq, nat_eq, filter, map, ltb, get_or, Any, arith, Bool-cases, inl, inr,
}
use sf_f.Models.Trigger
use sf_f.Models.Trigger.{Trigger}
use sf_f.Models.Records.{Stage, Event, Escalation}
use sf_f.Store.Table
use sf_f.Store.Table.{Table}
use sf_f.Store.Db.{Db}
use sf_f.Thresholds.{cursor, is_sentinel, uncovered, last_of, sentinel_evidence, check_sentinel}

-- The events of a log in the order of their numbers, each above `low`.
abbrev pub Ascending : ℕ → List Event → Type 0
Ascending low [] = Unit
Ascending low (e ∷ es) = (low < e.seq) × Ascending e.seq es

-- An escalation of the stage, of any status, that records `n` as its cursor.
abbrev pub records : String → String → ℕ → Escalation → Bool
records stage_id trigger n e =
    e.unit_level == "stage"
    && (e.unit_id == stage_id && (e.trigger == trigger && e.event_seq == some n))

recorded :
    (a b c d : Bool)
    → (a && (b && (c && d))) ≡ true
    → (a ≡ true) × (b ≡ true) × (c ≡ true) × (d ≡ true)
recorded a b c d h = ground arith

cursor-ge :
    (stage_id trigger : String) (n : ℕ) (es : List Escalation)
    → Any (λ e. records stage_id trigger n e ≡ true) es
    → n ≤ cursor stage_id trigger es
cursor-ge stage_id trigger n [] h = absurd h
cursor-ge stage_id trigger n (e ∷ es) (inl here) =
    let (level, id, name, seq) =
      recorded (e.unit_level == "stage") (e.unit_id == stage_id) (e.trigger == trigger)
        (e.event_seq == some n) here in
    let at : get_or e.event_seq 0 ≡ n =
      ap (λ o. get_or o 0) ((==_iff e.event_seq (some n)).0 seq) in
    rw (level, id, name, at) (omega arith)
cursor-ge stage_id trigger n (e ∷ es) (inr there) =
    ground (arith, cursor-ge stage_id trigger n es there)

-- The numbers the sentinels have.
abbrev seqs : (Event → Bool) → List Event → List ℕ
seqs p es = map (λ (e : Event). e.seq) (filter p es)

-- `last_of` is the greatest of them.
abbrev AtMost : ℕ → (Event → Bool) → List Event → Type 0
AtMost n p [] = Unit
AtMost n p (e ∷ es) = (p e ≡ true → e.seq ≤ n) × AtMost n p es

Ascending-weaken : (low m : ℕ) (es : List Event) → low ≤ m → Ascending m es → Ascending low es
Ascending-weaken low m [] h a = tt
Ascending-weaken low m (e ∷ es) h a = (omega (arith, a.0), a.1)

last_of-ge :
    (p : Event → Bool) (low : ℕ) (es : List Event)
    → Ascending low es
    → low ≤ last_of low (seqs p es)
last_of-ge p low [] a = omega arith
last_of-ge p low (e ∷ es) a = elim (Bool-cases (p e)) [
  | inl hit ↦ rw hit (omega (arith, a.0, last_of-ge p e.seq es a.1))
  | inr miss ↦
      rw miss (last_of-ge p low es (Ascending-weaken low e.seq es (omega (arith, a.0)) a.1))
]

seqs-AtMost :
    (p : Event → Bool) (low : ℕ) (es : List Event)
    → Ascending low es
    → AtMost (last_of low (seqs p es)) p es
seqs-AtMost p low [] a = tt
seqs-AtMost p low (e ∷ es) a = elim (Bool-cases (p e)) [
  | inl hit ↦
      let same : last_of low (seqs p (e ∷ es)) ≡ last_of e.seq (seqs p es) = rw hit refl in
      subst (λ n. AtMost n p (e ∷ es)) (sym same)
        ((λ _. last_of-ge p e.seq es a.1), seqs-AtMost p e.seq es a.1)
  | inr miss ↦
      let same : last_of low (seqs p (e ∷ es)) ≡ last_of low (seqs p es) = rw miss refl in
      subst (λ n. AtMost n p (e ∷ es)) (sym same)
        (
          (λ hit. absurd (false≢true (sym miss ∙ hit))),
          seqs-AtMost p low es (Ascending-weaken low e.seq es (omega (arith, a.0)) a.1),
        )
]

-- A sentinel that the cursor `c` does not cover.
abbrev beyond : (Event → Bool) → ℕ → Event → Bool
beyond q c e = q e && ltb c e.seq

above : (q : Event → Bool) (c : ℕ) (e : Event) {m : ℕ} → beyond q c e ≡ true → e.seq ≤ m → c < m
above q c e hit h = ground arith

seqs-above :
    (q : Event → Bool) (c low : ℕ) (es : List Event) {n : ℕ} {ns : List ℕ}
    → Ascending low es
    → seqs (beyond q c) es ≡ n ∷ ns
    → c < last_of n ns
seqs-above q c low [] a h = cc
seqs-above q c low (e ∷ es) a h = elim (Bool-cases (beyond q c e)) [
  | inr miss ↦ seqs-above q c e.seq es a.1 (rw miss at h)
  | inl hit ↦
      subst (λ xs. c < last_of 0 xs) h
        (rw hit (above q c e hit (last_of-ge (beyond q c) e.seq es a.1)))
]

not_beyond :
    (q : Event → Bool) (c c' m : ℕ) (e : Event)
    → (beyond q c e ≡ true → e.seq ≤ m)
    → c < m
    → m ≤ c'
    → beyond q c' e ≡ true
    → ⊥
not_beyond q c c' m e a h k hit = ground arith

-- With a cursor at or beyond `m`, nothing of what is at most `m` is uncovered.
all_covered :
    (q : Event → Bool) (c c' m : ℕ) (es : List Event)
    → AtMost m (beyond q c) es
    → c < m
    → m ≤ c'
    → seqs (beyond q c') es ≡ []
all_covered q c c' m [] a h k = refl
all_covered q c c' m (e ∷ es) a h k = elim (Bool-cases (beyond q c' e)) [
  | inr miss ↦ rw miss (all_covered q c c' m es a.1 h k)
  | inl hit ↦ absurd (not_beyond q c c' m e a.0 h k hit)
]

-- A sentinel fires once. When an escalation of the stage and the trigger, whatever its status, records
-- as its cursor the number that the evidence of the check gives, the check is silent, as long as no
-- event was added; the events stand in the order of their numbers.
pub check_sentinel_covered :
    (d d' : Db) (s : Stage) (event_type : String) (trigger : Trigger) {n : ℕ} {ns : List ℕ}
    → Ascending 0 (Table.values d.events)
    → uncovered s.id event_type trigger d ≡ n ∷ ns
    → d'.events ≡ d.events
    → Any
        (λ e. records s.id (Trigger.value trigger) (last_of n ns) e ≡ true)
        (Table.values d'.escalations)
    → check_sentinel d' s event_type trigger ≡ none
unfolding check_sentinel uncovered
check_sentinel_covered d d' s event_type trigger {n} {ns} a found same recorded_ =
    let q = is_sentinel s.id event_type in
    let c = cursor s.id (Trigger.value trigger) (Table.values d.escalations) in
    let es = Table.values d.events in
    let most : AtMost (last_of n ns) (beyond q c) es =
      subst (λ xs. AtMost (last_of 0 xs) (beyond q c) es) found (seqs-AtMost (beyond q c) 0 es a) in
    let c' = cursor s.id (Trigger.value trigger) (Table.values d'.escalations) in
    let silent : seqs (beyond q c') es ≡ [] =
      all_covered q c c' (last_of n ns) es most (seqs-above q c 0 es a found)
        (cursor-ge s.id (Trigger.value trigger) (last_of n ns) _ recorded_) in
    ap sentinel_evidence (ap (λ t. seqs (beyond q c') (Table.values t)) same ∙ silent)
