-- ===== src/Scheduler/Proving/Held.antt =====
-- Which phases the hold keeps back, without the loop and its memory.
use mathlib.Core.Path.{subst}
use sf_f.Base.{
  String, ◌≡◌, refl, Bool, true, false, not, ◌&&◌, ◌||◌, Option, none, some, List, [], ◌∷◌, ◌==◌,
  string_eq, any, contains, lookup, assign, if◌then◌else◌, Bool-cases, inl, inr, arith,
  lookup-assign, contains-add, sym, ◌∙◌, ap, ==_iff, ==_refl,
}
use sf_f.Config.{FactoryConfig, ProjectCfg}
use sf_f.Models.PhaseState.{PhaseState, phase_state_eq}
use sf_f.Models.Records.{Phase}
use sf_f.Scheduler.Proving.{
  remembered, Holding, gates, recall, hold_if, consider_project, hold, consider, visit, rounds,
  proving_held_phase_ids,
}

or_end : (a : Bool) → a ≡ (a || false)
or_end true = refl
or_end false = refl

or_assoc : (a b c : Bool) → ((a || b) || c) ≡ (a || (b || c))
or_assoc true b c = refl
or_assoc false b c = refl

-- Some existing phase of the project is listed as proving and is not DONE.
abbrev pub is_gating : List Phase → String → List String → Bool
is_gating phases project proving = any (gates project proving) phases

abbrev pub held_in : List Phase → Phase → Option ProjectCfg → Bool
held_in phases p none = false
held_in phases p (some c) =
    not (contains p.id c.proving_phases) && is_gating phases p.project c.proving_phases

-- A PENDING phase of a configured project, not itself listed, while its project is gating.
abbrev pub is_held : FactoryConfig → List Phase → Phase → Bool
is_held cfg phases p =
    p.state == PhaseState.pending && held_in phases p (lookup p.project cfg.projects)

abbrev answer : FactoryConfig → List Phase → String → Option ProjectCfg → Bool
answer cfg phases k none = false
answer cfg phases k (some c) = is_gating phases k c.proving_phases

-- Every remembered answer is the project's answer.
abbrev Remembers : FactoryConfig → List Phase → List (String × Bool) → Type 0
Remembers cfg phases gating =
    (k : String) (b : Bool)
    → lookup k gating ≡ some b
    → b ≡ answer cfg phases k (lookup k cfg.projects)

is_gating-nil : (phases : List Phase) (k : String) → is_gating phases k [] ≡ false
is_gating-nil [] k = refl
is_gating-nil (p ∷ phases) k = ground (arith, is_gating-nil phases k)

abbrev RemembersAt : FactoryConfig → List Phase → String → Bool → List (String × Bool) → Type 0
RemembersAt cfg phases project b gating =
    (lookup project gating ≡ some b) × Remembers cfg phases gating

-- The memory after an answer is looked up or computed.
remembered_at :
    (cfg : FactoryConfig) (phases : List Phase) (project : String) (c : ProjectCfg)
    (gating : List (String × Bool)) (o : Option Bool)
    → lookup project cfg.projects ≡ some c
    → lookup project gating ≡ o
    → Remembers cfg phases gating
    → RemembersAt cfg phases project
        (is_gating phases project c.proving_phases)
        (recall phases project c.proving_phases gating o)
remembered_at cfg phases project c gating (some b) found known r =
    (known ∙ ap some (r project b known ∙ ap (answer cfg phases project) found), r)
remembered_at cfg phases project c gating none found new r =
    (lookup-assign project project _ gating ∙ rw (==_refl project), remembers)
  where
    remembers :
        Remembers cfg phases (assign project (is_gating phases project c.proving_phases) gating)
    remembers k b h = elim (Bool-cases (project == k)) [
      | inl same ↦
          let e : is_gating phases project c.proving_phases ≡ b = cc (
            sym (lookup-assign project k (is_gating phases project c.proving_phases) gating) ∙ h,
            same,
          ) in
          sym e
          ∙ subst
              (λ x.
                is_gating phases project c.proving_phases
                ≡ answer cfg phases x (lookup x cfg.projects))
              ((==_iff project k).0 same) (sym (ap (answer cfg phases project) found))
      | inr other ↦ r k b (
          rw other at
            (sym (lookup-assign project k (is_gating phases project c.proving_phases) gating) ∙ h))
    ]

-- One round adds the phase exactly when it is held, and keeps the memory right.
abbrev Visited : FactoryConfig → List Phase → Holding → Phase → Bool → Holding → Type 0
Visited cfg phases st p b st' =
    ((i : String) → contains i st'.held ≡ (contains i st.held || (b && i == p.id)))
    × Remembers cfg phases st'.gating

or_nothing : (a b : Bool) → a ≡ (a || (false && b))
or_nothing true b = refl
or_nothing false b = refl

unmoved :
    (cfg : FactoryConfig) (phases : List Phase) (st : Holding) (p : Phase)
    → Remembers cfg phases st.gating
    → Visited cfg phases st p false st
unmoved cfg phases st p r = (λ i. or_nothing (contains i st.held) (i == p.id), r)

held_if :
    (cfg : FactoryConfig) (phases : List Phase) (st : Holding) (p : Phase)
    (gating : List (String × Bool)) (b : Bool)
    → Remembers cfg phases gating
    → Visited cfg phases st p b (hold_if p.id st gating (some b))
held_if cfg phases st p gating true r = (λ i. contains-add i p.id st.held, r)
held_if cfg phases st p gating false r = (λ i. or_nothing (contains i st.held) (i == p.id), r)

abbrev listing : List String → ProjectCfg
listing proving = record { proving_phases = proving }

considered :
    (cfg : FactoryConfig) (phases : List Phase) (st : Holding) (p : Phase) (proving : List String)
    → lookup p.project cfg.projects ≡ some (listing proving)
    → Remembers cfg phases st.gating
    → Visited cfg phases st p
        (held_in phases p (some (listing proving)))
        (consider phases st p proving)
considered cfg phases st p [] found r =
    subst (λ b. Visited cfg phases st p b st) (sym (is_gating-nil phases p.project))
      (unmoved cfg phases st p r)
considered cfg phases st p (q ∷ qs) found r =
    let gating = remembered phases p.project (q ∷ qs) st.gating in
    let at =
      remembered_at cfg phases p.project (listing (q ∷ qs)) st.gating (lookup p.project st.gating)
        found refl r in
    let Goal : Bool → Type 0 = λ t.
      Visited cfg phases st p (not t && is_gating phases p.project (q ∷ qs))
        (if t then st else hold p.project p.id st gating) in
    elim (Bool-cases (contains p.id (q ∷ qs))) [
      | inl listed ↦ subst Goal (sym listed) (unmoved cfg phases st p r)
      | inr free ↦ subst Goal (sym free) (
          subst
            (λ o.
              Visited cfg phases st p (is_gating phases p.project (q ∷ qs))
                (hold_if p.id st gating o))
            (sym at.0) (held_if cfg phases st p gating _ at.1))
    ]

considered_project :
    (cfg : FactoryConfig) (phases : List Phase) (st : Holding) (p : Phase) (o : Option ProjectCfg)
    → lookup p.project cfg.projects ≡ o
    → Remembers cfg phases st.gating
    → Visited cfg phases st p (held_in phases p o) (consider_project phases st p o)
considered_project cfg phases st p none found r = unmoved cfg phases st p r
considered_project cfg phases st p (some c) found r =
    considered cfg phases st p c.proving_phases found r

visit-Visited :
    (cfg : FactoryConfig) (phases : List Phase) (st : Holding) (p : Phase)
    → Remembers cfg phases st.gating
    → Visited cfg phases st p (is_held cfg phases p) (visit cfg phases st p)
unfolding visit
visit-Visited cfg phases st p r =
    let o = lookup p.project cfg.projects in
    let Goal : Bool → Type 0 = λ t.
      Visited cfg phases st p (t && held_in phases p o)
        (if t then consider_project phases st p o else st) in
    elim (Bool-cases (p.state == PhaseState.pending)) [
      | inl pending ↦ subst Goal (sym pending) (considered_project cfg phases st p o refl r)
      | inr other ↦ subst Goal (sym other) (unmoved cfg phases st p r)
    ]

abbrev pub names_held : FactoryConfig → List Phase → String → Phase → Bool
names_held cfg phases i p = is_held cfg phases p && i == p.id

rounds-contains :
    (cfg : FactoryConfig) (phases : List Phase) (i : String) (st : Holding) (rest : List Phase)
    → Remembers cfg phases st.gating
    → contains i (rounds cfg phases st rest).held
      ≡ (contains i st.held || any (names_held cfg phases i) rest)
unfolding rounds
rounds-contains cfg phases i st [] r = or_end (contains i st.held)
rounds-contains cfg phases i st (p ∷ rest) r =
    let (added, r') = visit-Visited cfg phases st p r in
    rounds-contains cfg phases i (visit cfg phases st p) rest r'
    ∙ ap (λ b. b || any (names_held cfg phases i) rest) (added i)
    ∙ or_assoc (contains i st.held) (names_held cfg phases i p) _

-- The memory of the loop changes nothing: the ids that are kept back are those of the phases that are
-- PENDING, not listed as proving in their configured project, while some existing phase of that
-- project that is listed is not DONE.
pub contains-proving_held_phase_ids :
    (cfg : FactoryConfig) (phases : List Phase) (i : String)
    → contains i (proving_held_phase_ids cfg phases) ≡ any (names_held cfg phases i) phases
unfolding proving_held_phase_ids
contains-proving_held_phase_ids cfg phases i =
    rounds-contains cfg phases i (record { held = []; gating = [] }) phases (λ k b h. cc)
