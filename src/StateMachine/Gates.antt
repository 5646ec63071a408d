-- ===== src/StateMachine/Gates.antt =====
-- What the history of a unit that is DONE must contain.
use sf_f.Base.{
  sym, ap, ◌∙◌, ◌⊎◌, ◌⊎◌, String, ◌≡◌, refl, Bool, true, false, ◌&&◌, Option, none, some, List, [],
  ◌∷◌, ◌==◌, Any, inl, inr, Bool-cases, Option-cases, get_or, option_eq, string_eq,
}
use sf_f.Models.Level.{Level, stage}
use sf_f.Models.StageState
use sf_f.Models.StageState.{StageState}
use sf_f.Models.UnitState
use sf_f.Models.UnitState.{UnitState, of_stage, allowed}
use sf_f.Models.Lifecycle.{allowed-Entry}
use sf_f.Models.Records.{Event}
use sf_f.Store.Table
use sf_f.Store.Db.{Db}
use sf_f.Store.Units.{unit_state}
use mathlib.Core.Path.{subst}
use mathlib.Core.Bool.{false≢true}
use sf_f.StateMachine.History.{Agrees, and_true, moves, arrive, replay, IsTraced}

-- The log has an event that takes the stage into `v`.
abbrev pub Enters : String → StageState → List Event → Type 0
Enters unit_id v events =
    Any
      (λ e.
        (moves stage unit_id e ≡ true)
        × (UnitState.parse stage (get_or e.to_state "") ≡ some (of_stage v)))
      events

-- A state in which no gate has been entered on the way to DONE.
abbrev before_gate : StageState → Bool
before_gate StageState.done = false
before_gate StageState.merge_gate = false
before_gate _ = true

gate-cases :
    (v : StageState)
    → (v ≡ StageState.done) ⊎ ((v ≡ StageState.merge_gate) ⊎ (before_gate v ≡ true))
gate-cases StageState.done = inl refl
gate-cases StageState.merge_gate = inr (inl refl)
gate-cases StageState.pending = inr (inr refl)
gate-cases _ = inr (inr refl)

arrive-eq-some :
    (u : UnitState) (from : Option String) (o : Option UnitState) {w : UnitState}
    → arrive u from o ≡ some w
    → (o ≡ some w) × (allowed u w ≡ true)
arrive-eq-some u from none h = cc
arrive-eq-some u from (some v) {w} h =
    elim (Bool-cases (from == some (UnitState.value u) && allowed u v)) [
      | inl legal ↦
          let e : v ≡ w = cc (rw legal at h) in
          (ap some e, subst (λ x. allowed u x ≡ true) e (and_true _ _ legal).1)
      | inr illegal ↦ cc (rw illegal at h)
    ]

replay-none :
    (level : Level) (unit_id : String) (es : List Event) → replay level unit_id none es ≡ none
unfolding replay
replay-none level unit_id [] = refl
replay-none level unit_id (e ∷ es) = replay-none level unit_id es

parse-stage :
    (text : String) {u : UnitState}
    → UnitState.parse stage text ≡ some u
    → (t : StageState) × (u ≡ of_stage t)
parse-stage text h = elim (Option-cases (StageState.parse text)) [
  | inl missing ↦ cc (rw (missing, UnitState.parse) at h)
  | inr (t, found) ↦ (t, cc (rw (found, UnitState.parse) at h))
]

-- One event of a stage that is not at its gate: another state before the gate, or the gate.
move :
    (unit_id : String) (s : StageState) (e : Event) (o : Option UnitState)
    → before_gate s ≡ true
    → arrive (of_stage s) e.from_state (UnitState.parse stage (get_or e.to_state "")) ≡ o
    → (o ≡ none)
      ⊎ (((t : StageState) × (o ≡ some (of_stage t)) × (before_gate t ≡ true))
          ⊎ (UnitState.parse stage (get_or e.to_state "") ≡ some (of_stage StageState.merge_gate)))
move unit_id s e none b h = inl refl
move unit_id s e (some w) b h =
    let (parsed, legal) = arrive-eq-some (of_stage s) e.from_state _ h in
    let (t, is) = parse-stage (get_or e.to_state "") parsed in
    elim (gate-cases t) [
      | inl done ↦
          let from_gate =
            (allowed-Entry.0 s t (subst (λ x. allowed (of_stage s) x ≡ true) is legal)).2 done in
          absurd (false≢true (sym (ap before_gate from_gate) ∙ b))
      | inr (inl gate) ↦ inr (inr (parsed ∙ ap some (is ∙ ap of_stage gate)))
      | inr (inr before) ↦ inr (inl (t, ap some is, before))
    ]

entered :
    (unit_id : String) (s : StageState) (es : List Event)
    → before_gate s ≡ true
    → replay stage unit_id (some (of_stage s)) es ≡ some (of_stage StageState.done)
    → Enters unit_id StageState.merge_gate es
unfolding replay
entered unit_id s [] b h =
    let e : s ≡ StageState.done = cc h in absurd (false≢true (sym (ap before_gate e) ∙ b))
entered unit_id s (e ∷ es) b h = elim (Bool-cases (moves stage unit_id e)) [
  | inr miss ↦ inr (entered unit_id s es b (rw miss at h))
  | inl hit ↦
      let o = arrive (of_stage s) e.from_state (UnitState.parse stage (get_or e.to_state "")) in
      let h' : replay stage unit_id o es ≡ some (of_stage StageState.done) = rw hit at h in
      elim (move unit_id s e o b refl) [
        | inl lost ↦
            cc (sym h' ∙ ap (λ x. replay stage unit_id x es) lost ∙ replay-none stage unit_id es)
        | inr (inl (t, at, before)) ↦
            inr (entered unit_id t es before (sym (ap (λ x. replay stage unit_id x es) at) ∙ h'))
        | inr (inr parsed) ↦ inl (hit, parsed)
      ]
]

-- Where the log traces the units, a stage that is DONE has an event in the log that took it into
-- MERGE_GATE: no stage is DONE that did not enter the merge gate.
pub done-Enters :
    (d : Db) (unit_id : String)
    → IsTraced d
    → unit_state stage unit_id d ≡ some (of_stage StageState.done)
    → Enters unit_id StageState.merge_gate (Table.values d.events)
done-Enters d unit_id t done =
    entered unit_id StageState.pending (Table.values d.events) refl
      (subst (λ o. Agrees stage unit_id o (Table.values d.events)) done (t.traced stage unit_id))
