-- ===== src/StateMachine/History.antt =====
-- The event log is the history of every unit: replaying a unit's transition events from PENDING
-- through the transition table gives the state in its row.
use mathlib.Core.Path.{subst, subst₂}
use sf_f.Store.Units.Laws.{Written, overwrite, overwrite_miss}
use sf_f.Store.Events.Laws.{logged, values-insert}
use sf_f.Base.{
  ==_iff, inl, inr, Bool-cases, ==_refl, arith, ℕ, true, any-append, ◌∙◌, sym, ap, String, ◌≡◌,
  refl, Bool, false, ◌&&◌, Option, none, some, List, [], ◌∷◌, ◌++◌, ◌==◌, string_eq, option_eq,
  if◌then◌else◌, get_or, any,
}
use sf_f.Models.Level
use sf_f.Models.Level.{Level, level_eq, stage, phase}
use sf_f.Models.StageState
use sf_f.Models.PhaseState
use sf_f.Models.UnitState
use sf_f.Models.UnitState.{UnitState, of_stage, of_phase, allowed}
use sf_f.Models.Records.{Event, Time}
use sf_f.Models.Json.{Payload}
use sf_f.Store.Events.{NewEvent, event_of}
use sf_f.StateMachine.{transition_event}
use sf_f.Store.Table
use sf_f.Store.Db.{Db}
use sf_f.Store.Events.{is_event}
use sf_f.Store.Units.{unit_state, get_stage, get_phase}

abbrev pub pending_of : Level → UnitState
pending_of stage = of_stage StageState.pending
pending_of phase = of_phase PhaseState.pending

-- The event takes the unit from `u` to the state that its second text names: its first text is `u`,
-- and the table allows the move.
abbrev pub arrive : UnitState → Option String → Option UnitState → Option UnitState
arrive u from none = none
arrive u from (some v) = if from == some (UnitState.value u) && allowed u v then some v else none

abbrev follow : Level → UnitState → Event → Option UnitState
follow level u e = arrive u e.from_state (UnitState.parse level (get_or e.to_state ""))

abbrev pub moves : Level → String → Event → Bool
moves level unit_id e = is_event (Level.value level) unit_id "transition" e

-- One event of the log: one of another unit, or of another type, changes nothing.
abbrev pub advance : Level → String → Option UnitState → Event → Option UnitState
advance level unit_id none e = none
advance level unit_id (some u) e = if moves level unit_id e then follow level u e else some u

unfoldable pub replay : Level → String → Option UnitState → List Event → Option UnitState
replay level unit_id o [] = o
replay level unit_id o (e ∷ es) = replay level unit_id (advance level unit_id o e) es

replay-append :
    (level : Level) (unit_id : String) (o : Option UnitState) (es fs : List Event)
    → replay level unit_id o (es ++ fs) ≡ replay level unit_id (replay level unit_id o es) fs
unfolding replay
replay-append level unit_id o [] fs = refl
replay-append level unit_id o (e ∷ es) fs =
    replay-append level unit_id (advance level unit_id o e) es fs

-- A unit with a row has the state that its history gives, and one without has no history.
abbrev pub Agrees : Level → String → Option UnitState → List Event → Type 0
Agrees level unit_id none events = any (moves level unit_id) events ≡ false
Agrees level unit_id (some u) events =
    replay level unit_id (some (pending_of level)) events ≡ some u

pub record IsTraced (d : Db) : Type 0 where
  pub traced :
      (level : Level) (unit_id : String)
      → Agrees level unit_id (unit_state level unit_id d) (Table.values d.events)

pub Agrees-snoc_miss :
    (level : Level) (unit_id : String) (o : Option UnitState) (es : List Event) (e : Event)
    → moves level unit_id e ≡ false
    → Agrees level unit_id o es
    → Agrees level unit_id o (es ++ e ∷ [])
unfolding replay
Agrees-snoc_miss level unit_id none es e miss h =
    any-append (moves level unit_id) es (e ∷ []) ∙ rw (h, miss)
Agrees-snoc_miss level unit_id (some u) es e miss h =
    replay-append level unit_id (some (pending_of level)) es (e ∷ []) ∙ rw (h, miss)

Agrees-snoc_hit :
    (level : Level) (unit_id : String) (u v : UnitState) (es : List Event) (e : Event)
    → moves level unit_id e ≡ true
    → follow level u e ≡ some v
    → Agrees level unit_id (some u) es
    → Agrees level unit_id (some v) (es ++ e ∷ [])
unfolding replay
Agrees-snoc_hit level unit_id u v es e hit step h =
    replay-append level unit_id (some (pending_of level)) es (e ∷ []) ∙ rw (h, hit, step)

-- The event that a transition of (level, unit_id) writes moves that unit and no other.
moves-transition_event :
    (now : Time) (level l : Level) (unit_id i : String) (u v : UnitState) (actor reason : String)
    (payload : Option Payload) (n : ℕ)
    → moves l i (event_of now (transition_event level unit_id u v actor reason payload) n)
      ≡ (level == l && unit_id == i)
moves-transition_event now level l unit_id i u v actor reason payload n = ground arith

-- The texts of the event are read back as its states.
follow-transition_event :
    (now : Time) (level : Level) (unit_id : String) (u v : UnitState) (actor reason : String)
    (payload : Option Payload) (n : ℕ)
    → UnitState.parse level (UnitState.value v) ≡ some v
    → allowed u v ≡ true
    → follow level u (event_of now (transition_event level unit_id u v actor reason payload) n)
      ≡ some v
follow-transition_event now level unit_id u v actor reason payload n known legal =
    ap (arrive u (some (UnitState.value u))) known ∙ rw (==_refl (UnitState.value u), legal)

pub and_true : (a b : Bool) → (a && b) ≡ true → (a ≡ true) × (b ≡ true)
and_true a b h = ground arith

written-Agrees :
    (level l : Level) (unit_id i : String) (u v : UnitState) (o : Option UnitState)
    (es : List Event) (e : Event)
    → moves l i e ≡ (level == l && unit_id == i)
    → (level ≡ l → unit_id ≡ i → (o ≡ some u) × (follow l u e ≡ some v))
    → Agrees l i o es
    → Agrees l i (overwrite (level == l && unit_id == i) v o) (es ++ e ∷ [])
written-Agrees level l unit_id i u v o es e m here h =
    elim (Bool-cases (level == l && unit_id == i)) [
      | inl hit ↦
          let (same_level, same_id) = and_true _ _ hit in
          let (was, goes) = here ((==_iff level l).0 same_level) ((==_iff unit_id i).0 same_id) in
          subst (λ b. Agrees l i (overwrite b v o) (es ++ e ∷ [])) (sym hit)
            (subst (λ x. Agrees l i (overwrite true v x) (es ++ e ∷ [])) (sym was)
              (Agrees-snoc_hit l i u v es e (m ∙ hit) goes (subst (λ x. Agrees l i x es) was h)))
      | inr miss ↦
          subst (λ b. Agrees l i (overwrite b v o) (es ++ e ∷ [])) (sym miss)
            (subst (λ x. Agrees l i x (es ++ e ∷ [])) (overwrite_miss v o)
              (Agrees-snoc_miss l i o es e (m ∙ miss) h))
    ]

pub unit_state-logged :
    (now : Time) (e : NewEvent) (d : Db) (l : Level) (i : String)
    → unit_state l i d ≡ unit_state l i (logged now e d)
unfolding get_stage get_phase
unit_state-logged now e d stage i = refl
unit_state-logged now e d phase i = refl

-- The tables after a transition of one unit: the state is written and the event logged.
pub step-IsTraced :
    (now : Time) (level : Level) (unit_id : String) (u v : UnitState) (actor reason : String)
    (payload : Option Payload) (d d' : Db)
    → IsTraced d
    → unit_state level unit_id d ≡ some u
    → allowed u v ≡ true
    → UnitState.parse level (UnitState.value v) ≡ some v
    → Written level unit_id v d d'
    → IsTraced (logged now (transition_event level unit_id u v actor reason payload) d')
step-IsTraced now level unit_id u v actor reason payload d d' t found legal known w = record {
  traced = λ l i. subst₂ (Agrees l i) (unit_state-logged now written d' l i) (sym log) (
      subst (λ o. Agrees l i o (Table.values d.events ++ event ∷ [])) (sym (w.states l i))
        (written-Agrees level l unit_id i u v (unit_state l i d) (Table.values d.events) event
          (moves-transition_event now level l unit_id i u v actor reason payload n)
          (λ same_level same_id. (
            subst₂ (λ x y. unit_state x y d ≡ some u) same_level same_id found,
            subst (λ x. follow x u event ≡ some v) same_level
                (follow-transition_event now level unit_id u v actor reason payload n known legal),
          ))
          (t.traced l i)));
}
  where
    written : NewEvent
    written = transition_event level unit_id u v actor reason payload

    n : ℕ
    n = Table.next_id d'.events

    event : Event
    event = event_of now (transition_event level unit_id u v actor reason payload) n

    log :
        Table.values
          (logged now (transition_event level unit_id u v actor reason payload) d').events
        ≡ Table.values d.events ++ event ∷ []
    log =
        values-insert (event_of now (transition_event level unit_id u v actor reason payload))
          d'.events
        ∙ ap (λ table. Table.values table ++ event ∷ []) w.events
