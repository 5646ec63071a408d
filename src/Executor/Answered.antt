-- ===== src/Executor/Answered.antt =====
-- How a stage leaves its human gate, and what the gate's answers are for.
use mathlib.Core.Path.{subst}
use Prim.Native.String.{◌++◌ as concat}
use sf_f.Base.{
  String, ◌≡◌, ◌≢◌, refl, sym, ap, ◌∙◌, Bool, true, false, Option, none, some, [], ◌∷◌, ◌⊎◌, inl,
  inr, Bool-cases, Option-cases, contains, lookup, ◌==◌, ==_iff, string_eq,
}
use sf_f.Base.Raises.{result-cases, Error, Result, err}
use sf_f.Models.StageState
use sf_f.Models.StageState.{StageState}
use sf_f.Models.UnitState.{of_stage, allowed}
use sf_f.Models.GateAnswers.{gate_answers, stage_answers, stage_answer_targets}
use sf_f.Models.Records.{Time, Stage, DecisionRequest}
use sf_f.Models.Json.{Payload}
use sf_f.Store.Db.{Db}
use sf_f.Store.Database.{Database}
use sf_f.Store.Act.{transact}
use sf_f.StateMachine.Moves.{view, transact-Still}
use sf_f.StateMachine.Atomic.{transition_rolls_back}
use sf_f.StateMachine.Quiet.{pure-IsQuiet}
use sf_f.Executor.Queries.{latest_decision}
use sf_f.Executor.Writes.{log_event, stage_event}
use sf_f.Executor.Gate.{
  transition_to, answer_of, answer_target, take_answer, consume, step_awaiting_human,
  answer_payload, unknown_answer,
}
use sf_f.Executor.Arrival.{IsAt, transition_to-IsAt}
use sf_f.Executor.Lawful.Writes.{log_event-IsQuiet}
use sf_f.Store.Act.Laws.{proceed-pure, reads-cases}

-- The target of an answer is a state that a stage may leave its gate for.
abbrev pub Leads : String → Type 0
Leads answer =
    (t : StageState) × (lookup answer stage_answer_targets ≡ some t)
    × (allowed (of_stage StageState.awaiting_human) (of_stage t) ≡ true)

no_answer : false ≢ true
no_answer h = cc

stage_answers-Leads : (answer : String) → contains answer stage_answers ≡ true → Leads answer
stage_answers-Leads answer h = elim (Bool-cases (answer == "approved")) [
  | inl approved ↦ subst Leads (sym ((==_iff answer "approved").0 approved)) (_, refl, refl)
  | inr a ↦ elim (Bool-cases (answer == "rework:BUILD")) [
    | inl build ↦ subst Leads (sym ((==_iff answer "rework:BUILD").0 build)) (_, refl, refl)
    | inr b ↦ elim (Bool-cases (answer == "rework:SPEC")) [
      | inl spec ↦ subst Leads (sym ((==_iff answer "rework:SPEC").0 spec)) (_, refl, refl)
      | inr c ↦ cc (rw (a, b, c) at h)
    ]
  ]
]

-- Every answer that a gate of a stage declares is routed to a state that the stage may leave the gate
-- for: no declared answer is reported as unknown, and none is refused by the state machine.
pub gate_answers-Leads :
    (gate_kind answer : String)
    → contains answer (gate_answers "stage" gate_kind) ≡ true
    → Leads answer
gate_answers-Leads gate_kind answer h =
    elim (Bool-cases (contains gate_kind ("critical_stage" ∷ "escalation_tradeoff" ∷ []))) [
      | inl declared ↦ stage_answers-Leads answer (rw declared at h)
      | inr other ↦ cc (rw other at h)
    ]

-- The latest request of the stage was answered, with an answer that its gate declares and that is
-- routed to `target`.
abbrev pub AnsweredWith : String → Db → StageState → Type 0
AnsweredWith stage_id d target =
    (r : DecisionRequest) × (answer : String) × (latest_decision "stage" stage_id d ≡ some r)
    × (r.status ≡ "answered")
    × (r.answer ≡ some answer)
    × (answer_target r.gate_kind answer ≡ some target)

abbrev pub Left : String → Database → Result Bool × Database → Type 0
Left stage_id db r =
    ((target : StageState) × AnsweredWith stage_id db.tables target × IsAt stage_id target r.1)
    ⊎ (view db.tables ≡ view r.1.tables)

raised-view :
    (now : Time) (stage_id : String) (target : StageState) (who reason : String)
    (payload : Option Payload) (db : Database) {e : Error}
    → (transition_to now stage_id target who reason payload none db).0 ≡ err e
    → view db.tables ≡ view (transition_to now stage_id target who reason payload none db).1.tables
raised-view now stage_id target who reason payload db h =
    ap (λ (x : Database). view x.tables)
      (sym (
        transition_rolls_back now "stage" stage_id (StageState.value target) who reason payload none
          db h))

take_answer-Left :
    (now : Time) (stage_id : String) (db : Database) (r : DecisionRequest) (answer : String)
    (o : Option StageState)
    → ((target : StageState) → o ≡ some target → AnsweredWith stage_id db.tables target)
    → Left stage_id db (take_answer now stage_id r answer o db)
take_answer-Left now stage_id db r answer none w =
    let event = stage_event stage_id "alert" (unknown_answer r answer) in
    inr (
      (transact-Still (log_event now event) db (log_event-IsQuiet now event refl)).same
      ∙ ap (λ (x : Database). view x.tables)
          (sym (proceed-pure (transact (log_event now event) db) false)))
take_answer-Left now stage_id db r answer (some target) w =
    let reason = concat "human gate answered: " answer in
    let payload = some (answer_payload r answer) in
    let after =
      proceed-pure (transition_to now stage_id target "founder" reason payload none db) true in
    elim (result-cases (transition_to now stage_id target "founder" reason payload none db).0) [
      | inl (seq, moved) ↦ inl (
        target,
        w target refl,
        subst (IsAt stage_id target) (sym after) (
            transition_to-IsAt now stage_id target "founder" reason payload none db
              (pure-IsQuiet tt) moved),
      )
      | inr (e, raised) ↦ inr (
          raised-view now stage_id target "founder" reason payload db raised
          ∙ ap (λ (x : Database). view x.tables) (sym after))
    ]

consume-Left :
    (now : Time) (stage_id : String) (db : Database) (o : Option DecisionRequest)
    → latest_decision "stage" stage_id db.tables ≡ o
    → Left stage_id db (consume now stage_id (answer_of o) db)
consume-Left now stage_id db none h = inr refl
consume-Left now stage_id db (some r) h = elim (Option-cases r.answer) [
  | inl missing ↦
      subst
        (λ a.
          Left stage_id db (consume now stage_id (answer_of (some (record r { answer = a }))) db))
        (sym missing) (inr refl)
  | inr (answer, given) ↦ elim (Bool-cases (r.status == "answered")) [
    | inl answered ↦
        subst
          (λ a.
            Left stage_id db (consume now stage_id (answer_of (some (record r { answer = a }))) db))
          (sym given)
          (rw answered (
            take_answer-Left now stage_id db (record r { answer = some answer }) answer
              (answer_target r.gate_kind answer)
              (λ target routed.
                (r, answer, h, (==_iff r.status "answered").0 answered, given, routed))))
    | inr pending ↦
        subst
          (λ a.
            Left stage_id db (consume now stage_id (answer_of (some (record r { answer = a }))) db))
          (sym given) (rw pending (inr refl))
  ]
]

-- A stage leaves its human gate only by an answer. Either its latest request was answered, with an
-- answer that the gate declares, and the stage is in the state to which the answer is routed; or
-- every unit is where it was. So it is also when the step raises.
pub step_awaiting_human-Left :
    (now : Time) (s : Stage) (db : Database) → Left s.id db (step_awaiting_human now s db)
unfolding step_awaiting_human
step_awaiting_human-Left now s db = elim (reads-cases (latest_decision "stage" s.id) _ db) [
  | inl seen ↦ subst (Left s.id db) (sym seen) (consume-Left now s.id db _ refl)
  | inr closed ↦ subst (Left s.id db) (sym closed) (inr refl)
]
