-- ===== src/Executor/Gate.antt =====
-- The human gate of a stage: `_leave_clean_audit`, `_enter_awaiting_human`, `_publish_decision`,
-- `_publish_alert` and `_step_awaiting_human` of src/sf_factory/scheduler.py.
use Prim.Native.String.{◌++◌ as concat}
use sf_f.Base.{
  ℕ, String, Bool, true, false, Option, none, some, [], ◌∷◌, ◌++◌, ◌==◌, string_eq, lookup,
  contains, if◌then◌else◌,
}
use sf_f.Base.Raises.{Result, ok, err, notify_error}
use sf_f.Config.{FactoryConfig}
use sf_f.Models.StageState
use sf_f.Models.StageState.{StageState}
use sf_f.Models.GateAnswers.{gate_answers, stage_answer_targets}
use sf_f.Models.Json.{Json, null, num, str, array, Payload}
use sf_f.Models.Records.{Time, Stage, DecisionRequest}
use sf_f.Store.Db.{Db}
use sf_f.Store.Tx.{Tx}
use sf_f.Store.Act.{Act, ◌>>=◌, ◌>>◌, pure, outside, reads, recall, transact}
use sf_f.Store.Decisions.{mark_decision_published}
use sf_f.StateMachine.{transition}
use sf_f.Executor.Queries.{latest_decision, risk_cfg}
use sf_f.Executor.Register.{FileFound}
use sf_f.Executor.Writes.{actor, texts, stage_event, factory_event, log_event, request_decision}

-- `self._sm.transition(Level.STAGE, stage.id, …)`
abbrev pub transition_to :
    Time
    → String
    → StageState
    → (who reason : String) → Option Payload
    → Option (Tx (Unit {0}))
    → Act ℕ
transition_to now stage_id target who reason payload coupled =
    transition now "stage" stage_id (StageState.value target) who reason payload coupled

-- A call of `self._notify.publish`, and the text of a NotifyError.
pub record Delivery : Type 0 where
  pub outcome : Result (Unit {0})
  pub error : String

-- `except NotifyError`: an event, and the state is unchanged.
unfoldable pub published : Time → Payload → Result (Unit {0}) → Act (Unit {0}) → Act (Unit {0})
published now context (ok _) after = after
published now context (err notify_error) after =
    transact (log_event now (factory_event "alert_delivery_failed" context))
published now context (err e) after = outside (err e)

abbrev optional_id : Option ℕ → Json
optional_id none = null
optional_id (some n) = num n

abbrev stamp : Time → Option ℕ → Act (Unit {0})
stamp now none = pure tt
stamp now (some n) = transact (mark_decision_published n now)

unfoldable pub publish_decision : Time → Option ℕ → Delivery → Act (Unit {0})
publish_decision now request_id sent =
    published now (("decision_request_id", optional_id request_id) ∷ ("error", str sent.error) ∷ [])
      sent.outcome (stamp now request_id)

unfoldable pub publish_alert : Time → Payload → Delivery → Act (Unit {0})
publish_alert now context sent =
    published now (context ++ ("error", str sent.error) ∷ []) sent.outcome (pure tt)

-- What entering the gate finds outside the database: the commit of the request's file, what is then
-- found out about the file, and the notification.
pub record GateOutside : Type 0 where
  pub sha : Result (Option String)
  pub file : FileFound
  pub sent : Delivery

-- The id of the request that was inserted last.
abbrev pub last_request : Db → Option ℕ
last_request d = some (d.decisions.last_id)

unfoldable pub enter_awaiting_human :
    Time → (stage_id from_reason gate_kind : String) → GateOutside → Act (Unit {0})
enter_awaiting_human now stage_id from_reason gate_kind out = do
  sha ← outside out.sha
  seq ←
      transition_to now stage_id StageState.awaiting_human actor from_reason
        (some (("gate_kind", str gate_kind) ∷ []))
        (some (request_decision now stage_id gate_kind out.file sha))
  request_id ← recall last_request
  publish_decision now request_id out.sent

abbrev pass_gate : Time → String → Act Bool
pass_gate now stage_id = do
  seq ←
      transition_to now stage_id StageState.merge_gate actor "findings closed, no human gate" none
        none
  pure true

abbrev ask_founder : Time → String → GateOutside → Act Bool
ask_founder now stage_id out = do
  enter_awaiting_human now stage_id "findings closed, critical human gate (DoD §9)" "critical_stage"
      out
  pure false

unfoldable pub leave_clean_audit : FactoryConfig → Time → Stage → GateOutside → Act Bool
leave_clean_audit cfg now stage out = do
  rc ← outside (risk_cfg cfg stage.risk_class)
  if rc.human_gate then ask_founder now stage.id out else pass_gate now stage.id

-- The answer of the request, if it is answered.
abbrev pub answer_of : Option DecisionRequest → Option (DecisionRequest × String)
answer_of none = none
answer_of (some r) = elim r.answer [
  | none ↦ none
  | some answer ↦ if r.status == "answered" then some (r, answer) else none
]

-- `_STAGE_ANSWER_TARGETS.get(answer) if answer in allowed else None`
abbrev pub answer_target : String → String → Option StageState
answer_target gate_kind answer =
    if contains answer (gate_answers "stage" gate_kind)
    then lookup answer stage_answer_targets
    else none

abbrev pub answer_payload : DecisionRequest → String → Payload
answer_payload r answer = ("decision_request_id", optional_id r.id) ∷ ("answer", str answer) ∷ []

abbrev pub unknown_answer : DecisionRequest → String → Payload
unknown_answer r answer =
    ("kind", str "unknown_decision_answer")
    ∷ ("decision_request_id", optional_id r.id)
    ∷ ("answer", str answer)
    ∷ ("known", array (texts (gate_answers "stage" r.gate_kind)))
    ∷ []

abbrev pub take_answer : Time → String → DecisionRequest → String → Option StageState → Act Bool
take_answer now stage_id r answer none = do
  transact (log_event now (stage_event stage_id "alert" (unknown_answer r answer)))
  pure false
take_answer now stage_id r answer (some target) = do
  seq ←
      transition_to now stage_id target "founder" (concat "human gate answered: " answer)
        (some (answer_payload r answer)) none
  pure true

abbrev pub consume : Time → String → Option (DecisionRequest × String) → Act Bool
consume now stage_id none = pure false
consume now stage_id (some (r, answer)) =
    take_answer now stage_id r answer (answer_target r.gate_kind answer)

unfoldable pub step_awaiting_human : Time → Stage → Act Bool
step_awaiting_human now stage = do
  decision ← reads (latest_decision "stage" stage.id)
  consume now stage.id (answer_of decision)
