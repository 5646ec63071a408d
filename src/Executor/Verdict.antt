-- ===== src/Executor/Verdict.antt =====
-- `_execute_cp1_verdict` of src/sf_factory/scheduler.py: what the consultation point CP-1 said is done.
use Prim.Native.String.{◌++◌ as concat}
use sf_f.Base.{
  ℕ, String, Bool, true, false, Option, none, some, List, [], ◌∷◌, ◌++◌, ◌==◌, string_eq, lookup,
  contains, if◌then◌else◌,
}
use sf_f.Base.Raises.{err, factory_error, key_error}
use sf_f.Config.{FactoryConfig}
use sf_f.Models.StageState.{StageState}
use sf_f.Models.Json.{Json, flag, num, str, Payload}
use sf_f.Models.Records.{Time, Stage}
use sf_f.Store.Act.{Act, ◌>>=◌, pure, outside, reads, demand}
use sf_f.Store.Processes.{last_session_id}
use sf_f.Executor.Queries.{builder_role}
use sf_f.Executor.Writes.{actor, stage_event, log_event, stage_escalation, escalate}
use sf_f.Executor.Gate.{transition_to}

-- `Verdict` of src/sf_factory/consultation.py.
pub record Verdict : Type 0 where
  pub cp_id : String
  pub value : String
  pub rationale : String
  pub fallback_used : Bool
  pub consultation_id : ℕ

abbrev pub base_payload : Verdict → ℕ → Payload
base_payload v iteration =
    ("verdict", str v.value)
    ∷ ("fallback_used", flag v.fallback_used)
    ∷ ("consultation_id", num v.consultation_id)
    ∷ ("iteration", num iteration)
    ∷ []

-- RESUME_VERIFIED_CLIS
abbrev pub resume_verified_clis : List String
resume_verified_clis = "claude" ∷ "stub" ∷ []

-- Why the session is not resumed: the two texts of `downgrade_reason`.
abbrev pub downgrade_reason : String → Option String → Option String
downgrade_reason cli session_id =
    if contains cli resume_verified_clis
    then elim session_id [ none ↦ some "no finalized builder session to resume" | some _ ↦ none ]
    else some (concat (concat "route cli '" cli) "' lacks verified resume (OPEN-3)")

abbrev pub downgrade_payload : String → Payload
downgrade_payload reason =
    ("verdict", str "continue_session")
    ∷ ("executed_as", str "rebuild")
    ∷ ("reason", str reason)
    ∷ []

abbrev session_json : Option String → Json
session_json none = Json.null
session_json (some s) = str s

module _ (cfg : FactoryConfig) (now : Time) (stage : Stage) (v : Verdict) (iteration : ℕ) where
  abbrev pub resume : Option String → Option String → Act Bool
  resume session_id (some reason) = do
    seq ←
        transition_to now stage.id StageState.build actor
          "CP-1 continue_session downgraded to rebuild"
          (some (
            base_payload v iteration
            ++ ("executed_as", str "rebuild")
              ∷ (
                "rework_context",
                str (concat "CP-1 continue_session downgraded to rebuild: " reason),
              )
              ∷ []))
          (some
            (log_event now (stage_event stage.id "verdict_downgraded" (downgrade_payload reason))))
    pure true
  resume session_id none = do
    seq ←
        transition_to now stage.id StageState.build actor "CP-1 verdict continue_session"
          (some (base_payload v iteration ++ ("resume_session", session_json session_id) ∷ [])) none
    pure true

  abbrev pub continue_session : Act Bool
  continue_session = do
    role ← outside (builder_role cfg stage.risk_class stage.kind)
    session_id ← reads (last_session_id "stage" stage.id role)
    route ← demand (lookup role cfg.models) key_error
    resume session_id (downgrade_reason route.cli session_id)

  abbrev pub rework : StageState → String → Act Bool
  rework target reason = do
    seq ←
        transition_to now stage.id target actor reason
          (some (base_payload v iteration ++ ("rework_context", str reason) ∷ [])) none
    pure true

  abbrev pub give_up : Act Bool
  give_up = do
    seq ←
        transition_to now stage.id StageState.escalated actor "CP-1 verdict escalate"
          (some (base_payload v iteration))
          (some (escalate (stage_escalation now stage.id "cp1_verdict" none none)))
    pure false

  unfoldable pub execute_cp1_verdict : Act Bool
  execute_cp1_verdict =
      if v.value == "continue_session"
      then continue_session
      else if v.value == "rebuild"
      then rework StageState.build "CP-1 verdict rebuild"
      else if v.value == "respec"
      then rework StageState.spec "CP-1 verdict respec"
      else if v.value == "escalate"
      then give_up
      else outside (err factory_error)
