-- ===== src/Executor/Escalated.antt =====
-- `_step_escalated` of src/sf_factory/scheduler.py: the way out of ESCALATED.
use Prim.Native.String.{◌++◌ as concat}
use sf_f.Base.{
  ℕ, String, Bool, true, false, not, Option, none, some, List, [], ◌∷◌, ◌==◌, string_eq, lookup,
  if◌then◌else◌, ltb, get_or,
}
use sf_f.Base.Raises.{Result, factory_error, assertion_error}
use sf_f.Config.{FactoryConfig}
use sf_f.Models.StageState.{StageState, escalation_resolutions}
use sf_f.Models.Json.{Json, null, flag, num, str, array, Payload}
use sf_f.Models.Records.{Time, Stage, Escalation, ArtifactRef}
use sf_f.Store.Db.{Db}
use sf_f.Store.Tx
use sf_f.Store.Tx.{Tx}
use sf_f.Store.Act.{Act, ◌>>=◌, ◌>>◌, pure, outside, reads, recall, transact, demand, check}
use sf_f.Store.Escalations.{open_escalation_count}
use sf_f.Store.Artifacts.{latest_artifact}
use sf_f.Executor.Queries.{latest_resolved_escalation, resolution_reason}
use sf_f.Executor.Writes.{texts, stage_event, log_event, request_decision, settle_contested}
use sf_f.Executor.Gate.{
  transition_to, GateOutside, last_request, publish_decision, leave_clean_audit,
}

-- What the step finds outside the database: the archiving of the sentinels, what entering a gate
-- finds, and `git rev-parse HEAD`.
pub record EscalatedOutside : Type 0 where
  pub archived : Result (Unit {0})
  pub gate : GateOutside
  pub head : Result String

-- A worktree path that Python takes for true.
abbrev pub has_worktree : Stage → Bool
has_worktree stage = elim stage.worktree_path [ none ↦ false | some path ↦ not (path == "") ]

abbrev pub archive : Stage → EscalatedOutside → Act (Unit {0})
archive stage out = if has_worktree stage then outside out.archived else pure tt

-- `_escalation_anchor_ref`: the payload, the latest escalation_payload, or the spec.
abbrev id_of : Option ArtifactRef → Option ℕ
id_of none = none
id_of (some a) = a.id

abbrev or_else : Option ℕ → Option ℕ → Option ℕ
or_else none b = b
or_else (some a) b = some a

unfoldable pub escalation_anchor_ref : String → Escalation → Db → Option ℕ
escalation_anchor_ref stage_id e d = or_else e.payload_artifact_id (
    or_else (id_of (latest_artifact "stage" stage_id "escalation_payload" d))
      (id_of (latest_artifact "stage" stage_id "spec" d)))

-- A byte-identical replay commits nothing, and is pinned to HEAD.
abbrev pub pinned : Option String → EscalatedOutside → Act (Option String)
pinned (some sha) out = pure (some sha)
pinned none out = outside out.head >>= λ sha. pure (some sha)

-- The wrapper of the trade-off request, committed before the recording transaction.
abbrev pub wrapped : Stage → Escalation → EscalatedOutside → Act (Option String)
wrapped stage e out = do
  check (has_worktree stage) factory_error
  anchor ← reads (escalation_anchor_ref stage.id e)
  payload_ref ← demand anchor factory_error
  sha ← outside out.gate.sha
  pinned sha out

-- A rework target sustains the findings; a VALIDATE re-entry means that the contest prevailed.
abbrev pub settled_as : Time → String → StageState → Tx (Unit {0})
settled_as now stage_id StageState.validate = settle_contested now stage_id "overruled"
settled_as now stage_id StageState.build = settle_contested now stage_id "sustained"
settled_as now stage_id StageState.spec = settle_contested now stage_id "sustained"
settled_as now stage_id _ = Tx.pure tt

abbrev optional_id : Option ℕ → Json
optional_id none = null
optional_id (some n) = num n

abbrev optional_text : Option String → Json
optional_text none = null
optional_text (some s) = str s

-- `sorted(STAGE_ESCALATION_RESOLUTIONS)`
abbrev known_resolutions : List String
known_resolutions =
    "awaiting_human" ∷ "cancelled" ∷ "failed" ∷ "respec" ∷ "rework:BUILD" ∷ "rework:MERGE_GATE"
    ∷ "rework:SPEC" ∷ "rework:SPEC_DOC" ∷ "rework:VALIDATE" ∷ []

abbrev pub refusal : Escalation → Payload
refusal last =
    ("kind", str "unknown_escalation_resolution")
    ∷ ("escalation_id", optional_id last.id)
    ∷ ("resolution", optional_text last.resolution)
    ∷ ("known", array (texts known_resolutions))
    ∷ []

module _ (cfg : FactoryConfig) (now : Time) (stage : Stage) (out : EscalatedOutside) where
  abbrev pub settle_without_action : Act Bool
  settle_without_action = do
    archive stage out
    transact (settle_contested now stage.id "settled")
    check (has_worktree stage) factory_error
    leave_clean_audit cfg now stage out.gate

  abbrev pub refuse : Escalation → Act Bool
  refuse last = do
    transact (log_event now (stage_event stage.id "alert" (refusal last)))
    pure false

  abbrev pub routed : Escalation → StageState → Tx (Unit {0}) → Act (Unit {0})
  routed last target coupled = do
    id ← demand last.id assertion_error
    rationale ← reads (resolution_reason "stage" stage.id id)
    let resolution = get_or last.resolution ""
    let reason = get_or rationale (concat "escalation resolved: " resolution)
    seq ←
        transition_to now stage.id target "phase_architect" reason
          (some (
            ("escalation_id", num id)
            ∷ ("resolution", optional_text last.resolution)
            ∷ ("rework_context", str reason)
            ∷ ("documentary", flag (resolution == "rework:SPEC_DOC"))
            ∷ []))
          (some coupled)
    pure tt

  abbrev pub announce : Act Bool
  announce = do
    request_id ← recall last_request
    publish_decision now request_id out.gate.sent
    pure true

  abbrev pub ask_tradeoff : Escalation → Act Bool
  ask_tradeoff last = do
    sha ← wrapped stage last out
    routed last StageState.awaiting_human
        (request_decision now stage.id "escalation_tradeoff" out.gate.file sha)
    announce

  abbrev pub plain : Escalation → StageState → Act Bool
  plain last target = do routed last target (settled_as now stage.id target); pure true

  abbrev pub send : Escalation → StageState → Act Bool
  send last StageState.awaiting_human = ask_tradeoff last
  send last target = plain last target

  abbrev pub resolve : Escalation → Option StageState → Act Bool
  resolve last none = refuse last
  resolve last (some target) = do archive stage out; send last target

  abbrev pub leave : Option Escalation → Act Bool
  leave none = pure false
  leave (some last) =
      let resolution = get_or last.resolution "" in
      if resolution == "settled"
      then settle_without_action
      else resolve last (lookup resolution escalation_resolutions)

  abbrev pub pick_up : Act Bool
  pick_up = do last ← reads (latest_resolved_escalation "stage" stage.id); leave last

  unfoldable pub step_escalated : Act Bool
  step_escalated = do
    unresolved ← reads (open_escalation_count "stage" stage.id)
    if ltb 0 unresolved then pure false else pick_up
