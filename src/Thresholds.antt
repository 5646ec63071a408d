-- ===== src/Thresholds.antt =====
-- `ThresholdEvaluator` of src/sf_factory/thresholds.py: the counters it records and the five checks of
-- `evaluate`. The instants of the clock are numbers; a check returns its evidence or None.
pub mod Tests
pub mod Stagnation
pub mod Sentinels
pub mod Quiet
pub mod Fires
use Prim.Native.Nat.{Ordering}
use Prim.Native.String.{compare}
use mathlib.Core.List.{reverse}
use sf_f.Base.{
  ℕ, ◌+◌, String, Bool, true, false, not, ◌&&◌, Option, none, some, List, [], ◌∷◌, ◌++◌, ◌==◌,
  string_eq, nat_eq, option_eq, filter, length, take, if◌then◌else◌, leb, ltb, max, is_none, get_or,
  map, count,
}
use sf_f.Base.Raises.{Result, ok, err, ◌>>=◌, require_some, config_error}
use sf_f.Config.{FactoryConfig}
use sf_f.Models.Level
use sf_f.Models.Level.{stage}
use sf_f.Models.Trigger
use sf_f.Models.Trigger.{
  Trigger, max_fix_iterations, churn_threshold, contract_change_request, agent_declared_failure,
  context_budget,
}
use sf_f.Models.Json.{
  Json, num, str, array, object, Items, nil, cons, Fields, end, field, Payload, nums,
}
use sf_f.Models.Records.{Time, Stage, Event, Escalation, TriggerFiring, ValidationSummary}
use sf_f.Store.Table
use sf_f.Store.Db.{Db, FixIteration, Churn, LedgerRow}
use sf_f.Store.Tx.{Tx}
use sf_f.Store.Counters.{insert_fix_iteration}
use sf_f.Store.Escalations.{open_escalation}
use sf_f.Store.Tokens.{token_sum, of_unit, counted_role, effective_token_sum}
use sf_f.Store.Settings.{get_runtime_settings}
use sf_f.Store.Settings.Effective.{budget}

abbrev pub record_validation : Time → String → ValidationSummary → Option ℕ → Tx ℕ
record_validation now stage_id summary report_artifact_id =
    insert_fix_iteration now stage_id summary.failing report_artifact_id

-- The later of two instants, either of which may be NULL.
abbrev later : Option Time → Option Time → Option Time
later none b = b
later (some a) none = some a
later (some a) (some b) = some (max a b)

abbrev pub resolved_fix : String → Escalation → Bool
resolved_fix stage_id e =
    e.unit_level == "stage"
    && (e.unit_id == stage_id && (e.trigger == "max_fix_iterations" && e.status == "resolved"))

-- SELECT MAX(resolved_at) … AND status = 'resolved'
abbrev pub last_resolved : String → List Escalation → Option Time
last_resolved stage_id [] = none
last_resolved stage_id (e ∷ es) =
    let rest = last_resolved stage_id es in
    if resolved_fix stage_id e then later e.resolved_at rest else rest

-- created_at > COALESCE(resolved, '')
abbrev pub is_after : Option Time → Time → Bool
is_after none t = true
is_after (some resolved) t = ltb resolved t

-- ORDER BY iteration DESC
abbrev by_iteration : FixIteration → List FixIteration → List FixIteration
by_iteration r [] = r ∷ []
by_iteration r (x ∷ rows) =
    let rest = by_iteration r rows in if leb x.iteration r.iteration then r ∷ x ∷ rows else x ∷ rest

abbrev newest_first : List FixIteration → List FixIteration
newest_first [] = []
newest_first (r ∷ rows) = by_iteration r (newest_first rows)

-- _FIX_WINDOW_CTE, the newest iteration first.
unfoldable pub fix_window : ℕ → String → Db → List FixIteration
fix_window n stage_id d = take n (
    newest_first (
      filter
        (λ r.
          r.stage_id == stage_id
          && is_after (last_resolved stage_id (Table.values d.escalations)) r.created_at)
        d.fix_iterations))

-- LAG over the window: the rows that are no less than the one before them.
unfoldable pub nondecreasing_pairs : List FixIteration → ℕ
nondecreasing_pairs [] = 0
nondecreasing_pairs (r ∷ []) = 0
nondecreasing_pairs (r ∷ prev ∷ rows) =
    let rest = nondecreasing_pairs (prev ∷ rows) in
    (if leb prev.failing_tests r.failing_tests then 1 else 0) + rest

abbrev pub latest_failing : List FixIteration → ℕ
latest_failing [] = 0
latest_failing (r ∷ rows) = r.failing_tests

abbrev pub iteration_rows : List FixIteration → Items
iteration_rows [] = nil
iteration_rows (r ∷ rows) =
    cons
      (object
        (field "iteration" (num r.iteration) (field "failing_tests" (num r.failing_tests) end)))
      (iteration_rows rows)

unfoldable pub stagnation : ℕ → List FixIteration → Option Payload
unfolding nondecreasing_pairs
stagnation n window =
    if ltb (length window) n
    then none
    else if not (nondecreasing_pairs window + 1 == n)
    then none
    else if leb (latest_failing window) 0
    then none
    else some (
        ("iterations", array (iteration_rows (reverse window)))
        ∷ ("max_fix_iterations", num n)
        ∷ [])

unfoldable pub check_max_fix_iterations : FactoryConfig → Db → Stage → Option Payload
unfolding fix_window stagnation
check_max_fix_iterations cfg d s =
    let n = cfg.escalation.max_fix_iterations in stagnation n (fix_window n s.id d)

-- ORDER BY file_path, region
abbrev comes_first : Churn → Churn → Bool
comes_first a b = elim (compare a.file_path b.file_path) [
  | Ordering.lt ↦ true
  | Ordering.eq ↦ leb a.region b.region
  | Ordering.gt ↦ false
]

abbrev by_region : Churn → List Churn → List Churn
by_region c [] = c ∷ []
by_region c (x ∷ rows) =
    let rest = by_region c rows in if comes_first c x then c ∷ x ∷ rows else x ∷ rest

abbrev in_order : List Churn → List Churn
in_order [] = []
in_order (c ∷ rows) = by_region c (in_order rows)

abbrev region_rows : List Churn → Items
region_rows [] = nil
region_rows (c ∷ rows) =
    cons
      (object (
        field "file_path" (str c.file_path)
          (field "region" (num c.region) (field "edit_count" (num c.edit_count) end))))
      (region_rows rows)

abbrev pub is_churned : ℕ → String → Churn → Bool
is_churned threshold stage_id c = c.stage_id == stage_id && leb threshold c.edit_count

abbrev churn_evidence : ℕ → List Churn → Option Payload
churn_evidence threshold [] = none
churn_evidence threshold (c ∷ rows) =
    some (("regions", array (region_rows (c ∷ rows))) ∷ ("churn_threshold", num threshold) ∷ [])

unfoldable pub check_churn_threshold : FactoryConfig → Db → Stage → Option Payload
check_churn_threshold cfg d s =
    churn_evidence cfg.escalation.churn_threshold
      (in_order (filter (is_churned cfg.escalation.churn_threshold s.id) d.churn))

-- COALESCE((SELECT MAX(event_seq) …), 0): whatever the status of the escalation.
abbrev pub cursor : String → String → List Escalation → ℕ
cursor stage_id trigger [] = 0
cursor stage_id trigger (e ∷ es) =
    let rest = cursor stage_id trigger es in
    if e.unit_level == "stage" && (e.unit_id == stage_id && e.trigger == trigger)
    then max (get_or e.event_seq 0) rest
    else rest

abbrev pub is_sentinel : String → String → Event → Bool
is_sentinel stage_id event_type e =
    e.unit_level == "stage" && (e.unit_id == some stage_id && e.event_type == event_type)

-- _SENTINEL_SQL
unfoldable pub uncovered : String → String → Trigger → Db → List ℕ
uncovered stage_id event_type trigger d =
    map (λ (e : Event). e.seq)
      (filter
        (λ e.
          is_sentinel stage_id event_type e
          && ltb (cursor stage_id (Trigger.value trigger) (Table.values d.escalations)) e.seq)
        (Table.values d.events))

-- `seqs[-1]`
abbrev pub last_of : ℕ → List ℕ → ℕ
last_of n [] = n
last_of n (m ∷ ms) = last_of m ms

abbrev pub sentinel_evidence : List ℕ → Option Payload
sentinel_evidence [] = none
sentinel_evidence (n ∷ ns) =
    some (("event_seqs", array (nums (n ∷ ns))) ∷ ("event_seq", num (last_of n ns)) ∷ [])

unfoldable pub check_sentinel : Db → Stage → String → Trigger → Option Payload
unfolding uncovered
check_sentinel d s event_type trigger = sentinel_evidence (uncovered s.id event_type trigger d)

-- _CONTEXT_BUDGET_TOKENS_SQL
abbrev pub total_tokens : String → Db → ℕ
total_tokens stage_id d = token_sum (
    filter (λ r. of_unit "stage" stage_id r && counted_role (some "decision_session") r)
      (Table.values d.ledger))

abbrev pub context_resets : String → Db → ℕ
context_resets stage_id d = count (is_sentinel stage_id "context_reset") (Table.values d.events)

unfoldable pub check_context_budget : FactoryConfig → Db → Stage → Result (Option Payload)
check_context_budget cfg d s = do
  overrides ← get_runtime_settings cfg.json d
  found ← budget overrides cfg s.risk_class
  limit ← require_some found config_error
  let effective = effective_token_sum "stage" s.id (some "decision_session") d
  ok (
      if ltb effective limit
      then none
      else some (
          ("effective_tokens", num effective)
          ∷ ("total_tokens", num (total_tokens s.id d))
          ∷ ("budget", num limit)
          ∷ ("risk_class", str s.risk_class)
          ∷ ("context_resets", num (context_resets s.id d))
          ∷ ("max_context_resets", num cfg.escalation.max_context_resets)
          ∷ []))

abbrev pub check : FactoryConfig → Db → Stage → Trigger → Result (Option Payload)
check cfg d s max_fix_iterations = ok (check_max_fix_iterations cfg d s)
check cfg d s churn_threshold = ok (check_churn_threshold cfg d s)
check cfg d s contract_change_request =
    ok (check_sentinel d s "contract_change_request" contract_change_request)
check cfg d s agent_declared_failure =
    ok (check_sentinel d s "declared_failure" agent_declared_failure)
check cfg d s context_budget = check_context_budget cfg d s

abbrev pub firing : Stage → Trigger → Option Payload → List TriggerFiring
firing s trigger none = []
firing s trigger (some evidence) =
    record { trigger = trigger; unit_level = "stage"; unit_id = s.id; evidence = evidence } ∷ []

-- One round of the loop of `evaluate`: an open escalation is passed over, and its check is not run.
abbrev pub fire : FactoryConfig → Db → Stage → Trigger → Result (List TriggerFiring)
fire cfg d s trigger = elim (open_escalation "stage" s.id (Trigger.value trigger) d) [
  | some _ ↦ ok []
  | none ↦ elim (check cfg d s trigger) [
    | ok evidence ↦ ok (firing s trigger evidence)
    | err e ↦ err e
  ]
]

unfoldable pub firings : FactoryConfig → Db → Stage → List Trigger → Result (List TriggerFiring)
firings cfg d s [] = ok []
firings cfg d s (trigger ∷ triggers) = do
  fired ← fire cfg d s trigger
  rest ← firings cfg d s triggers
  ok (fired ++ rest)

unfoldable pub evaluate : FactoryConfig → Db → Stage → Result (List TriggerFiring)
unfolding firings
evaluate cfg d s = firings cfg d s (
    max_fix_iterations ∷ churn_threshold ∷ contract_change_request ∷ agent_declared_failure
    ∷ context_budget ∷ [])
