-- ===== src/Executor/Queries.antt =====
-- The queries at the head of src/sf_factory/scheduler.py that the stage executor makes.
use Prim.Native.String.{◌++◌ as concat}
use mathlib.Core.List.{reverse}
use sf_f.Base.{
  any, ◌++◌, ℕ, String, Bool, false, ◌&&◌, Option, none, some, List, [], ◌∷◌, ◌==◌, string_eq,
  nat_eq, option_eq, find, filter, lookup, if◌then◌else◌,
}
use sf_f.Base.Raises.{Result, config_error, require_some}
use sf_f.Config.{ModelRoute, FactoryConfig, ConsultationPointCfg, RiskClassCfg}
use sf_f.Models.Json.{Json, num, str, Payload}
use sf_f.Models.Records.{Event, Escalation, DecisionRequest}
use sf_f.Store.Table
use sf_f.Store.Db.{Db, DecisionRow}
use sf_f.Store.Events.{max_key}

abbrev pub asks_for : String → String → DecisionRow → Bool
asks_for unit_level unit_id r = r.request.unit_level == unit_level && r.request.unit_id == unit_id

abbrev pub request_of : Option DecisionRow → Option DecisionRequest
request_of none = none
request_of (some r) = some r.request

-- `_latest_decision`: ORDER BY id DESC LIMIT 1
unfoldable pub latest_decision : String → String → Db → Option DecisionRequest
latest_decision unit_level unit_id d =
    request_of (find (asks_for unit_level unit_id) (reverse (Table.values d.decisions)))

abbrev pub is_resolved_for : String → String → Escalation → Bool
is_resolved_for unit_level unit_id e =
    e.unit_level == unit_level && (e.unit_id == unit_id && e.status == "resolved")

-- `_latest_resolved_escalation`
unfoldable pub latest_resolved_escalation : String → String → Db → Option Escalation
latest_resolved_escalation unit_level unit_id d =
    find (is_resolved_for unit_level unit_id) (reverse (Table.values d.escalations))

abbrev is_text : String → Option Json → Bool
is_text s (some (str t)) = t == s
is_text s _ = false

abbrev pub is_of_type : String → String → Option String → Event → Bool
is_of_type unit_id event_type none e =
    e.unit_level == "stage" && (e.unit_id == some unit_id && e.event_type == event_type)
is_of_type unit_id event_type (some role) e =
    e.unit_level == "stage"
    && (e.unit_id == some unit_id
        && (e.event_type == event_type && is_text role (lookup "role" e.payload)))

-- `_last_event_seq_of_type`: COALESCE(MAX(seq), 0)
unfoldable pub last_event_seq_of_type : String → String → Option String → Db → ℕ
last_event_seq_of_type unit_id event_type role d =
    max_key (filter (λ (row : ℕ × Event). is_of_type unit_id event_type role row.1) d.events.rows)

abbrev is_entry : String → String → String → Event → Bool
is_entry unit_level unit_id to_state e =
    e.unit_level == unit_level
    && (e.unit_id == some unit_id && (e.event_type == "transition" && e.to_state == some to_state))

-- `_last_transition_payload`: ORDER BY seq DESC LIMIT 1
unfoldable pub last_transition_payload : String → String → String → Db → Payload
last_transition_payload unit_level unit_id to_state d =
    elim (find (is_entry unit_level unit_id to_state) (reverse (Table.values d.events))) [
      | none ↦ []
      | some e ↦ e.payload
    ]

abbrev is_number : ℕ → Option Json → Bool
is_number n (some (num m)) = m == n
is_number n _ = false

abbrev is_resolution : String → String → ℕ → Event → Bool
is_resolution unit_level unit_id escalation_id e =
    e.unit_level == unit_level
    && (e.unit_id == some unit_id
        && (e.event_type == "escalation_resolved"
            && is_number escalation_id (lookup "escalation_id" e.payload)))

-- The first of the payloads whose "reason" is a text that is not empty.
abbrev reason_in : List Event → Option String
reason_in [] = none
reason_in (e ∷ es) = elim (lookup "reason" e.payload) [
  | some (str reason) ↦ let rest = reason_in es in if reason == "" then rest else some reason
  | _ ↦ reason_in es
]

-- `_resolution_reason`
unfoldable pub resolution_reason : String → String → ℕ → Db → Option String
resolution_reason unit_level unit_id escalation_id d =
    reason_in
      (filter (is_resolution unit_level unit_id escalation_id) (reverse (Table.values d.events)))

-- `_risk_cfg`
abbrev pub risk_cfg : FactoryConfig → String → Result RiskClassCfg
risk_cfg cfg risk_class = require_some (lookup risk_class cfg.risk_classes) config_error

-- `_builder_role`: the first candidate that the configuration names.
abbrev pub tier_of : String → String
tier_of risk_class = if risk_class == "routine" then "routine" else "heavy"

abbrev of_kind : Option String → String → List String
of_kind none tier = []
of_kind (some kind) tier =
    if kind == ""
    then []
    else concat (concat (concat "builder_" kind) "_") tier ∷ concat "builder_" kind ∷ []

abbrev pub builder_candidates : String → Option String → List String
builder_candidates risk_class kind =
    of_kind kind (tier_of risk_class) ++ concat "builder_" risk_class ∷ "builder_heavy" ∷ []

abbrev is_configured : FactoryConfig → String → Bool
is_configured cfg role = any (λ (entry : String × ModelRoute). entry.0 == role) cfg.models

unfoldable pub builder_role : FactoryConfig → String → Option String → Result String
builder_role cfg risk_class kind =
    require_some (find (is_configured cfg) (builder_candidates risk_class kind)) config_error

-- `_cp_point`
abbrev pub cp_point : FactoryConfig → String → Result ConsultationPointCfg
cp_point cfg cp_id =
    require_some (find (λ (cp : ConsultationPointCfg). cp.id == cp_id) cfg.consultation_points)
      config_error
