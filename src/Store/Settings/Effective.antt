-- ===== src/Store/Settings/Effective.antt =====
-- `EffectiveConfig` of src/sf_factory/runtime_settings.py: the founder's overrides over the
-- configuration. The two thresholds in percent, which are reals, are not modelled.
use Prim.Native.String.{◌++◌ as concat}
use text.Mathlib.Text.{starts_with}
use sf_f.Base.{
  ℕ, String, Bool, true, false, not, ◌||◌, Option, none, some, List, [], ◌∷◌, lookup, contains,
  string_eq, nat_eq, ◌==◌,
}
use sf_f.Base.Raises.{Result, ok, err, value_error}
use sf_f.Models.Json.{Json, null, flag, num, str, array, object, nil, end}
use sf_f.Config.{FactoryConfig}

abbrev pub writable_keys : List String
writable_keys =
    "max_parallel_agents" ∷ "agent_timeout_s" ∷ "governor.five_hour_threshold_pct"
    ∷ "governor.seven_day_threshold_pct" ∷ "governor.autodrenaj" ∷ "drain.manual" ∷ []

abbrev pub budget_key : String → String
budget_key risk_class = concat "budget." risk_class

abbrev pub is_writable_key : String → Bool
is_writable_key key = contains key writable_keys || starts_with key "budget."

-- `overrides.get(key)`; a JSON null is Python's None.
abbrev pub override : String → List (String × Json) → Option Json
override key overrides = elim (lookup key overrides) [
  | none ↦ none
  | some v ↦ elim v [ null ↦ none | other ↦ some other ]
]

-- `int(v)`; on an array or an object it raises TypeError, which is modelled by the same error.
abbrev pub int_of : FactoryConfig → Json → Result ℕ
int_of cfg (num n) = ok n
int_of cfg (flag true) = ok 1
int_of cfg (flag false) = ok 0
int_of cfg (str s) = elim (cfg.int_of_text s) [ none ↦ err value_error | some n ↦ ok n ]
int_of cfg _ = err value_error

-- `bool(v)`
abbrev pub bool_of : Json → Bool
bool_of null = false
bool_of (flag b) = b
bool_of (num n) = not (n == 0)
bool_of (str s) = not (s == "")
bool_of (array nil) = false
bool_of (object end) = false
bool_of _ = true

abbrev pub int_or : FactoryConfig → Option Json → ℕ → Result ℕ
int_or cfg none default = ok default
int_or cfg (some v) default = int_of cfg v

module _ (overrides : List (String × Json)) (cfg : FactoryConfig) where
  unfoldable pub max_parallel_agents : Result ℕ
  max_parallel_agents =
      int_or cfg (override "max_parallel_agents" overrides) cfg.max_parallel_agents

  unfoldable pub agent_timeout_s : Result ℕ
  agent_timeout_s = int_or cfg (override "agent_timeout_s" overrides) cfg.agent_timeout_s

  abbrev budget_of : Option Json → String → Result (Option ℕ)
  budget_of none risk_class = ok (lookup risk_class cfg.budgets.per_stage)
  budget_of (some v) risk_class = elim (int_of cfg v) [ ok n ↦ ok (some n) | err e ↦ err e ]

  unfoldable pub budget : String → Result (Option ℕ)
  budget risk_class = budget_of (override (budget_key risk_class) overrides) risk_class

  unfoldable pub autodrenaj : Bool
  autodrenaj = elim (override "governor.autodrenaj" overrides) [
    | none ↦ cfg.proactive_enabled
    | some v ↦ bool_of v
  ]

-- `bool(overrides.get(KEY_DRAIN_MANUAL, False))`
unfoldable pub drain_manual : List (String × Json) → Bool
drain_manual overrides = elim (lookup "drain.manual" overrides) [
  | none ↦ false
  | some v ↦ bool_of v
]
