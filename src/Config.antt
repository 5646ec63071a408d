-- ===== src/Config.antt =====
-- The parts of src/sf_factory/config.py's `FactoryConfig` that the modelled code reads.
use sf_f.Models.Json.{Codec}
use sf_f.Base.{ℕ, String, Bool, Option, List}

pub record ModelRoute : Type 0 where
  pub cli : String

pub record ProjectCfg : Type 0 where
  pub proving_phases : List String

pub record RiskClassCfg : Type 0 where
  pub validator : String
  pub audits : List String
  pub spec_audits : List String
  pub human_gate : Bool

pub record BudgetsCfg : Type 0 where
  pub per_stage : List (String × ℕ)
  pub usage_missing_policy : String
  pub usage_missing_max_per_stage : ℕ

pub record EscalationCfg : Type 0 where
  pub max_fix_iterations : ℕ
  pub churn_threshold : ℕ
  pub churn_region_lines : ℕ
  pub max_context_resets : ℕ

pub record ConsultationPointCfg : Type 0 where
  pub id : String
  pub role : String

pub record FactoryConfig : Type 0 where
  pub projects : List (String × ProjectCfg)
  pub models : List (String × ModelRoute)
  pub risk_classes : List (String × RiskClassCfg)
  pub consultation_points : List ConsultationPointCfg
  pub escalation : EscalationCfg
  pub budgets : BudgetsCfg
  pub max_parallel_agents : ℕ
  pub agent_timeout_s : ℕ
  pub proactive_enabled : Bool
  pub int_of_text : String → Option ℕ  -- Python's `int` on a text, which is not the program's code
  pub json : Codec
