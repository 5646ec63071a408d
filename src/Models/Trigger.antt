-- ===== src/Models/Trigger.antt =====
-- `Trigger` of src/sf_factory/models.py: the mechanical escalation triggers.
use text.Mathlib.Text.{◌==◌ as str_eq}
use sf_f.Base.{
  String, ◌≡◌, refl, Option, none, some, if◌then◌else◌, Eq, Named, value_beq, value_beq_iff,
}

pub data Trigger : Type 0 where
  max_fix_iterations churn_threshold contract_change_request agent_declared_failure context_budget :
      Trigger

abbrev pub value : Trigger → String
value max_fix_iterations = "max_fix_iterations"
value churn_threshold = "churn_threshold"
value contract_change_request = "contract_change_request"
value agent_declared_failure = "agent_declared_failure"
value context_budget = "context_budget"

-- The class called on a text; `none` stands for its ValueError.
abbrev pub parse : String → Option Trigger
parse s =
    if str_eq s "max_fix_iterations"
    then some max_fix_iterations
    else if str_eq s "churn_threshold"
    then some churn_threshold
    else if str_eq s "contract_change_request"
    then some contract_change_request
    else if str_eq s "agent_declared_failure"
    then some agent_declared_failure
    else if str_eq s "context_budget"
    then some context_budget
    else none

pub parse-value : (x : Trigger) → parse (value x) ≡ some x
parse-value max_fix_iterations = refl
parse-value _ = refl

abbrev pub trigger_named : Named Trigger
trigger_named = record { value = value; parse = parse; parse-value = parse-value }

instance abbrev pub trigger_eq : Eq Trigger
trigger_eq = record { same = value_beq trigger_named; same_iff = value_beq_iff trigger_named }
