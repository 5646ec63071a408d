-- ===== src/Thresholds/Fires.antt =====
-- What `evaluate` of src/sf_factory/thresholds.py does not miss.
use mathlib.Core.Path.{subst}
use sf_f.Base.{◌≡◌, refl, sym, ap, ◌∙◌, none, some, List, [], ◌∷◌, ◌++◌, Any, inl, inr}
use sf_f.Base.Raises.{ok, >>=-eq-ok, ok-injective}
use sf_f.Config.{FactoryConfig}
use sf_f.Models.Trigger
use sf_f.Models.Trigger.{
  Trigger, max_fix_iterations, churn_threshold, contract_change_request, agent_declared_failure,
  context_budget,
}
use sf_f.Models.Json.{Payload}
use sf_f.Models.Records.{Stage, TriggerFiring}
use sf_f.Store.Db.{Db}
use sf_f.Store.Escalations.{open_escalation}
use sf_f.Thresholds.{check, fire, firings, evaluate}

Any-append_left : {A : Type 0} (P : A → Type 0) (xs ys : List A) → Any P xs → Any P (xs ++ ys)
Any-append_left P [] ys h = absurd h
Any-append_left P (x ∷ xs) ys (inl here) = inl here
Any-append_left P (x ∷ xs) ys (inr there) = inr (Any-append_left P xs ys there)

Any-append_right : {A : Type 0} (P : A → Type 0) (xs ys : List A) → Any P ys → Any P (xs ++ ys)
Any-append_right P [] ys h = h
Any-append_right P (x ∷ xs) ys h = inr (Any-append_right P xs ys h)

-- The firing of the trigger with the evidence.
abbrev pub FiresWith : Trigger → Payload → TriggerFiring → Type 0
FiresWith trigger evidence f = (f.trigger ≡ trigger) × (f.evidence ≡ evidence)

module _ (cfg : FactoryConfig) (d : Db) (s : Stage) (trigger : Trigger) (evidence : Payload)
    (free : open_escalation "stage" s.id (Trigger.value trigger) d ≡ none)
    (due : check cfg d s trigger ≡ ok (some evidence)) where
  fire-has :
      {fs : List TriggerFiring} → fire cfg d s trigger ≡ ok fs → Any (FiresWith trigger evidence) fs
  fire-has h =
      subst (Any (FiresWith trigger evidence)) (ok-injective (rw (free, due, fire) at h))
        (inl (refl, refl))

  firings-has :
      (triggers : List Trigger) {fs : List TriggerFiring}
      → Any (λ x. x ≡ trigger) triggers
      → firings cfg d s triggers ≡ ok fs
      → Any (FiresWith trigger evidence) fs
  unfolding firings
  firings-has [] listed h = absurd listed
  firings-has (x ∷ triggers) listed h =
      let (fired, first, h') = >>=-eq-ok (fire cfg d s x) _ h in
      let (rest, others, joined) = >>=-eq-ok (firings cfg d s triggers) _ h' in
      subst (Any (FiresWith trigger evidence)) (ok-injective joined) (elim listed [
        | inl same ↦
            Any-append_left (FiresWith trigger evidence) fired rest
              (fire-has (ap (fire cfg d s) (sym same) ∙ first))
        | inr there ↦
            Any-append_right (FiresWith trigger evidence) fired rest
              (firings-has triggers there others)
      ])

abbrev every_trigger : List Trigger
every_trigger =
    max_fix_iterations ∷ churn_threshold ∷ contract_change_request ∷ agent_declared_failure
    ∷ context_budget ∷ []

listed : (t : Trigger) → Any (λ x. x ≡ t) every_trigger
listed max_fix_iterations = inl refl
listed churn_threshold = inr (inl refl)
listed contract_change_request = inr (inr (inl refl))
listed agent_declared_failure = inr (inr (inr (inl refl)))
listed context_budget = inr (inr (inr (inr (inl refl))))

-- `evaluate` misses nothing: when it returns, a trigger of any kind whose check gives evidence, and that
-- no open escalation of the stage covers, is among its firings with that evidence.
pub evaluate-has :
    (cfg : FactoryConfig) (d : Db) (s : Stage) (trigger : Trigger) (evidence : Payload)
    {fs : List TriggerFiring}
    → open_escalation "stage" s.id (Trigger.value trigger) d ≡ none
    → check cfg d s trigger ≡ ok (some evidence)
    → evaluate cfg d s ≡ ok fs
    → Any (FiresWith trigger evidence) fs
unfolding evaluate
evaluate-has cfg d s trigger evidence free due h =
    firings-has cfg d s trigger evidence free due every_trigger (listed trigger) h
