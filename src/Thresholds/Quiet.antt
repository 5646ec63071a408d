-- ===== src/Thresholds/Quiet.antt =====
-- What `evaluate` of src/sf_factory/thresholds.py never fires again.
use mathlib.Core.Path.{subst}
use sf_f.Base.{
  ◌≡◌, refl, Option, none, some, List, [], ◌∷◌, All, All-append, Option-cases, inl, inr,
}
use sf_f.Base.Raises.{Result, ok, err, >>=-eq-ok, ok-injective}
use sf_f.Config.{FactoryConfig}
use sf_f.Models.Trigger
use sf_f.Models.Trigger.{
  Trigger, max_fix_iterations, churn_threshold, contract_change_request, agent_declared_failure,
  context_budget,
}
use sf_f.Models.Json.{Payload}
use sf_f.Models.Records.{Stage, TriggerFiring}
use sf_f.Store.Db.{Db}
use sf_f.Store.Escalations.{open_escalation}
use sf_f.Thresholds.{check, firing, fire, firings, evaluate}

-- The firing is of this stage, its check gave its evidence, and no open escalation covers it.
abbrev pub IsDue : FactoryConfig → Db → Stage → TriggerFiring → Type 0
IsDue cfg d s f =
    (f.unit_id ≡ s.id)
    × (check cfg d s f.trigger ≡ ok (some f.evidence))
    × (open_escalation "stage" s.id (Trigger.value f.trigger) d ≡ none)

firing-IsDue :
    (cfg : FactoryConfig) (d : Db) (s : Stage) (trigger : Trigger) (o : Option Payload)
    → check cfg d s trigger ≡ ok o
    → open_escalation "stage" s.id (Trigger.value trigger) d ≡ none
    → All (IsDue cfg d s) (firing s trigger o)
firing-IsDue cfg d s trigger none h open_ = tt
firing-IsDue cfg d s trigger (some evidence) h open_ = ((refl, h, open_), tt)

checked-IsDue :
    (cfg : FactoryConfig) (d : Db) (s : Stage) (trigger : Trigger) (r : Result (Option Payload))
    {fs : List TriggerFiring}
    → open_escalation "stage" s.id (Trigger.value trigger) d ≡ none
    → check cfg d s trigger ≡ r
    → Path
        (Result (List TriggerFiring))
        (elim r [ ok o ↦ ok (firing s trigger o) | err e ↦ err e ])
        (ok fs)
    → All (IsDue cfg d s) fs
checked-IsDue cfg d s trigger (ok o) free same h =
    subst (All (IsDue cfg d s)) (ok-injective h) (firing-IsDue cfg d s trigger o same free)
checked-IsDue cfg d s trigger (err e) free same h = cc

fire-IsDue :
    (cfg : FactoryConfig) (d : Db) (s : Stage) (trigger : Trigger) {fs : List TriggerFiring}
    → fire cfg d s trigger ≡ ok fs
    → All (IsDue cfg d s) fs
fire-IsDue cfg d s trigger h =
    elim (Option-cases (open_escalation "stage" s.id (Trigger.value trigger) d)) [
      | inr (esc, found) ↦ subst (All (IsDue cfg d s)) (ok-injective (rw (found, fire) at h)) tt
      | inl free ↦
          checked-IsDue cfg d s trigger (check cfg d s trigger) free refl (rw (free, fire) at h)
    ]

firings-IsDue :
    (cfg : FactoryConfig) (d : Db) (s : Stage) (triggers : List Trigger) {fs : List TriggerFiring}
    → firings cfg d s triggers ≡ ok fs
    → All (IsDue cfg d s) fs
unfolding firings
firings-IsDue cfg d s [] h = subst (All (IsDue cfg d s)) (ok-injective h) tt
firings-IsDue cfg d s (trigger ∷ triggers) {fs} h =
    let (fired, first, h') = >>=-eq-ok (fire cfg d s trigger) _ h in
    let (rest, others, joined) = >>=-eq-ok (firings cfg d s triggers) _ h' in
    subst (All (IsDue cfg d s)) (ok-injective joined) (
      All-append (IsDue cfg d s) fired rest (fire-IsDue cfg d s trigger first)
        (firings-IsDue cfg d s triggers others))

-- Every firing of `evaluate` is of the stage that it was given, has the evidence that its own check
-- gives, and has no open escalation for its trigger.
pub evaluate-IsDue :
    (cfg : FactoryConfig) (d : Db) (s : Stage) {fs : List TriggerFiring}
    → evaluate cfg d s ≡ ok fs
    → All (IsDue cfg d s) fs
unfolding evaluate
evaluate-IsDue cfg d s h =
    firings-IsDue cfg d s
      (max_fix_iterations ∷ churn_threshold ∷ contract_change_request ∷ agent_declared_failure
        ∷ context_budget ∷ [])
      h
