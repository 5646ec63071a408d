-- ===== src/Executor/NeverSilent.antt =====
-- A trigger that fired is never passed over.
use mathlib.Core.Path.{subst}
use sf_f.Base.{
  Bool-cases, string_eq, String, ◌≡◌, refl, sym, ap, ◌∙◌, Bool, true, Option, none, some, List, [],
  ◌∷◌, ◌++◌, ◌⊎◌, inl, inr, All, Any,
}
use sf_f.Base.Raises.{Result, ok, ok-injective}
use sf_f.Config.{FactoryConfig}
use sf_f.Models.StageState.{StageState}
use sf_f.Models.Trigger
use sf_f.Models.Trigger.{Trigger}
use sf_f.Models.Json.{Payload}
use sf_f.Models.Records.{Time, Stage, TriggerFiring}
use sf_f.Store.Db.{Db}
use sf_f.Store.Database.{Database}
use sf_f.Store.Act.{proceed}
use sf_f.Store.Act.Laws.{proceed-ok, reads-cases}
use sf_f.Thresholds.{evaluate}
use sf_f.Executor.Breach.{
  BreachOutside, Cause, cause_of, is_budget, sift_one, sift, with_breach, usage_missing_breach,
  heed, escalate_stage, apply_thresholds,
}
use sf_f.Executor.Arrival.{IsAt}
use sf_f.Executor.Stopped.{escalate_stage-Stopped}
use sf_f.Executor.Opened.{IsOpen}

-- A firing of the context budget may be answered by a reset; any other is among the causes.
abbrev pub Covered : List Cause → TriggerFiring → Type 0
Covered causes f =
    (is_budget f.trigger ≡ true) ⊎ Any (λ (c : Cause). c.0 ≡ Trigger.value f.trigger) causes

Any-append : {A : Type 0} (P : A → Type 0) (xs ys : List A) → Any P xs ⊎ Any P ys → Any P (xs ++ ys)
Any-append P [] ys (inl h) = absurd h
Any-append P [] ys (inr h) = h
Any-append P (x ∷ xs) ys (inl (inl h)) = inl h
Any-append P (x ∷ xs) ys (inl (inr h)) = inr (Any-append P xs ys (inl h))
Any-append P (x ∷ xs) ys (inr h) = inr (Any-append P xs ys (inr h))

Covered-right :
    (kept rest : List Cause) (f : TriggerFiring) → Covered rest f → Covered (kept ++ rest) f
Covered-right kept rest f (inl b) = inl b
Covered-right kept rest f (inr h) = inr (Any-append _ kept rest (inr h))

Covered-left :
    (kept rest : List Cause) (f : TriggerFiring) → Covered kept f → Covered (kept ++ rest) f
Covered-left kept rest f (inl b) = inl b
Covered-left kept rest f (inr h) = inr (Any-append _ kept rest (inl h))

All-map :
    {A : Type 0} {P Q : A → Type 0} (xs : List A) → ((x : A) → P x → Q x) → All P xs → All Q xs
All-map [] f h = tt
All-map (x ∷ xs) f h = (f x h.0, All-map xs f h.1)

module _ (cfg : FactoryConfig) (now : Time) (stage_id : String) where
  sift_one-Covered :
      (f : TriggerFiring) (db : Database) {kept : List Cause}
      → (sift_one cfg now stage_id f db).0 ≡ ok kept
      → Covered kept f
  unfolding sift_one
  sift_one-Covered f db h = elim (Bool-cases (is_budget f.trigger)) [
    | inl budget ↦ inl budget
    | inr other ↦
        let e : ok (cause_of f ∷ []) ≡ ok _ = rw other at h in
        inr (
          subst (λ cs. Any (λ (c : Cause). c.0 ≡ Trigger.value f.trigger) cs) (ok-injective e)
            (inl refl))
  ]

  sift-Covered :
      (fs : List TriggerFiring) (db : Database) {causes : List Cause}
      → (sift cfg now stage_id fs db).0 ≡ ok causes
      → All (Covered causes) fs
  unfolding sift
  sift-Covered [] db h = tt
  sift-Covered (f ∷ fs) db h =
      let (kept, one, e1) = proceed-ok (sift_one cfg now stage_id f db) _ h in
      let h1 = sym (ap (λ r. r.0) e1) ∙ h in
      let (rest, others, e2) =
        proceed-ok (sift cfg now stage_id fs (sift_one cfg now stage_id f db).1) _ h1 in
      let same = ok-injective (sym (ap (λ r. r.0) e2) ∙ h1) in
      subst (λ cs. All (Covered cs) (f ∷ fs)) same
        (
          Covered-left kept rest f (sift_one-Covered f db one),
          All-map fs (λ g c. Covered-right kept rest g c) (sift-Covered fs _ others),
        )

-- The firing is of the context budget, or the stage was stopped for it.
abbrev pub Heeded : String → Result Bool × Database → TriggerFiring → Type 0
Heeded stage_id r f =
    (is_budget f.trigger ≡ true)
    ⊎ ((r.0 ≡ ok true)
        × IsAt stage_id StageState.escalated r.1
        × IsOpen stage_id (Trigger.value f.trigger) r.1.tables)

opened-for :
    (stage_id trigger : String) (d : Db) (causes : List Cause)
    → All (λ (c : Cause). IsOpen stage_id c.0 d) causes
    → Any (λ (c : Cause). c.0 ≡ trigger) causes
    → IsOpen stage_id trigger d
opened-for stage_id trigger d [] all any = absurd any
opened-for stage_id trigger d (c ∷ cs) all (inl e) = subst (λ t. IsOpen stage_id t d) e all.0
opened-for stage_id trigger d (c ∷ cs) all (inr h) = opened-for stage_id trigger d cs all.1 h

with_breach-Covered :
    (breach : Option Payload) (causes : List Cause) (f : TriggerFiring)
    → Covered causes f
    → Covered (with_breach breach causes) f
with_breach-Covered none causes f c = c
with_breach-Covered (some evidence) causes f c = Covered-left causes _ f c

module _ (now : Time) (stage : Stage) (worktree : Bool) (out : BreachOutside) where
  escalate_stage-Heeded :
      (causes : List Cause) (db : Database) {b : Bool} (f : TriggerFiring)
      → (escalate_stage now stage worktree out causes db).0 ≡ ok b
      → Covered causes f
      → Heeded stage.id (escalate_stage now stage worktree out causes db) f
  escalate_stage-Heeded causes db f h (inl budget) = inl budget
  escalate_stage-Heeded [] db f h (inr any) = absurd any
  escalate_stage-Heeded (c ∷ cs) db f h (inr any) =
      let (is, stopped) = escalate_stage-Stopped now stage worktree out c cs db h in
      inr (
        h ∙ ap ok is,
        stopped.0,
        opened-for stage.id (Trigger.value f.trigger) _ (c ∷ cs) stopped.1 any,
      )

  -- When the step that applies the thresholds returns, each trigger that the evaluator had fired, the
  -- context budget apart, has stopped the stage: the step returned True, and the stage is ESCALATED
  -- with an open escalation for that trigger.
  pub apply_thresholds-Heeded :
      (cfg : FactoryConfig) (db : Database) (firings : List TriggerFiring) {b : Bool}
      → evaluate cfg db.tables stage ≡ ok firings
      → (apply_thresholds cfg now stage worktree out db).0 ≡ ok b
      → All (Heeded stage.id (apply_thresholds cfg now stage worktree out db)) firings
  unfolding apply_thresholds
  apply_thresholds-Heeded cfg db firings fired h =
      elim (reads-cases (λ d. evaluate cfg d stage) _ db) [
        | inl seen ↦
            let e0 = seen ∙ ap (λ r. proceed (r, db) (heed cfg now stage worktree out)) fired in
            let h0 = sym (ap (λ r. r.0) e0) ∙ h in
            let (causes, sifted, e1) = proceed-ok (sift cfg now stage.id firings db) _ h0 in
            let h1 = sym (ap (λ r. r.0) e1) ∙ h0 in
            let db1 = (sift cfg now stage.id firings db).1 in
            elim (reads-cases (usage_missing_breach cfg stage.id)
              (λ breach. escalate_stage now stage worktree out (with_breach breach causes)) db1) [
                | inl counted ↦
                    let h2 = sym (ap (λ r. r.0) counted) ∙ h1 in
                    let breach = usage_missing_breach cfg stage.id db1.tables in
                    subst (λ r. All (Heeded stage.id r) firings) (sym (e0 ∙ e1 ∙ counted))
                      (All-map firings
                        (λ f c.
                          escalate_stage-Heeded (with_breach breach causes) db1 f h2
                            (with_breach-Covered breach causes f c))
                        (sift-Covered cfg now stage.id firings db sifted))
                | inr closed ↦ cc (sym (ap (λ r. r.0) closed) ∙ h1)
              ]
        | inr closed ↦ cc (sym (ap (λ r. r.0) closed) ∙ h)
      ]
