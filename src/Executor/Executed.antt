-- ===== src/Executor/Executed.antt =====
-- Every verdict of CP-1 is executed.
use mathlib.Core.Path.{subst}
use sf_f.Base.{
  ℕ, String, ◌≡◌, refl, sym, ap, Bool, true, false, Option, none, some, ◌⊎◌, inl, inr, Bool-cases,
  ◌==◌, ==_iff, string_eq, lookup,
}
use sf_f.Base.Raises.{result-cases, Error, Result, ok, err, factory_error, key_error, require_some}
use sf_f.Config.{FactoryConfig, ModelRoute}
use sf_f.Models.StageState.{StageState}
use sf_f.Models.Records.{Time, Stage}
use sf_f.Store.Database.{Database}
use sf_f.Store.Act.{Act, ◌>>=◌, proceed, pure, outside}
use sf_f.Store.Act.Laws.{reads-cases}
use sf_f.Store.Processes.{last_session_id}
use sf_f.StateMachine.Quiet.{pure-IsQuiet}
use sf_f.Executor.Queries.{builder_role}
use sf_f.Executor.Writes.{actor, log_event, stage_event, stage_escalation, escalate}
use sf_f.Executor.Gate.{transition_to}
use sf_f.Executor.Verdict.{
  Verdict, base_payload, resume, continue_session, give_up, execute_cp1_verdict, downgrade_reason,
  downgrade_payload,
}
use sf_f.Executor.Lawful.Writes.{log_event-IsQuiet, escalate-IsQuiet}
use sf_f.Executor.Arrival.{
  pair_of, IsAt, Goes, then-Goes, transition_to-ran, transition_to-raised, transition_to-IsAt,
}
use sf_f.Executor.Opened.{IsOpen, escalate-IsOpen}

-- What a verdict is for: a state to go on in, or the end of the stage's work.
abbrev pub Routed : String → StageState → Type 0
Routed value target =
    (((value ≡ "continue_session") ⊎ (value ≡ "rebuild")) × (target ≡ StageState.build))
    ⊎ ((value ≡ "respec") × (target ≡ StageState.spec))

abbrev pub Executed : Verdict → String → Database → Result Bool × Database → Type 0
Executed v stage_id db r =
    ((target : StageState) × (r.0 ≡ ok true) × Routed v.value target × IsAt stage_id target r.1)
    ⊎ (((r.0 ≡ ok false)
          × (v.value ≡ "escalate")
          × IsAt stage_id StageState.escalated r.1
          × IsOpen stage_id "cp1_verdict" r.1.tables)
        ⊎ ((e : Error) × (r ≡ (err e, db))))

module _ (cfg : FactoryConfig) (now : Time) (stage : Stage) (v : Verdict) (iteration : ℕ)
    (db : Database) where
  Goes-Executed :
      (target : StageState) (r : Result Bool × Database)
      → Routed v.value target
      → Goes stage.id target true db r
      → Executed v stage.id db r
  Goes-Executed target r routed (inl (returned, at)) = inl (target, returned, routed, at)
  Goes-Executed target r routed (inr raised) = inr (inr raised)

  resume-Goes :
      (session_id reason : Option String)
      → Goes stage.id StageState.build true db
          (resume cfg now stage v iteration session_id reason db)
  resume-Goes session_id (some reason) =
      let event = stage_event stage.id "verdict_downgraded" (downgrade_payload reason) in
      then-Goes now stage.id StageState.build actor "CP-1 continue_session downgraded to rebuild" _
        (some (log_event now event)) db true (log_event-IsQuiet now event refl)
  resume-Goes session_id none =
      then-Goes now stage.id StageState.build actor "CP-1 verdict continue_session" _ none db true
        (pure-IsQuiet tt)

  -- A call that does not touch the connection raises, or goes on.
  outside-Goes :
      {A : Type 0} (target : StageState) (r : Result A) (k : A → Act Bool)
      → ((a : A) → Goes stage.id target true db (k a db))
      → Goes stage.id target true db ((outside r >>= k) db)
  outside-Goes target (ok a) k goes = goes a
  outside-Goes target (err e) k goes = inr (e, refl)

  continue_session-Goes :
      Goes stage.id StageState.build true db (continue_session cfg now stage v iteration db)
  continue_session-Goes =
      outside-Goes StageState.build (builder_role cfg stage.risk_class stage.kind) _ λ role.
        elim (reads-cases (last_session_id "stage" stage.id role) _ db) [
          | inl seen ↦ subst (Goes stage.id StageState.build true db) (sym seen) (
              outside-Goes StageState.build (require_some (lookup role cfg.models) key_error)
                (λ (route : ModelRoute).
                  let session_id = last_session_id "stage" stage.id role db.tables in
                  resume cfg now stage v iteration session_id
                    (downgrade_reason route.cli session_id))
                (λ route. resume-Goes _ (downgrade_reason route.cli _)))
          | inr closed ↦ inr (factory_error, closed)
        ]

  give_up-Executed :
      v.value ≡ "escalate" → Executed v stage.id db (give_up cfg now stage v iteration db)
  give_up-Executed is =
      let coupled = some (escalate (stage_escalation now stage.id "cp1_verdict" none none)) in
      let payload = some (base_payload v iteration) in
      let reason : String = "CP-1 verdict escalate" in
      let r = transition_to now stage.id StageState.escalated actor reason payload coupled db in
      elim (result-cases r.0) [
        | inl (seq, returned) ↦
            let (d, d', ran, left) =
              transition_to-ran now stage.id StageState.escalated actor reason payload coupled db
                returned in
            let here =
              transition_to-IsAt now stage.id StageState.escalated actor reason payload coupled db
                (escalate-IsQuiet _) returned in
            let opened = escalate-IsOpen now stage.id "cp1_verdict" none none d ran in
            subst (λ x. Executed v stage.id db (proceed x (λ _. pure false)))
              (sym (pair_of returned left))
              (inr (inl (refl, is, subst (IsAt stage.id StageState.escalated) left here, opened)))
        | inr (e, raised) ↦ inr (
            inr (
              e,
              ap (λ x. proceed x (λ _. pure false))
                  (transition_to-raised now stage.id StageState.escalated actor reason payload
                    coupled db raised),
            ))
      ]

  -- Carrying out a verdict of CP-1 ends in one of three ways. It returns True, and the stage is in BUILD
  -- for a `continue_session` or a `rebuild`, in SPEC for a `respec`; it returns False, the verdict
  -- was `escalate`, and the stage is ESCALATED with an open escalation; or it raises, and the
  -- connection and every table are as they were.
  pub execute_cp1_verdict-Executed :
      Executed v stage.id db (execute_cp1_verdict cfg now stage v iteration db)
  unfolding execute_cp1_verdict
  execute_cp1_verdict-Executed = elim (Bool-cases (v.value == "continue_session")) [
    | inl a ↦ rw a (
        Goes-Executed StageState.build _ (inl (inl ((==_iff v.value "continue_session").0 a), refl))
          continue_session-Goes)
    | inr a ↦ elim (Bool-cases (v.value == "rebuild")) [
      | inl b ↦
          rw (a, b)
            (Goes-Executed StageState.build _ (inl (inr ((==_iff v.value "rebuild").0 b), refl)) (
              then-Goes now stage.id StageState.build actor "CP-1 verdict rebuild" _ none db true
                (pure-IsQuiet tt)))
      | inr b ↦ elim (Bool-cases (v.value == "respec")) [
        | inl c ↦
            rw (a, b, c)
              (Goes-Executed StageState.spec _ (inr ((==_iff v.value "respec").0 c, refl)) (
                then-Goes now stage.id StageState.spec actor "CP-1 verdict respec" _ none db true
                  (pure-IsQuiet tt)))
        | inr c ↦ elim (Bool-cases (v.value == "escalate")) [
          | inl e ↦ rw (a, b, c, e) (give_up-Executed ((==_iff v.value "escalate").0 e))
          | inr e ↦ rw (a, b, c, e) (inr (inr (factory_error, refl)))
        ]
      ]
    ]
  ]
