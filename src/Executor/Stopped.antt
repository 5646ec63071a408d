-- ===== src/Executor/Stopped.antt =====
-- What the step that applies the thresholds leaves when it stops the stage.
use mathlib.Core.Path.{subst}
use sf_f.Base.{
  ◌==◌, string_eq, ◌==◌, String, ◌≡◌, refl, sym, ap, ◌∙◌, Bool, true, false, some, List, [], ◌∷◌,
  All,
}
use sf_f.Base.Raises.{Result, ok, err, ok-injective, notify_error}
use sf_f.Models.Level
use sf_f.Models.StageState.{StageState}
use sf_f.Models.UnitState.{of_stage}
use sf_f.Models.Json.{Payload, str, array}
use sf_f.Models.Records.{Time, Stage}
use sf_f.Store.Db.{Db}
use sf_f.Store.Database.{Database}
use sf_f.Store.Act.Laws.{proceed-ok}
use sf_f.Store.Tx.{bind-eq-ok}
use sf_f.Store.Events.{NewEvent, insert_event}
use sf_f.Store.Events.Laws.{insert_event-ok}
use sf_f.Store.Units.{unit_state}
use sf_f.Store.Escalations.{open_escalation}
use sf_f.StateMachine.Moves.{View}
use sf_f.Executor.Writes.{actor, texts, log_event}
use sf_f.Executor.Gate.{transition_to, Delivery, published, publish_alert}
use sf_f.Executor.Breach.{
  BreachOutside, Cause, escalation_payload, escalate_all, escalate_stage, names,
}
use sf_f.Executor.Arrival.{transition_to-IsAt, transition_to-ran}
use sf_f.Executor.Waiting.{transact-keeps}
use sf_f.Executor.Lawful.Writes.{log_event-IsQuiet, escalate_all-IsQuiet}
use sf_f.Executor.Opened.{IsOpen, escalate_all-IsOpen}

-- The stage is ESCALATED, and each of the causes has an open escalation.
abbrev pub Stopped : String → List Cause → Db → Type 0
Stopped stage_id causes d =
    (unit_state Level.stage stage_id d ≡ some (of_stage StageState.escalated))
    × All (λ (c : Cause). IsOpen stage_id c.0 d) causes

-- An event of the factory changes neither.
logged-Stopped :
    (now : Time) (stage_id : String) (causes : List Cause) (e : NewEvent) (d : Db) {d' : Db}
    → (e.event_type == "transition") ≡ false
    → log_event now e d ≡ ok (tt, d')
    → Stopped stage_id causes d
    → Stopped stage_id causes d'
unfolding open_escalation
logged-Stopped now stage_id causes e d {d'} other h w =
    let (n, d1, h1, k1) = bind-eq-ok (insert_event now e d) _ h in
    let same = (insert_event-ok now e d h1).1 ∙ ap (λ (x : Unit × Db). x.1) (ok-injective k1) in
    (
      sym (
            ap (λ (v : View). v Level.stage stage_id)
              (log_event-IsQuiet now e other d (tt, d') h).same)
          ∙ w.0,
      subst (λ x. All (λ (c : Cause). IsOpen stage_id c.0 x) causes) same w.1,
    )

alerted-Stopped :
    (now : Time) (stage_id : String) (causes : List Cause) (context : Payload) (sent : Delivery)
    (db : Database)
    → Stopped stage_id causes db.tables
    → Stopped stage_id causes (publish_alert now context sent db).1.tables
unfolding publish_alert published
alerted-Stopped now stage_id causes context sent db w = at sent.outcome sent.error
  where
    at :
        (outcome : Result Unit) (error : String)
        → Stopped stage_id causes
            (publish_alert now context (record { outcome = outcome; error = error }) db).1.tables
    at (ok _) error = w
    at (err notify_error) error =
        transact-keeps (Stopped stage_id causes) (log_event now _) db
          (λ a d' ran. logged-Stopped now stage_id causes _ db.tables refl ran w) w
    at (err e) error = w

module _ (now : Time) (stage : Stage) (worktree : Bool) (out : BreachOutside) where
  pub escalate_stage-Stopped :
      (c : Cause) (cs : List Cause) (db : Database) {b : Bool}
      → (escalate_stage now stage worktree out (c ∷ cs) db).0 ≡ ok b
      → (b ≡ true)
        × Stopped stage.id (c ∷ cs) (escalate_stage now stage worktree out (c ∷ cs) db).1.tables
  escalate_stage-Stopped c cs db h =
      let (ref, filed, e1) = proceed-ok (escalation_payload now stage worktree out db) _ h in
      let db1 = (escalation_payload now stage worktree out db).1 in
      let coupled = some (escalate_all now stage.id ref (c ∷ cs)) in
      let payload = some (("triggers", array (texts (names (c ∷ cs)))) ∷ []) in
      let reason : String = "threshold trigger(s) fired" in
      let h1 = sym (ap (λ r. r.0) e1) ∙ h in
      let t = transition_to now stage.id StageState.escalated actor reason payload coupled db1 in
      let (seq, moved, e2) = proceed-ok t _ h1 in
      let h2 = sym (ap (λ r. r.0) e2) ∙ h1 in
      let (d, d', ran, left) =
        transition_to-ran now stage.id StageState.escalated actor reason payload coupled db1
          moved in
      let at =
        transition_to-IsAt now stage.id StageState.escalated actor reason payload coupled db1
          (escalate_all-IsQuiet now stage.id ref (c ∷ cs)) moved in
      let stopped : Stopped stage.id (c ∷ cs) t.1.tables = (
        at,
        subst (λ (x : Database). All (λ (k : Cause). IsOpen stage.id k.0 x.tables) (c ∷ cs))
            (sym left) (escalate_all-IsOpen now stage.id ref (c ∷ cs) d ran),
      ) in
      let context = ("unit_id", str stage.id) ∷ ("triggers", array (texts (names (c ∷ cs)))) ∷ [] in
      let (u, said, e3) = proceed-ok (publish_alert now context out.sent t.1) _ h2 in
      (
        sym (ok-injective (sym (ap (λ r. r.0) e3) ∙ h2)),
        subst (λ (x : Result Bool × Database). Stopped stage.id (c ∷ cs) x.1.tables)
            (sym (e1 ∙ e2 ∙ e3))
            (alerted-Stopped now stage.id (c ∷ cs) context out.sent t.1 stopped),
      )
