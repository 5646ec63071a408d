-- ===== src/Scheduler/Containment/Kept.antt =====
-- What `_contain_failure` of src/sf_factory/scheduler.py leaves behind.
use mathlib.Core.Path.{subst}
use sf_f.Base.{ℕ, String, ◌≡◌, refl, sym, ap, Option, none, some, string_eq, option_eq}
use sf_f.Base.Raises.{Result, ok, err, transition_error, ok-injective}
use sf_f.Models.Level
use sf_f.Models.Level.{Level, stage, phase}
use sf_f.Models.Records.{Time, Escalation}
use sf_f.Store.Db.{Db}
use sf_f.Store.Tx.{Tx, bind-eq-ok}
use sf_f.Store.Database.{Database}
use sf_f.Store.Database.Atomic.{transaction-ok}
use sf_f.Store.Events.{insert_event}
use sf_f.Store.Escalations.{open_escalation, insert_escalation}
use sf_f.Store.Escalations.Laws.{insert_escalation-fresh}
use sf_f.StateMachine.History.{IsTraced}
use sf_f.StateMachine.Atomic.{transition-Moved}
use sf_f.StateMachine.Moves.{
  Effect, Effect-trans, Still-Effect, IsQuiet, transact-Still, transition-Effect,
}
use sf_f.StateMachine.Quiet.{
  pure-IsQuiet, bind-IsQuiet, gets-IsQuiet, insert_event-IsQuiet, insert_escalation-IsQuiet,
}
use sf_f.Store.Tx.{gets}
use sf_f.Scheduler.Containment.{
  Failure, payload_of, failure_event, failure_escalation, escalate_once, coupled, fallen_back,
  contain_failure,
}

-- The unit has an open escalation for an internal error.
abbrev pub IsEscalated : Level → String → Db → Type 0
IsEscalated level unit_id d =
    (e : Escalation) × (open_escalation (Level.value level) unit_id "internal_error" d ≡ some e)

escalate_once-IsEscalated :
    (now : Time) (level : Level) (unit_id : String) (o : Option Escalation) (d : Db) {d' : Db}
    → open_escalation (Level.value level) unit_id "internal_error" d ≡ o
    → escalate_once now level unit_id o d ≡ ok (tt, d')
    → IsEscalated level unit_id d'
escalate_once-IsEscalated now level unit_id (some e) d found h =
    subst (IsEscalated level unit_id) (ap (λ (x : Unit × Db). x.1) (ok-injective h)) (e, found)
escalate_once-IsEscalated now level unit_id none d found h =
    let (id, d2, inserted, h2) =
      bind-eq-ok (insert_escalation (failure_escalation now level unit_id) d) _ h in
    subst (IsEscalated level unit_id) (ap (λ (x : Unit × Db). x.1) (ok-injective h2))
      (_, (insert_escalation-fresh (failure_escalation now level unit_id) d inserted refl).1)

coupled-IsEscalated :
    (now : Time) (level : Level) (unit_id : String) (f : Failure) (d : Db) {d' : Db}
    → coupled now level unit_id f d ≡ ok (tt, d')
    → IsEscalated level unit_id d'
unfolding coupled
coupled-IsEscalated now level unit_id f d h =
    let (seq, d1, inserted, h1) =
      bind-eq-ok (insert_event now (failure_event level unit_id f) d) _ h in
    escalate_once-IsEscalated now level unit_id _ d1 refl h1

fallen_back-holds :
    (m : Tx (Unit {0})) (r : Result ℕ × Database) (P : Db → Type 0)
    → ((seq : ℕ) → r.0 ≡ ok seq → P r.1.tables)
    → ((d d' : Db) → m d ≡ ok (tt, d') → P d')
    → (fallen_back m r).0 ≡ ok tt
    → P (fallen_back m r).1.tables
fallen_back-holds m (ok seq, db) P moved fell h = moved seq refl
fallen_back-holds m (err transition_error, db) P moved fell h =
    let (d', ran, left) = transaction-ok m db h in
    subst (λ (x : Database). P x.tables) (sym left) (fell db.tables d' ran)
fallen_back-holds m (err _, db) P moved fell h = cc

escalate_once-IsQuiet :
    (now : Time) (level : Level) (unit_id : String) (o : Option Escalation)
    → IsQuiet (escalate_once now level unit_id o)
escalate_once-IsQuiet now level unit_id (some e) = pure-IsQuiet tt
escalate_once-IsQuiet now level unit_id none =
    bind-IsQuiet (insert_escalation (failure_escalation now level unit_id)) _
      (insert_escalation-IsQuiet (failure_escalation now level unit_id)) λ _. pure-IsQuiet tt

coupled-IsQuiet :
    (now : Time) (level : Level) (unit_id : String) (f : Failure)
    → IsQuiet (coupled now level unit_id f)
unfolding coupled
coupled-IsQuiet now level unit_id f =
    bind-IsQuiet (insert_event now (failure_event level unit_id f)) _
      (insert_event-IsQuiet now (failure_event level unit_id f) refl)
      λ seq.
        bind-IsQuiet (gets (open_escalation (Level.value level) unit_id "internal_error")) _
          (gets-IsQuiet (open_escalation (Level.value level) unit_id "internal_error"))
          λ found. escalate_once-IsQuiet now level unit_id found

fallen_back-Effect :
    (m : Tx (Unit {0})) (db : Database) (r : Result ℕ × Database)
    → IsQuiet m
    → Effect db r.1
    → Effect db (fallen_back m r).1
fallen_back-Effect m db (ok seq, x) quiet e = e
fallen_back-Effect m db (err transition_error, x) quiet e =
    Effect-trans e (Still-Effect (transact-Still m x quiet))
fallen_back-Effect m db (err _, x) quiet e = e

pub contain_failure-Effect :
    (now : Time) (level : Level) (unit_id : String) (f : Failure) (db : Database)
    → Effect db (contain_failure now level unit_id f db).1
unfolding contain_failure
contain_failure-Effect now level unit_id f db =
    fallen_back-Effect (coupled now level unit_id f) db _ (coupled-IsQuiet now level unit_id f) (
      transition-Effect now (Level.value level) unit_id "ESCALATED" "control_plane" _
        (some (payload_of f)) (some (coupled now level unit_id f)) db
        (coupled-IsQuiet now level unit_id f))

-- A failure that was contained is never silent: whatever the state of the unit, and whether or not the
-- table lets it move to ESCALATED, it then has an open escalation for an internal error.
pub contain_failure-IsEscalated :
    (now : Time) (level : Level) (unit_id : String) (f : Failure) (db : Database)
    → (contain_failure now level unit_id f db).0 ≡ ok tt
    → IsEscalated level unit_id (contain_failure now level unit_id f db).1.tables
unfolding contain_failure
contain_failure-IsEscalated now level unit_id f db h =
    fallen_back-holds (coupled now level unit_id f) _ (IsEscalated level unit_id)
      (λ seq moved.
        let (lv, target, d', parsed_level, parsed, m, left) =
          transition-Moved now (Level.value level) unit_id "ESCALATED" "control_plane" _
            (some (payload_of f)) (some (coupled now level unit_id f)) db moved in
        subst (λ (x : Database). IsEscalated level unit_id x.tables) (sym left)
          (coupled-IsEscalated now level unit_id f _ m.rest))
      (λ d d' ran. coupled-IsEscalated now level unit_id f d ran) h

-- The containment of a failure, whether it returns or raises, keeps every unit's row the end of its
-- history in the event log.
pub contain_failure-IsTraced :
    (now : Time) (level : Level) (unit_id : String) (f : Failure) (db : Database)
    → IsTraced db.tables
    → IsTraced (contain_failure now level unit_id f db).1.tables
contain_failure-IsTraced now level unit_id f db t =
    (contain_failure-Effect now level unit_id f db).traced t
