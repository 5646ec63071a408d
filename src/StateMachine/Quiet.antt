-- ===== src/StateMachine/Quiet.antt =====
-- The writes of src/sf_factory/db.py that move no unit.
use mathlib.Core.Path.{fun_ext, subst, subst₂}
use sf_f.Base.{
  is_none, contains, ℕ, arith, String, ◌≡◌, refl, sym, ap, ◌∙◌, Bool, true, false, ◌&&◌, Option,
  none, some, ◌==◌, string_eq, nat_eq, option_eq, List, [], ◌∷◌,
}
use sf_f.Base.Raises.{err, Result, factory_error, sqlite_integrity_error, Error, ok, ok-injective}
use sf_f.Models.Level
use sf_f.Models.Level.{Level, stage, phase}
use sf_f.Models.Records.{Time, Stage, Phase, Event, Escalation, DecisionRequest, ArtifactRef}
use sf_f.Store.Table
use sf_f.Store.Table.{Table}
use sf_f.Store.Db.{Db}
use sf_f.Store.Tx.{lift, Tx, ◌>>=◌, ◌>>◌, pure, gets, put, check, bind-eq-ok}
use sf_f.Store.Units.{unit_state, get_stage, get_phase}
use sf_f.Store.Events.{NewEvent, insert_event, event_of}
use sf_f.Store.Events.Laws.{logged, insert_event-ok, values-insert}
use sf_f.Store.Escalations.{close, is_open, escalation_fits, insert_escalation, resolve_escalation}
use sf_f.Store.Decisions.{publish_row, insert_decision_request, mark_decision_published}
use sf_f.Store.Artifacts.{find_artifact_ref, refers, insert_artifact_ref}
use sf_f.Store.Findings.{restate, finding_statuses, set_finding_status}
use sf_f.StateMachine.History.{Agrees, Agrees-snoc_miss, moves, unit_state-logged}
use sf_f.StateMachine.Moves.{Still, Still-refl, Still-trans, IsQuiet}

abbrev pub with_units : List Stage → List Phase → Db → Db
with_units ss ps d = record d { stages = ss; phases = ps }

pub unit_state-with_units :
    (l : Level) (i : String) (d d' : Db)
    → unit_state l i (with_units d'.stages d'.phases d) ≡ unit_state l i d'
unfolding get_stage get_phase
unit_state-with_units stage i d d' = refl
unit_state-with_units phase i d d' = refl

-- Tables with the same units and the same log.
pub same_units-Still :
    (d d' : Db) → d.stages ≡ d'.stages → d.phases ≡ d'.phases → d.events ≡ d'.events → Still d d'
same_units-Still d d' s p e = record {
  same = fun_ext (λ l. fun_ext (λ i. at l i));
  traced = λ t. record {
    traced = λ l i.
        subst₂ (Agrees l i) (at l i) (ap (λ (x : Table Event). Table.values x) e) (t.traced l i);
  };
}
  where
    at : (l : Level) (i : String) → unit_state l i d ≡ unit_state l i d'
    at l i =
        ap (λ x. unit_state l i (with_units x d.phases d)) s
        ∙ ap (λ x. unit_state l i (with_units d'.stages x d)) p
        ∙ unit_state-with_units l i d d'

no_move : (a b : Bool) → (a && (b && false)) ≡ false
no_move a b = ground arith

-- An event that is no transition.
pub logged-Still :
    (now : Time) (e : NewEvent) (d : Db)
    → (e.event_type == "transition") ≡ false
    → Still d (logged now e d)
logged-Still now e d other = record {
  same = fun_ext (λ l. fun_ext (λ i. unit_state-logged now e d l i));
  traced = λ t. record {
    traced = λ l i.
        subst₂ (Agrees l i) (unit_state-logged now e d l i)
          (sym (values-insert (event_of now e) d.events))
          (Agrees-snoc_miss l i (unit_state l i d) (Table.values d.events)
            (event_of now e (Table.next_id d.events)) (miss l i) (t.traced l i));
  };
}
  where
    miss : (l : Level) (i : String) → moves l i (event_of now e (Table.next_id d.events)) ≡ false
    miss l i =
        ap (λ b. e.unit_level == Level.value l && (e.unit_id == some i && b)) other
        ∙ no_move (e.unit_level == Level.value l) (e.unit_id == some i)

pub pure-IsQuiet : {A : Type 0} (a : A) → IsQuiet (pure a)
pure-IsQuiet a d r h = subst (Still d) (ap (λ x. x.1) (ok-injective h)) (Still-refl d)

pub gets-IsQuiet : {A : Type 0} (f : Db → A) → IsQuiet (gets f)
gets-IsQuiet f d r h = subst (Still d) (ap (λ x. x.1) (ok-injective h)) (Still-refl d)

pub put-IsQuiet : (f : Db → Db) → ((d : Db) → Still d (f d)) → IsQuiet (put f)
put-IsQuiet f s d r h = subst (Still d) (ap (λ x. x.1) (ok-injective h)) (s d)

pub check-IsQuiet : (b : Bool) (e : Error) → IsQuiet (check b e)
check-IsQuiet true e d r h = subst (Still d) (ap (λ x. x.1) (ok-injective h)) (Still-refl d)
check-IsQuiet false e d r h = cc

pub bind-IsQuiet :
    {A B : Type 0} (m : Tx A) (f : A → Tx B)
    → IsQuiet m
    → ((a : A) → IsQuiet (f a))
    → IsQuiet (m >>= f)
bind-IsQuiet m f q k d r h =
    let (a, d1, ran, rest) = bind-eq-ok (m d) f h in Still-trans (q d (a, d1) ran) (k a d1 r rest)

pub insert_event-IsQuiet :
    (now : Time) (e : NewEvent)
    → (e.event_type == "transition") ≡ false
    → IsQuiet (insert_event now e)
insert_event-IsQuiet now e other d r h =
    subst (Still d) (insert_event-ok now e d {seq = r.0} {d' = r.1} h).1
      (logged-Still now e d other)

-- The shape of an INSERT whose constraints are tested first.
insert-IsQuiet :
    (fits : Db → Bool) (e : Error) (next : Db → ℕ) (f : Db → Db)
    → ((d : Db) → Still d (f d))
    → IsQuiet (do good ← gets fits; check good e; id ← gets next; put f; pure id)
insert-IsQuiet fits e next f s = bind-IsQuiet (gets fits) _ (gets-IsQuiet fits) λ good.
    bind-IsQuiet (check good e) _ (check-IsQuiet good e) λ _.
      bind-IsQuiet (gets next) _ (gets-IsQuiet next)
        λ id. bind-IsQuiet (put f) _ (put-IsQuiet f s) λ _. pure-IsQuiet id

pub insert_escalation-IsQuiet : (e : Escalation) → IsQuiet (insert_escalation e)
unfolding insert_escalation
insert_escalation-IsQuiet e =
    insert-IsQuiet (escalation_fits e) sqlite_integrity_error (λ d. Table.next_id d.escalations)
      (λ d. record d { escalations = Table.insert (λ n. record e { id = some n }) d.escalations })
      (λ d. same_units-Still d _ refl refl refl)

-- The shape of an UPDATE that must hit one row.
update-IsQuiet :
    (fits : Db → Bool) (e : Error) (rest : Tx (Unit {0}))
    → IsQuiet rest
    → IsQuiet (do good ← gets fits; check good e; rest)
update-IsQuiet fits e rest q =
    bind-IsQuiet (gets fits) _ (gets-IsQuiet fits)
      λ good. bind-IsQuiet (check good e) _ (check-IsQuiet good e) λ _. q

pub insert_artifact_ref-IsQuiet : (a : ArtifactRef) → IsQuiet (insert_artifact_ref a)
unfolding insert_artifact_ref
insert_artifact_ref-IsQuiet a =
    insert-IsQuiet
      (λ d.
        contains a.repo ("factory" ∷ "workspace" ∷ [])
        && is_none (find_artifact_ref a.repo a.path a.sha256 d))
      sqlite_integrity_error (λ d. Table.next_id d.artifacts)
      (λ d. record d { artifacts = Table.insert (λ n. record a { id = some n }) d.artifacts })
      (λ d. same_units-Still d _ refl refl refl)

pub insert_decision_request-IsQuiet : (r : DecisionRequest) → IsQuiet (insert_decision_request r)
unfolding insert_decision_request
insert_decision_request-IsQuiet r =
    bind-IsQuiet (gets (refers (some r.request_artifact_id))) _ (gets-IsQuiet _) λ known.
      insert-IsQuiet
        (λ d.
          contains r.status ("pending" ∷ "answered" ∷ [])
          && (known && refers r.answer_artifact_id d))
        sqlite_integrity_error (λ d. Table.next_id d.decisions)
        (λ d. record d {
          decisions =
              Table.insert (λ n. record { request = record r { id = some n }; published_at = none })
                d.decisions;
        })
        (λ d. same_units-Still d _ refl refl refl)

pub mark_decision_published-IsQuiet : (n : ℕ) (at : Time) → IsQuiet (mark_decision_published n at)
unfolding mark_decision_published
mark_decision_published-IsQuiet n at =
    update-IsQuiet (λ d. Table.rowcount n (λ _. true) d.decisions == 1) factory_error
      (put (λ d. record d { decisions = Table.update n (λ _. true) (publish_row at) d.decisions }))
      (put-IsQuiet _ (λ d. same_units-Still d _ refl refl refl))

pub set_finding_status-IsQuiet :
    (now : Time) (n : ℕ) (status : String) (by : Option String) (contest : Option ℕ)
    → IsQuiet (set_finding_status now n status by contest)
unfolding set_finding_status
set_finding_status-IsQuiet now n status by contest =
    update-IsQuiet (λ d. Table.rowcount n (λ _. true) d.findings == 1) factory_error
      (do
        known ← gets (refers contest)
        check (contains status finding_statuses && known) sqlite_integrity_error
        put (λ d. record d {
          findings = Table.update n (λ _. true) (restate now status by contest) d.findings;
        }))
      (update-IsQuiet (λ d. contains status finding_statuses && refers contest d)
        sqlite_integrity_error
        (put (λ d. record d {
          findings = Table.update n (λ _. true) (restate now status by contest) d.findings;
        }))
        (put-IsQuiet _ (λ d. same_units-Still d _ refl refl refl)))

pub resolve_escalation-IsQuiet :
    (now : Time) (n : ℕ) (resolution : String) → IsQuiet (resolve_escalation now n resolution)
unfolding resolve_escalation
resolve_escalation-IsQuiet now n resolution =
    update-IsQuiet (λ d. Table.rowcount n is_open d.escalations == 1) factory_error
      (put (λ d. record d {
        escalations = Table.update n is_open (close now resolution) d.escalations;
      }))
      (put-IsQuiet _ (λ d. same_units-Still d _ refl refl refl))

pub lift-IsQuiet : {A : Type 0} (r : Result A) → IsQuiet (lift r)
lift-IsQuiet (ok a) d r h = subst (Still d) (ap (λ x. x.1) (ok-injective h)) (Still-refl d)
lift-IsQuiet (err e) d r h = cc
