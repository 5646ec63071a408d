-- ===== src/Executor/Opened.antt =====
-- The escalations that the stage executor opens, and what keeps them open.
use mathlib.Core.Path.{subst}
use sf_f.Base.{
  ℕ, String, ◌≡◌, refl, ap, ◌∙◌, Option, none, some, List, [], ◌∷◌, find, find-append_some, All,
}
use sf_f.Base.Raises.{ok, ok-injective, sqlite_integrity_error}
use sf_f.Models.Records.{Time, Escalation}
use sf_f.Store.Table
use sf_f.Store.Db.{Db}
use sf_f.Store.Tx.{bind-eq-ok, check-eq-ok}
use sf_f.Store.Events.Laws.{values-insert}
use sf_f.Store.Escalations.{open_escalation, insert_escalation, is_open_for, escalation_fits}
use sf_f.Store.Escalations.Laws.{insert_escalation-fresh}
use sf_f.Executor.Writes.{stage_escalation, unless_open, escalate}
use sf_f.Executor.Breach.{Cause, escalate_all, number_at}

-- The stage has an open escalation for the trigger.
abbrev pub IsOpen : String → String → Db → Type 0
IsOpen stage_id trigger d = (e : Escalation) × (open_escalation "stage" stage_id trigger d ≡ some e)

insert-keeps :
    (esc : Escalation) (stage_id trigger : String) (d : Db) {id : ℕ} {d' : Db}
    → insert_escalation esc d ≡ ok (id, d')
    → IsOpen stage_id trigger d
    → IsOpen stage_id trigger d'
unfolding insert_escalation open_escalation
insert-keeps esc stage_id trigger d h (e, found) =
    let (fits, h') = check-eq-ok (escalation_fits esc d) sqlite_integrity_error _ d h in
    subst (IsOpen stage_id trigger) (ap (λ (x : ℕ × Db). x.1) (ok-injective h')) (
      e,
      ap (find (is_open_for "stage" stage_id trigger))
            (values-insert (λ n. record esc { id = some n }) d.escalations)
          ∙ find-append_some (is_open_for "stage" stage_id trigger) (Table.values d.escalations) _
              found,
    )

unless_open-IsOpen :
    (now : Time) (stage_id trigger : String) (ref seq : Option ℕ) (o : Option Escalation) (d : Db)
    {d' : Db}
    → open_escalation "stage" stage_id trigger d ≡ o
    → unless_open (stage_escalation now stage_id trigger ref seq) o d ≡ ok (tt, d')
    → IsOpen stage_id trigger d'
unless_open-IsOpen now stage_id trigger ref seq (some e) d found h =
    subst (IsOpen stage_id trigger) (ap (λ (x : Unit × Db). x.1) (ok-injective h)) (e, found)
unless_open-IsOpen now stage_id trigger ref seq none d found h =
    let esc = stage_escalation now stage_id trigger ref seq in
    let (id, d1, inserted, h1) = bind-eq-ok (insert_escalation esc d) _ h in
    subst (IsOpen stage_id trigger) (ap (λ (x : Unit × Db). x.1) (ok-injective h1))
      (_, (insert_escalation-fresh esc d inserted refl).1)

pub escalate-IsOpen :
    (now : Time) (stage_id trigger : String) (ref seq : Option ℕ) (d : Db) {d' : Db}
    → escalate (stage_escalation now stage_id trigger ref seq) d ≡ ok (tt, d')
    → IsOpen stage_id trigger d'
unfolding escalate
escalate-IsOpen now stage_id trigger ref seq d h =
    unless_open-IsOpen now stage_id trigger ref seq _ d refl h

unless_open-keeps :
    (esc : Escalation) (o : Option Escalation) (stage_id trigger : String) (d : Db) {d' : Db}
    → unless_open esc o d ≡ ok (tt, d')
    → IsOpen stage_id trigger d
    → IsOpen stage_id trigger d'
unless_open-keeps esc (some e) stage_id trigger d h w =
    subst (IsOpen stage_id trigger) (ap (λ (x : Unit × Db). x.1) (ok-injective h)) w
unless_open-keeps esc none stage_id trigger d h w =
    let (id, d1, inserted, h1) = bind-eq-ok (insert_escalation esc d) _ h in
    subst (IsOpen stage_id trigger) (ap (λ (x : Unit × Db). x.1) (ok-injective h1))
      (insert-keeps esc stage_id trigger d inserted w)

escalate-keeps :
    (esc : Escalation) (stage_id trigger : String) (d : Db) {d' : Db}
    → escalate esc d ≡ ok (tt, d')
    → IsOpen stage_id trigger d
    → IsOpen stage_id trigger d'
unfolding escalate
escalate-keeps esc stage_id trigger d h w = unless_open-keeps esc _ stage_id trigger d h w

escalate_all-keeps :
    (now : Time) (stage_id trigger : String) (ref : Option ℕ) (causes : List Cause) (d : Db)
    {d' : Db}
    → escalate_all now stage_id ref causes d ≡ ok (tt, d')
    → IsOpen stage_id trigger d
    → IsOpen stage_id trigger d'
unfolding escalate_all
escalate_all-keeps now stage_id trigger ref [] d h w =
    subst (IsOpen stage_id trigger) (ap (λ (x : Unit × Db). x.1) (ok-injective h)) w
escalate_all-keeps now stage_id trigger ref ((t, evidence) ∷ causes) d h w =
    let (u, d1, first, rest) =
      bind-eq-ok (escalate (stage_escalation now stage_id t ref (number_at "event_seq" evidence)) d)
        _ h in
    escalate_all-keeps now stage_id trigger ref causes d1 rest
      (escalate-keeps _ stage_id trigger d first w)

-- After the loop each of the causes has an open escalation.
pub escalate_all-IsOpen :
    (now : Time) (stage_id : String) (ref : Option ℕ) (causes : List Cause) (d : Db) {d' : Db}
    → escalate_all now stage_id ref causes d ≡ ok (tt, d')
    → All (λ (c : Cause). IsOpen stage_id c.0 d') causes
unfolding escalate_all
escalate_all-IsOpen now stage_id ref [] d h = tt
escalate_all-IsOpen now stage_id ref ((t, evidence) ∷ causes) d h =
    let seq = number_at "event_seq" evidence in
    let (u, d1, first, rest) =
      bind-eq-ok (escalate (stage_escalation now stage_id t ref seq) d) _ h in
    (
      escalate_all-keeps now stage_id t ref causes d1 rest
          (escalate-IsOpen now stage_id t ref seq d first),
      escalate_all-IsOpen now stage_id ref causes d1 rest,
    )
