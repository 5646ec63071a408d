-- ===== src/Store/Escalations/Laws.antt =====
-- The escalations of src/sf_factory/db.py: one open row for a unit and a trigger.
use sf_f.Base.{
  ==_refl, find-append_none, find, find-any, contains, any-find, arith, ℕ, String, ◌≡◌, refl, sym,
  ap, ◌∙◌, Bool, true, false, not, ◌&&◌, Option, none, some, [], ◌∷◌, ◌==◌, string_eq, nat_eq,
}
use sf_f.Base.Raises.{factory_error, ok-injective, ok, err, sqlite_integrity_error}
use sf_f.Models.Records.{Time, Escalation}
use sf_f.Store.Table
use sf_f.Store.Table.{Table}
use sf_f.Store.Table.Keys.{IsKeyed, update_again, update-found}
use sf_f.Store.Db.{Db}
use sf_f.Store.Events.Laws.{values-insert}
use sf_f.Store.Tx.{check-eq-ok}
use sf_f.Store.Escalations.{
  refers, target_ladder, insert_escalation, resolve_escalation, open_escalation, is_open_for,
  is_open, close, escalation_fits,
}

-- The same unit and trigger as `e`, and open.
abbrev pub rivals : Escalation → Db → Option Escalation
rivals e d = open_escalation e.unit_level e.unit_id e.trigger d

unrivalled :
    (a b c o rival : Bool) → (a && (b && (c && not (o && rival)))) ≡ true → o ≡ true → rival ≡ false
unrivalled a b c o rival h k = ground arith

pub fits-free :
    (esc : Escalation) (d : Db)
    → escalation_fits esc d ≡ true
    → (esc.status == "open") ≡ true
    → rivals esc d ≡ none
unfolding open_escalation
fits-free esc d h o =
    any-find (is_open_for esc.unit_level esc.unit_id esc.trigger) (Table.values d.escalations) (
      unrivalled (contains esc.target target_ladder)
        (contains esc.status ("open" ∷ "resolved" ∷ [])) (refers esc.payload_artifact_id d)
        (esc.status == "open") _ h o)

entered :
    (esc : Escalation) (d : Db)
    → rivals esc d ≡ none
    → (esc.status == "open") ≡ true
    → rivals esc
        (record d { escalations = Table.insert (λ n. record esc { id = some n }) d.escalations })
      ≡ some (record esc { id = some (Table.next_id d.escalations) })
unfolding open_escalation
entered esc d free o =
    let p = is_open_for esc.unit_level esc.unit_id esc.trigger in
    ap (find p) (values-insert (λ n. record esc { id = some n }) d.escalations)
    ∙ find-append_none p (Table.values d.escalations) _ free
    ∙ rw (==_refl esc.unit_level, ==_refl esc.unit_id, ==_refl esc.trigger, o) refl

-- An open escalation enters only when its unit and trigger had none that was open, and is then the one
-- that is found.
pub insert_escalation-fresh :
    (esc : Escalation) (d : Db) {id : ℕ} {d' : Db}
    → insert_escalation esc d ≡ ok (id, d')
    → (esc.status == "open") ≡ true
    → (rivals esc d ≡ none) × (rivals esc d' ≡ some (record esc { id = some id }))
unfolding insert_escalation open_escalation
insert_escalation-fresh esc d {id} {d'} h o =
    let (fits, h') = check-eq-ok (escalation_fits esc d) sqlite_integrity_error _ d h in
    let free = fits-free esc d fits o in
    let left = ok-injective h' in
    (
      free,
      ap (λ (x : ℕ × Db). rivals esc x.1) (sym left)
          ∙ entered esc d free o
          ∙ ap (λ (x : ℕ × Db). some (record esc { id = some x.0 })) left,
    )

blocked :
    (a b c o rival : Bool) → o ≡ true → rival ≡ true → (a && (b && (c && not (o && rival)))) ≡ false
blocked a b c o rival h k = ground arith

-- While one is open, a second for the same unit and trigger is refused.
pub insert_escalation-refused :
    (esc other : Escalation) (d : Db)
    → (esc.status == "open") ≡ true
    → rivals esc d ≡ some other
    → insert_escalation esc d ≡ err sqlite_integrity_error
unfolding insert_escalation open_escalation
insert_escalation-refused esc other d o found =
    let rival : escalation_fits esc d ≡ false =
      blocked (contains esc.target target_ladder) (contains esc.status ("open" ∷ "resolved" ∷ []))
        (refers esc.payload_artifact_id d) (esc.status == "open") _ o
        (find-any (is_open_for esc.unit_level esc.unit_id esc.trigger) (Table.values d.escalations)
          found) in
    rw rival refl

pub resolved :
    (now : Time) (i : ℕ) (resolution : String) (d : Db) {d' : Db}
    → resolve_escalation now i resolution d ≡ ok (tt, d')
    → ((Table.rowcount i is_open d.escalations == 1) ≡ true)
      × (d'
          ≡ record d { escalations = Table.update i is_open (close now resolution) d.escalations })
unfolding resolve_escalation
resolved now i resolution d h =
    let (one, h') = check-eq-ok (Table.rowcount i is_open d.escalations == 1) factory_error _ d h in
    (one, sym (ap (λ (x : Unit × Db). x.1) (ok-injective h')))

unresolved :
    (now : Time) (i : ℕ) (resolution : String) (d : Db)
    → (Table.rowcount i is_open d.escalations == 1) ≡ false
    → resolve_escalation now i resolution d ≡ err factory_error
unfolding resolve_escalation
unresolved now i resolution d h = rw h refl

-- In a table whose keys ascend, an escalation is resolved once: the row was there and open, it is then
-- resolved with its resolution and its instant, and a second resolution raises FactoryError.
pub resolve_escalation_once :
    (now later : Time) (i : ℕ) (resolution other : String) (d : Db) {d' : Db}
    → IsKeyed d.escalations
    → resolve_escalation now i resolution d ≡ ok (tt, d')
    → ((e : Escalation) × (Table.get i d.escalations ≡ some e)
        × (is_open e ≡ true)
        × (Table.get i d'.escalations ≡ some (close now resolution e)))
      × (resolve_escalation later i other d' ≡ err factory_error)
resolve_escalation_once now later i resolution other d {d'} k h =
    let (one, left) = resolved now i resolution d h in
    let (e, found, opened, changed) =
      update-found i is_open (close now resolution) d.escalations k one in
    let again = update_again i is_open (close now resolution) d.escalations k (λ _. refl) one in
    (
      (e, found, opened, ap (λ (x : Db). Table.get i x.escalations) left ∙ changed),
      unresolved later i other d'
          (ap (λ (x : Db). Table.rowcount i is_open x.escalations == 1) left ∙ again),
    )
