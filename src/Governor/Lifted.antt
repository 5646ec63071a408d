-- ===== src/Governor/Lifted.antt =====
-- A page that fails can neither block the lifting of a hold nor undo it.
use mathlib.Core.Path.{subst}
use mathlib.Core.Option
use sf_f.Base.{ℕ, String, ◌≡◌, refl, sym, ap, ◌∙◌, Bool, true, false, List, [], ◌∷◌, ◌⊎◌, inl, inr}
use sf_f.Base.Raises.{Result, ok, err, notify_error}
use sf_f.Models.Json.{num}
use sf_f.Models.Records.{Time}
use sf_f.Store.Table
use sf_f.Store.Table.Keys.{IsKeyed, insert-IsKeyed}
use sf_f.Store.Db.{Db}
use sf_f.Store.Database.{Database, transaction}
use sf_f.Store.Events.{NewEvent, insert_event, event_of}
use sf_f.Store.Events.Laws.{logged}
use sf_f.StateMachine.Moves.{Effect, Effect-refl, Effect-trans, transact-IsLawful}
use sf_f.Executor.Writes.{factory_event, log_event}
use sf_f.Executor.Lawful.Writes.{log_event-IsQuiet}
use sf_f.Executor.Gate.{Delivery}
use sf_f.Governor.{lift, auto_resolve}
use sf_f.Governor.Quiet.{lift-IsQuiet}
use sf_f.Governor.Resumed.{resumed, get-auto_resolve}
use sf_f.Governor.Restart.{at_rest}
use sf_f.Governor.Lift.{
  Memory, undelivered, page, architect_paged, founder_paged, lifted, lift_hold,
}

-- A page moves no unit.
page-Effect :
    (now : Time) (kind : String) (resolved : List ℕ) (text : String) (r : Result (Unit {0}))
    (latch : Bool) (db : Database)
    → Effect db (page now (undelivered kind resolved text) r latch db).1.1
page-Effect now kind resolved text (ok _) latch db = Effect-refl db
page-Effect now kind resolved text (err notify_error) true db = Effect-refl db
page-Effect now kind resolved text (err notify_error) false db =
    transact-IsLawful (log_event now (undelivered kind resolved text))
      (log_event-IsQuiet now (undelivered kind resolved text) refl) db
page-Effect now kind resolved text (err _) latch db = Effect-refl db

module _ (notify_architect : Bool) (now : Time) (sent architect_sent : Delivery) where
  founder_paged-Effect :
      (resolved : List ℕ) (g : Memory) (x : Result (Unit {0}) × (Bool × Database)) (db : Database)
      → Effect db x.1.1
      → Effect db (founder_paged notify_architect now sent architect_sent resolved g x).1.1
  founder_paged-Effect resolved g (err e, (latch, db1)) db k = k
  founder_paged-Effect resolved g (ok _, (latch, db1)) db k = branch notify_architect
    where
      branch :
          (b : Bool)
          → Effect db (founder_paged b now sent architect_sent resolved g (ok tt, (latch, db1))).1.1
      branch true = Effect-trans k (
          page-Effect now "capacity_hold_ended_architect" resolved architect_sent.error
            architect_sent.outcome g.architect_resume_failed_logged db1)
      branch false = k

  lifted-Effect :
      (g : Memory) (x : Result (List ℕ) × Database) (db : Database)
      → Effect db x.1
      → Effect db (lifted notify_architect now sent architect_sent g x).1.1
  lifted-Effect g (err e, db1) db k = k
  lifted-Effect g (ok resolved, db1) db k =
      founder_paged-Effect resolved (record g { held = false }) _ db
        (Effect-trans k (
          page-Effect now "capacity_hold_ended" resolved sent.error sent.outcome
            g.delivery_failed_logged db1))

  pub lift_hold-Effect :
      (probe_process_id : ℕ) (g : Memory) (db : Database)
      → Effect db (lift_hold notify_architect now sent architect_sent probe_process_id g db).1.1
  unfolding lift_hold
  lift_hold-Effect probe_process_id g db =
      lifted-Effect g (transaction (lift now probe_process_id) db) db
        (transact-IsLawful (lift now probe_process_id) (lift-IsQuiet now probe_process_id) db)

-- What the notifier may do: it delivers, or raises NotifyError.
abbrev pub IsNotified : Delivery → Type 0
IsNotified sent = (sent.outcome ≡ ok tt) ⊎ (sent.outcome ≡ err notify_error)

-- A page on an idle connection returns, and leaves the escalations.
abbrev Paged : Db → Result (Unit {0}) × (Bool × Database) → Type 0
Paged d x =
    (latch : Bool) × (d' : Db) × (x ≡ (ok tt, (latch, at_rest d')))
    × (d'.escalations ≡ d.escalations)

page-Paged :
    (now : Time) (kind : String) (resolved : List ℕ) (sent : Delivery) (latch : Bool) (d : Db)
    → IsNotified sent
    → Paged d (page now (undelivered kind resolved sent.error) sent.outcome latch (at_rest d))
unfolding transaction insert_event
page-Paged now kind resolved sent latch d told = elim told [
  | inl delivered ↦ rw delivered (false, d, refl, refl)
  | inr failed ↦ rw failed (logged_once latch)
]
  where
    logged_once :
        (b : Bool)
        → Paged d (page now (undelivered kind resolved sent.error) (err notify_error) b (at_rest d))
    logged_once true = (true, d, refl, refl)
    logged_once false = (true, logged now (undelivered kind resolved sent.error) d, refl, refl)

-- What is left when both pages are out.
abbrev Settled : Db → Result (Unit {0}) × (Memory × Database) → Type 0
Settled d x =
    (g : Memory) × (d' : Db) × (x ≡ (ok tt, (g, at_rest d')))
    × (g.held ≡ false)
    × (d'.escalations ≡ d.escalations)

founder_paged-Settled :
    (notify_architect : Bool) (now : Time) (sent architect_sent : Delivery) (resolved : List ℕ)
    (g : Memory) (d : Db) (x : Result (Unit {0}) × (Bool × Database))
    → g.held ≡ false
    → IsNotified architect_sent
    → Paged d x
    → Settled d (founder_paged notify_architect now sent architect_sent resolved g x)
founder_paged-Settled notify_architect now sent architect_sent resolved g d x free told
      (latch, d1, is, same) =
    subst (λ y. Settled d (founder_paged notify_architect now sent architect_sent resolved g y))
      (sym is) (branch notify_architect)
  where
    branch :
        (b : Bool)
        → Settled d
            (founder_paged b now sent architect_sent resolved g (ok tt, (latch, at_rest d1)))
    branch false = (record g { delivery_failed_logged = latch }, d1, refl, free, same)
    branch true =
        let (latch2, d2, is2, same2) =
          page-Paged now "capacity_hold_ended_architect" resolved architect_sent
            g.architect_resume_failed_logged d1 told in
        (
          record g { delivery_failed_logged = latch; architect_resume_failed_logged = latch2 },
          d2,
          ap (architect_paged (record g { delivery_failed_logged = latch })) is2,
          free,
          same2 ∙ same,
        )

abbrev pub ended_event : ℕ → NewEvent
ended_event probe_process_id =
    factory_event "capacity_hold_ended" (("probe_process_id", num probe_process_id) ∷ [])

-- The transaction of the lifting is the sweep, after its event.
committed-lift :
    (now : Time) (probe_process_id : ℕ) (d d' : Db) (ids : List ℕ)
    → auto_resolve now (logged now (ended_event probe_process_id) d) ≡ ok (ids, d')
    → transaction (lift now probe_process_id) (at_rest d) ≡ (ok ids, at_rest d')
unfolding transaction lift insert_event
committed-lift now probe_process_id d d' ids h = rw h refl

-- On an idle connection, when the keys of the escalations and of the events ascend, and whether each of
-- the pages is delivered or raises NotifyError: the lifting returns, the hold is over, and the
-- escalations are those of the sweep, which has closed what the outage had stopped and left every
-- other row.
pub lift_hold-Lifts :
    (notify_architect : Bool) (now : Time) (sent architect_sent : Delivery) (probe_process_id : ℕ)
    (g : Memory) (d : Db)
    → IsNotified sent
    → IsNotified architect_sent
    → IsKeyed d.escalations
    → IsKeyed d.events
    → (g' : Memory) × (d' : Db) × (lift_hold notify_architect now sent architect_sent
          probe_process_id g
          (at_rest d)
        ≡ (ok tt, (g', at_rest d')))
      × (g'.held ≡ false)
      × ((k : ℕ)
          → Table.get k d'.escalations
            ≡ Option.map
                (resumed now (logged now (ended_event probe_process_id) d))
                (Table.get k d.escalations))
unfolding lift_hold
lift_hold-Lifts notify_architect now sent architect_sent probe_process_id g d told told2 keyed
      events =
    let ended = logged now (ended_event probe_process_id) d in
    let (ids, d1, swept, rows) =
      get-auto_resolve now ended keyed
        (insert-IsKeyed (event_of now (ended_event probe_process_id)) d.events events) in
    let (g', d2, is, free, same) =
      founder_paged-Settled notify_architect now sent architect_sent ids (record g { held = false })
        d1 _ refl told2
        (page-Paged now "capacity_hold_ended" ids sent g.delivery_failed_logged d1 told) in
    (
      g',
      d2,
      ap (lifted notify_architect now sent architect_sent g)
            (committed-lift now probe_process_id d d1 ids swept)
          ∙ is,
      free,
      λ k. ap (Table.get k) same ∙ rows k,
    )
