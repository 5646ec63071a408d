-- ===== src/Governor/Lift.antt =====
-- `CapacityGovernor._lift_hold` of src/sf_factory/scheduler.py: the transaction, then the two pages, each
-- with its own latch on a streak of failures.
use sf_f.Base.{ℕ, String, Bool, true, false, List, [], ◌∷◌, if◌then◌else◌}
use sf_f.Base.Raises.{Result, ok, err, notify_error}
use sf_f.Models.Json.{str, array, nums}
use sf_f.Models.Records.{Time}
use sf_f.Store.Database.{Database, transaction}
use sf_f.Store.Events.{NewEvent}
use sf_f.Executor.Writes.{factory_event, log_event}
use sf_f.Executor.Gate.{Delivery}
use sf_f.Governor.{lift}

-- `_held`, `_delivery_failed_logged` and `_architect_resume_failed_logged`.
pub record Memory : Type 0 where
  pub held : Bool
  pub delivery_failed_logged : Bool
  pub architect_resume_failed_logged : Bool

abbrev pub undelivered : String → List ℕ → String → NewEvent
undelivered kind resolved error =
    factory_event "alert_delivery_failed"
      (("kind", str kind) ∷ ("resolved", array (nums resolved)) ∷ ("error", str error) ∷ [])

-- A page, with the latch of its streak. The latch is set before the event is written.
abbrev pub page :
    Time → NewEvent → Result (Unit {0}) → Bool → Database → Result (Unit {0}) × (Bool × Database)
page now alert (ok _) logged db = (ok tt, (false, db))
page now alert (err notify_error) true db = (ok tt, (true, db))
page now alert (err notify_error) false db =
    let wrote = transaction (log_event now alert) db in (wrote.0, (true, wrote.1))
page now alert (err e) logged db = (err e, (logged, db))

abbrev pub architect_paged :
    Memory → Result (Unit {0}) × (Bool × Database) → Result (Unit {0}) × (Memory × Database)
architect_paged g (r, (logged, db)) =
    (r, (record g { architect_resume_failed_logged = logged }, db))

module _ (notify_architect : Bool) (now : Time) (sent architect_sent : Delivery) where
  -- After the founder's page.
  abbrev pub founder_paged :
      List ℕ
      → Memory
      → Result (Unit {0}) × (Bool × Database)
      → Result (Unit {0}) × (Memory × Database)
  founder_paged resolved g (err e, (logged, db)) =
      (err e, (record g { delivery_failed_logged = logged }, db))
  founder_paged resolved g (ok _, (logged, db)) =
      if notify_architect
      then architect_paged (record g { delivery_failed_logged = logged })
          (page now (undelivered "capacity_hold_ended_architect" resolved architect_sent.error)
            architect_sent.outcome g.architect_resume_failed_logged db)
      else (ok tt, (record g { delivery_failed_logged = logged }, db))

  -- After the transaction.
  abbrev pub lifted : Memory → Result (List ℕ) × Database → Result (Unit {0}) × (Memory × Database)
  lifted g (err e, db) = (err e, (g, db))
  lifted g (ok resolved, db) =
      founder_paged resolved (record g { held = false })
        (page now (undelivered "capacity_hold_ended" resolved sent.error) sent.outcome
          g.delivery_failed_logged db)

  unfoldable pub lift_hold : ℕ → Memory → Database → Result (Unit {0}) × (Memory × Database)
  lift_hold probe_process_id g db = lifted g (transaction (lift now probe_process_id) db)
