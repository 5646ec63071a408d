-- ===== src/Governor/Tests.antt =====
-- A stage that a limit stopped in AUDIT and one that failed for another reason, when the hold is lifted;
-- and a restart after a hold.
use mathlib.Core.Option
use sf_f.Base.{false, ℕ, String, ◌≡◌, refl, true, Option, none, some, List, [], ◌∷◌, arith}
use sf_f.Base.Raises.{ok}
use sf_f.Models.Json.{Payload, flag}
use sf_f.Models.Records.{Event, Escalation}
use sf_f.Store.Table
use sf_f.Store.Table.Keys.{IsKeyed}
use sf_f.Store.Db
use sf_f.Store.Db.{Db}
use sf_f.Store.Escalations.{close}
use sf_f.Governor.{auto_resolve, resolution_for}
use sf_f.Base.{inr}
use sf_f.Base.Raises.{err, notify_error}
use sf_f.Store.Events.Laws
use sf_f.Executor.Gate.{Delivery}
use sf_f.Governor.Lift.{Memory, lift_hold}
use sf_f.Governor.Lifted.{ended_event, lift_hold-Lifts}
use sf_f.Governor.Hold.{hold_pair_open, proactive_hold_pair_open, reconcile_restart}
use sf_f.Governor.Restart.{at_rest, reconcile_restart-closes}
use sf_f.Governor.Resumed.{resumed, get-auto_resolve}

abbrev logged : ℕ → String → String → Option String → Option String → Payload → Event
logged seq unit_id event_type from to payload = record {
  seq = seq;
  unit_level = "stage";
  unit_id = some unit_id;
  event_type = event_type;
  from_state = from;
  to_state = to;
  actor = "executor";
  payload = payload;
  created_at = 1;
}

abbrev raised : ℕ → String → Escalation
raised id unit_id = record {
  id = some id;
  unit_level = "stage";
  unit_id = unit_id;
  trigger = "agent_run_failed";
  target = "phase_architect";
  payload_artifact_id = none;
  event_seq = some id;
  status = "open";
  resolution = none;
  created_at = 1;
  resolved_at = none;
}

abbrev stopped : Db
stopped = record Db.empty {
  events = record {
    rows =
        (1, logged 1 "S1" "agent_run_failed" none none (("usage_limit", flag true) ∷ []))
        ∷ (2, logged 2 "S2" "agent_run_failed" none none [])
        ∷ (3, logged 3 "S1" "transition" (some "AUDIT") (some "ESCALATED") [])
        ∷ (4, logged 4 "S2" "transition" (some "BUILD") (some "ESCALATED") [])
        ∷ [];
    last_id = 4;
  };
  escalations = record { rows = (1, raised 1 "S1") ∷ (2, raised 2 "S2") ∷ []; last_id = 2 };
}

-- The first is resolved by a fresh validation; the second waits for the architect.
resumed_first : resumed 9 stopped (raised 1 "S1") ≡ close 9 "rework:VALIDATE" (raised 1 "S1")
unfolding resolution_for Table.get
resumed_first = refl

resumed_second : resumed 9 stopped (raised 2 "S2") ≡ raised 2 "S2"
unfolding resolution_for Table.get
resumed_second = refl

escalations-IsKeyed : IsKeyed stopped.escalations
escalations-IsKeyed = record {
  ascends = (omega arith, (omega arith, tt));
  below = (omega arith, (omega arith, tt));
}

events-IsKeyed : IsKeyed stopped.events
events-IsKeyed = record {
  ascends = (omega arith, (omega arith, (omega arith, (omega arith, tt))));
  below = (omega arith, (omega arith, (omega arith, (omega arith, tt))));
}

get-auto_resolve_example :
    (ids : List ℕ) × (d : Db) × (auto_resolve 9 stopped ≡ ok (ids, d))
    × ((k : ℕ)
        → Table.get k d.escalations
          ≡ Option.map (resumed 9 stopped) (Table.get k stopped.escalations))
get-auto_resolve_example = get-auto_resolve 9 stopped escalations-IsKeyed events-IsKeyed

-- What a dead process left in the log: a hold that started and did not end.
abbrev stale : Db
stale = record Db.empty {
  events = record {
    rows =
        (1, logged 1 "S1" "agent_run_failed" none none [])
        ∷ (2, logged 2 "S1" "capacity_hold_started" none none [])
        ∷ [];
    last_id = 2;
  };
}

stale-is_open : hold_pair_open stale ≡ true
unfolding hold_pair_open
stale-is_open = refl

stale-IsKeyed : IsKeyed stale.events
stale-IsKeyed = record {
  ascends = (omega arith, (omega arith, tt));
  below = (omega arith, (omega arith, tt));
}

reconcile_restart-closes_example :
    (d : Db) × (reconcile_restart 9 (at_rest stale) ≡ (ok tt, at_rest d))
    × (hold_pair_open d ≡ false)
    × (proactive_hold_pair_open d ≡ false)
reconcile_restart-closes_example = reconcile_restart-closes 9 stale stale-IsKeyed

-- Both pages fail, and the first failure of a streak is logged.
abbrev refused : Delivery
refused = record { outcome = err notify_error; error = "503" }

abbrev during : Memory
during = record {
  held = true;
  delivery_failed_logged = false;
  architect_resume_failed_logged = true;
}

lift_hold-Lifts_example :
    (g : Memory) × (d : Db) × (lift_hold true 9 refused refused 7 during (at_rest stopped)
      ≡ (ok tt, (g, at_rest d)))
    × (g.held ≡ false)
    × ((k : ℕ)
        → Table.get k d.escalations
          ≡ Option.map
              (resumed 9 (Laws.logged 9 (ended_event 7) stopped))
              (Table.get k stopped.escalations))
lift_hold-Lifts_example =
    lift_hold-Lifts true 9 refused refused 7 during stopped (inr refl) (inr refl)
      escalations-IsKeyed events-IsKeyed
