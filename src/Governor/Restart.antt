-- ===== src/Governor/Restart.antt =====
-- The pairs of events of a hold in src/sf_factory/scheduler.py: after a restart none is open.
use sf_f.Base.{
  ℕ, suc, ◌≤◌, String, ◌≡◌, refl, ap, ◌∙◌, Bool, true, false, List, [], ◌∷◌, ◌++◌, ◌==◌, string_eq,
  filter, ltb, if◌then◌else◌, arith, Bool-cases, inl, inr,
}
use sf_f.Base.Raises.{ok}
use sf_f.Models.Json.{Payload}
use sf_f.Models.Records.{Time, Event}
use sf_f.Store.Act.{◌>>=◌, proceed, reads}
use sf_f.Executor.Writes.{factory_event}
use sf_f.Store.Table
use sf_f.Store.Table.Keys.{IsKeyed, Below, insert-IsKeyed}
use sf_f.Store.Db.{Db}
use sf_f.Store.Database.{Database, transaction, read}
use sf_f.Store.Events.{NewEvent, insert_event, event_of, max_key}
use sf_f.Store.Events.Laws.{logged}
use sf_f.Governor.Hold.{
  last_seq, pair_open, hold_pair_open, proactive_hold_pair_open, restart_event,
  proactive_restart_event, close_if, reconcile_restart,
}

module _ (p : ℕ × Event → Bool) where
  max_key-filter-le : (n : ℕ) (rows : List (ℕ × Event)) → Below n rows → max_key (filter p rows) ≤ n
  max_key-filter-le n [] b = omega arith
  max_key-filter-le n ((j, r) ∷ rows) (l, b) = ground (arith, max_key-filter-le n rows b, l)

  max_key-filter-snoc :
      (n : ℕ) (r : Event) (rows : List (ℕ × Event))
      → Below n rows
      → max_key (filter p (rows ++ (suc n, r) ∷ []))
        ≡ (if p (suc n, r) then suc n else max_key (filter p rows))
  max_key-filter-snoc n r [] b = ground arith
  max_key-filter-snoc n r ((j, x) ∷ rows) (l, b) =
      ground (arith, max_key-filter-snoc n r rows b, max_key-filter-le n rows b, l)

last_seq-logged :
    (now : Time) (event_type : String) (e : NewEvent) (d : Db)
    → IsKeyed d.events
    → last_seq event_type (logged now e d)
      ≡ (if e.event_type == event_type then suc d.events.last_id else last_seq event_type d)
unfolding Table.insert
last_seq-logged now event_type e d k =
    max_key-filter-snoc (λ row. row.1.event_type == event_type) d.events.last_id
      (event_of now e (suc d.events.last_id)) d.events.rows k.below

last_seq-le :
    (event_type : String) (d : Db) → IsKeyed d.events → last_seq event_type d ≤ d.events.last_id
last_seq-le event_type d k =
    max_key-filter-le (λ row. row.1.event_type == event_type) d.events.last_id d.events.rows k.below

-- The tables after `close_if`.
abbrev closed_if : Time → NewEvent → Bool → Db → Db
closed_if now e is_open d = if is_open then logged now e d else d

closed_if-IsKeyed :
    (now : Time) (e : NewEvent) (b : Bool) (d : Db)
    → IsKeyed d.events
    → IsKeyed (closed_if now e b d).events
closed_if-IsKeyed now e true d k = insert-IsKeyed (event_of now e) d.events k
closed_if-IsKeyed now e false d k = k

not_before : (high started : ℕ) → started ≤ high → ltb (suc high) started ≡ false
not_before high started h = ground arith

-- The end of a pair closes it.
pair_open-closed :
    (now : Time) (started ended : String) (e : NewEvent) (d : Db)
    → IsKeyed d.events
    → (e.event_type == started) ≡ false
    → (e.event_type == ended) ≡ true
    → pair_open started ended (closed_if now e (pair_open started ended d) d) ≡ false
pair_open-closed now started ended e d k other same =
    elim (Bool-cases (pair_open started ended d)) [
      | inl stale ↦
          let at : last_seq ended (logged now e d) ≡ suc d.events.last_id =
            last_seq-logged now ended e d k ∙ rw same refl in
          let before : last_seq started (logged now e d) ≡ last_seq started d =
            last_seq-logged now started e d k ∙ rw other refl in
          ap (λ b. pair_open started ended (closed_if now e b d)) stale
          ∙ ap (λ n. ltb n (last_seq started (logged now e d))) at
          ∙ ap (ltb (suc d.events.last_id)) before
          ∙ not_before d.events.last_id (last_seq started d) (last_seq-le started d k)
      | inr over ↦ ap (λ b. pair_open started ended (closed_if now e b d)) over ∙ over
    ]

-- An event of another type leaves a pair as it is.
pair_open-kept :
    (now : Time) (started ended : String) (e : NewEvent) (b : Bool) (d : Db)
    → IsKeyed d.events
    → (e.event_type == started) ≡ false
    → (e.event_type == ended) ≡ false
    → pair_open started ended (closed_if now e b d) ≡ pair_open started ended d
pair_open-kept now started ended e false d k s t = refl
pair_open-kept now started ended e true d k s t =
    let at : last_seq ended (logged now e d) ≡ last_seq ended d =
      last_seq-logged now ended e d k ∙ rw t refl in
    let before : last_seq started (logged now e d) ≡ last_seq started d =
      last_seq-logged now started e d k ∙ rw s refl in
    ap (λ n. ltb n (last_seq started (logged now e d))) at ∙ ap (ltb (last_seq ended d)) before

-- The connection of the orchestrator, between two transactions.
abbrev pub at_rest : Db → Database
at_rest d = record { is_open = true; read_only = false; in_tx = false; tables = d }

close_if-returns :
    (now : Time) (event_type : String) (payload : Payload) (b : Bool) (d : Db)
    → close_if now (factory_event event_type payload) b (at_rest d)
      ≡ (ok tt, at_rest (closed_if now (factory_event event_type payload) b d))
unfolding transaction insert_event
close_if-returns now event_type payload true d = refl
close_if-returns now event_type payload false d = refl

reconcile_restart-returns :
    (now : Time) (d : Db)
    → let d1 = closed_if now restart_event (hold_pair_open d) d in
      reconcile_restart now (at_rest d)
      ≡ (ok tt, at_rest (closed_if now proactive_restart_event (proactive_hold_pair_open d1) d1))
unfolding reconcile_restart read
reconcile_restart-returns now d =
    let d1 = closed_if now restart_event (hold_pair_open d) d in
    ap
      (λ r.
        proceed r (λ _. reads proactive_hold_pair_open >>= close_if now proactive_restart_event))
      (close_if-returns now _ _ (hold_pair_open d) d)
    ∙ close_if-returns now _ _ (proactive_hold_pair_open d1) d1

-- On an open connection that may write and has no transaction, and whatever a dead process left in
-- the log, whose keys ascend: the reconciliation at a restart returns, and then neither pair of
-- events of a hold is open.
pub reconcile_restart-closes :
    (now : Time) (d : Db)
    → IsKeyed d.events
    → (d' : Db) × (reconcile_restart now (at_rest d) ≡ (ok tt, at_rest d'))
      × (hold_pair_open d' ≡ false)
      × (proactive_hold_pair_open d' ≡ false)
unfolding hold_pair_open proactive_hold_pair_open
reconcile_restart-closes now d k =
    let d1 = closed_if now restart_event (hold_pair_open d) d in
    let d2 = closed_if now proactive_restart_event (proactive_hold_pair_open d1) d1 in
    let k1 = closed_if-IsKeyed now restart_event (hold_pair_open d) d k in
    (
      d2,
      reconcile_restart-returns now d,
      pair_open-kept now "capacity_hold_started" "capacity_hold_ended" proactive_restart_event
            (proactive_hold_pair_open d1) d1 k1 refl refl
          ∙ pair_open-closed now "capacity_hold_started" "capacity_hold_ended" restart_event d k
              refl refl,
      pair_open-closed now "proactive_limit_hold_started" "proactive_limit_hold_ended"
          proactive_restart_event d1 k1 refl refl,
    )
