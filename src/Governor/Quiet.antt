-- ===== src/Governor/Quiet.antt =====
-- The governor of src/sf_factory/scheduler.py moves no unit: it is the executor that picks its resolutions up.
use sf_f.Base.{
  ℕ, ◌≡◌, Bool, true, false, not, ◌||◌, ◌==◌, string_eq, Bool-cases, inl, inr, String, refl, Option,
  none, some, List, [], ◌∷◌, ◌++◌,
}
use sf_f.Models.Json.{num}
use sf_f.Models.Records.{Time, Escalation}
use sf_f.Store.Tx.{gets}
use sf_f.Store.Events.{NewEvent, insert_event}
use sf_f.Store.Escalations.{resolve_escalation}
use sf_f.StateMachine.Moves.{IsQuiet, IsLawful, bind-IsLawful, transact-IsLawful}
use sf_f.Store.Act.{reads}
use sf_f.Executor.Lawful.Rules.{reads-IsLawful, pure-IsLawful}
use sf_f.Governor.Hold.{
  Holds, hold_pair_open, proactive_hold_pair_open, start_event, restart_event,
  proactive_restart_event, note_match, close_if, reconcile_restart,
}
use sf_f.StateMachine.Quiet.{
  pure-IsQuiet, gets-IsQuiet, bind-IsQuiet, insert_event-IsQuiet, resolve_escalation-IsQuiet,
}
use sf_f.Executor.Writes.{factory_event, log_event}
use sf_f.Executor.Lawful.Writes.{log_event-IsQuiet}
use sf_f.Governor.{
  resolution_for, selected, resolved_event, resume, consider, sweep, auto_resolve, lift,
}

resume-IsQuiet :
    (now : Time) (id : ℕ) (e : Escalation) (token : Option String) → IsQuiet (resume now id e token)
resume-IsQuiet now id e none = pure-IsQuiet []
resume-IsQuiet now id e (some token) =
    bind-IsQuiet (resolve_escalation now id token) _ (resolve_escalation-IsQuiet now id token) λ _.
      bind-IsQuiet (insert_event now (resolved_event id e token)) _
        (insert_event-IsQuiet now (resolved_event id e token) refl) λ _. pure-IsQuiet (id ∷ [])

sweep-IsQuiet : (now : Time) (rows : List (ℕ × Escalation)) → IsQuiet (sweep now rows)
unfolding sweep
sweep-IsQuiet now [] = pure-IsQuiet []
sweep-IsQuiet now ((id, e) ∷ rows) =
    bind-IsQuiet (consider now (id, e)) _
      (bind-IsQuiet (gets (resolution_for e)) _ (gets-IsQuiet (resolution_for e))
        (λ token. resume-IsQuiet now id e token))
      λ done.
        bind-IsQuiet (sweep now rows) _ (sweep-IsQuiet now rows) λ rest. pure-IsQuiet (done ++ rest)

auto_resolve-IsQuiet : (now : Time) → IsQuiet (auto_resolve now)
unfolding auto_resolve
auto_resolve-IsQuiet now =
    bind-IsQuiet (gets selected) _ (gets-IsQuiet selected) λ rows. sweep-IsQuiet now rows

pub lift-IsQuiet : (now : Time) (probe_process_id : ℕ) → IsQuiet (lift now probe_process_id)
unfolding lift
lift-IsQuiet now probe_process_id =
    let ended =
      factory_event "capacity_hold_ended" (("probe_process_id", num probe_process_id) ∷ []) in
    bind-IsQuiet (log_event now ended) _ (log_event-IsQuiet now ended refl)
      λ _. auto_resolve-IsQuiet now

close_if-IsLawful :
    (now : Time) (e : NewEvent) (b : Bool)
    → (e.event_type == "transition") ≡ false
    → IsLawful (close_if now e b)
close_if-IsLawful now e true other =
    transact-IsLawful (log_event now e) (log_event-IsQuiet now e other)
close_if-IsLawful now e false other = pure-IsLawful tt

pub reconcile_restart-IsLawful : (now : Time) → IsLawful (reconcile_restart now)
unfolding reconcile_restart
reconcile_restart-IsLawful now =
    bind-IsLawful (reads hold_pair_open) _ (reads-IsLawful hold_pair_open) λ stale.
      bind-IsLawful (close_if now restart_event stale) _
        (close_if-IsLawful now restart_event stale refl)
        λ _.
          bind-IsLawful (reads proactive_hold_pair_open) _ (reads-IsLawful proactive_hold_pair_open)
            λ proactive. close_if-IsLawful now proactive_restart_event proactive refl

pub note_match-IsLawful :
    (enabled : Bool) (now : Time) (signature role : String) (process_id : Option ℕ) (g : Holds)
    → IsLawful (note_match enabled now signature role process_id g).1
unfolding note_match
note_match-IsLawful enabled now signature role process_id g =
    elim (Bool-cases (not enabled || g.held)) [
      | inl passed ↦ rw passed (pure-IsLawful tt)
      | inr entered ↦
          rw entered (close_if-IsLawful now (start_event signature role process_id) true refl)
    ]
