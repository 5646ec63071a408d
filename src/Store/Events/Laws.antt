-- ===== src/Store/Events/Laws.antt =====
-- What an INSERT into the event log does.
use mathlib.Core.List.{map-append}
use sf_f.Base.{
  suc, ℕ, ◌≡◌, [], ◌∷◌, ◌++◌, ◌==◌, string_eq, contains, not, is_none, ◌||◌, Bool-cases, inl, inr,
}
use sf_f.Base.Raises.{ok}
use sf_f.Models.Records.{Time}
use sf_f.Store.Table
use sf_f.Store.Table.{Table}
use sf_f.Store.Db.{Db}
use sf_f.Store.Events.{NewEvent, event_of, insert_event}

-- The log with one more event.
abbrev pub logged : Time → NewEvent → Db → Db
logged now e d = record d { events = Table.insert (event_of now e) d.events }

pub insert_event-ok :
    (now : Time) (e : NewEvent) (d : Db) {seq : ℕ} {d' : Db}
    → insert_event now e d ≡ ok (seq, d')
    → (seq ≡ Table.next_id d.events) × (logged now e d ≡ d')
unfolding insert_event
insert_event-ok now e d h =
    elim (Bool-cases (not (is_none e.unit_id) || e.unit_level == "factory")) [
      | inl named ↦ elim (Bool-cases (contains e.unit_level ("phase" ∷ "stage" ∷ "factory" ∷ []))) [
        | inl level ↦ (cc (rw (named, level) at h), cc (rw (named, level) at h))
        | inr other ↦ cc (rw (named, other) at h)
      ]
      | inr unnamed ↦ cc (rw unnamed at h)
    ]

pub values-insert :
    {R : Type 0} (f : ℕ → R) (t : Table R)
    → Table.values (Table.insert f t) ≡ Table.values t ++ f (Table.next_id t) ∷ []
unfolding Table.insert
values-insert f t = map-append _ t.rows ((suc t.last_id, f (suc t.last_id)) ∷ [])
