-- ===== src/Store/Escalations.antt =====
-- The escalations of src/sf_factory/db.py.
pub mod Laws
pub mod OneOpen
use sf_f.Base.{
  true, false, ℕ, String, Bool, ◌&&◌, ◌||◌, not, Option, none, some, List, [], ◌∷◌, ◌==◌, string_eq,
  nat_eq, any, find, filter, contains, max, if◌then◌else◌, get_or, ltb, count,
}
use sf_f.Base.Raises.{factory_error, sqlite_integrity_error}
use sf_f.Models.Records.{Time, Escalation}
use sf_f.Store.Table
use sf_f.Store.Db.{Db}
use sf_f.Store.Tx.{Tx, ◌>>=◌, ◌>>◌, pure, gets, put, check}
use sf_f.Store.Artifacts.{refers}

-- ESCALATION_TARGET_LADDER of src/sf_factory/models.py, which is also the CHECK of the column.
abbrev pub target_ladder : List String
target_ladder = "phase_architect" ∷ "main_architect" ∷ "founder" ∷ []

abbrev pub is_open_for : String → String → String → Escalation → Bool
is_open_for unit_level unit_id trigger e =
    e.unit_level == unit_level
    && (e.unit_id == unit_id && (e.trigger == trigger && e.status == "open"))

unfoldable pub open_escalation : String → String → String → Db → Option Escalation
open_escalation unit_level unit_id trigger d =
    find (is_open_for unit_level unit_id trigger) (Table.values d.escalations)

-- The CHECKs on `target` and `status`, the reference, and the partial UNIQUE index
-- uq_open_escalation: one open row for a unit and a trigger.
abbrev pub escalation_fits : Escalation → Db → Bool
escalation_fits esc d =
    contains esc.target target_ladder
    && (contains esc.status ("open" ∷ "resolved" ∷ [])
        && (refers esc.payload_artifact_id d
            && not (
                esc.status == "open"
                && any (is_open_for esc.unit_level esc.unit_id esc.trigger)
                    (Table.values d.escalations))))

unfoldable pub insert_escalation : Escalation → Tx ℕ
unfolding Table.insert
insert_escalation esc = do
  fits ← gets (escalation_fits esc)
  check fits sqlite_integrity_error
  id ← gets (λ d. Table.next_id d.escalations)
  put (λ d. record d { escalations = Table.insert (λ n. record esc { id = some n }) d.escalations })
  pure id

abbrev pub is_open : Escalation → Bool
is_open e = e.status == "open"

abbrev pub close : Time → String → Escalation → Escalation
close now resolution e = record e {
  status = "resolved";
  resolution = some resolution;
  resolved_at = some now;
}

-- WHERE id = ? AND status = 'open'
unfoldable pub resolve_escalation : Time → ℕ → String → Tx (Unit {0})
unfolding Table.update Table.rowcount
resolve_escalation now esc_id resolution = do
  updated ← gets (λ d. Table.rowcount esc_id is_open d.escalations)
  check (updated == 1) factory_error
  put (λ d. record d {
    escalations = Table.update esc_id is_open (close now resolution) d.escalations;
  })

-- The CHECK on `target` is met when the row is there.
unfoldable pub bump_escalation_target : ℕ → String → Tx (Unit {0})
unfolding Table.update Table.rowcount
bump_escalation_target esc_id new_target = do
  updated ← gets (λ d. Table.rowcount esc_id (λ _. true) d.escalations)
  check (updated == 1) factory_error
  check (contains new_target target_ladder) sqlite_integrity_error
  put (λ d. record d {
    escalations =
        Table.update esc_id (λ _. true) (λ e. record e { target = new_target }) d.escalations;
  })

-- Older than the cutoff by the clock of its status; a NULL is not older.
abbrev pub is_older : Time → Escalation → Bool
is_older cutoff e =
    if e.status == "resolved"
    then elim e.resolved_at [ none ↦ false | some t ↦ ltb t cutoff ]
    else ltb e.created_at cutoff

-- `cutoff` is the instant `older_than_min` minutes ago.
unfoldable pub list_escalations_by_status : String → Option Time → Db → List Escalation
list_escalations_by_status status none d =
    filter (λ e. e.status == status) (Table.values d.escalations)
list_escalations_by_status status (some cutoff) d =
    filter (λ e. e.status == status && is_older cutoff e) (Table.values d.escalations)

-- `_open_escalation_count` of src/sf_factory/scheduler.py.
unfoldable pub open_escalation_count : String → String → Db → ℕ
open_escalation_count unit_level unit_id d =
    count (λ e. e.unit_level == unit_level && (e.unit_id == unit_id && e.status == "open"))
      (Table.values d.escalations)
