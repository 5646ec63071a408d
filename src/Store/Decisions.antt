-- ===== src/Store/Decisions.antt =====
-- The decision requests of src/sf_factory/db.py.
pub mod Laws
use sf_f.Base.{
  ℕ, String, Bool, true, false, ◌&&◌, Option, none, some, List, [], ◌∷◌, map, ◌==◌, string_eq,
  nat_eq, filter, contains, ltb, if◌then◌else◌, is_none, count,
}
use sf_f.Base.Raises.{factory_error, sqlite_integrity_error}
use sf_f.Models.Records.{Time, DecisionRequest}
use sf_f.Store.Table
use sf_f.Store.Db.{Db, DecisionRow}
use sf_f.Store.Tx.{Tx, ◌>>=◌, ◌>>◌, pure, gets, put, check}
use sf_f.Store.Artifacts.{refers}

unfoldable pub insert_decision_request : DecisionRequest → Tx ℕ
unfolding Table.insert
insert_decision_request dr = do
  request_known ← gets (refers (some dr.request_artifact_id))
  answer_known ← gets (refers dr.answer_artifact_id)
  check (contains dr.status ("pending" ∷ "answered" ∷ []) && (request_known && answer_known))
      sqlite_integrity_error
  id ← gets (λ d. Table.next_id d.decisions)
  put (λ d. record d {
    decisions =
        Table.insert (λ n. record { request = record dr { id = some n }; published_at = none })
          d.decisions;
  })
  pure id

abbrev pub is_pending : DecisionRow → Bool
is_pending r = r.request.status == "pending"

abbrev pub answer_row : Time → String → Option ℕ → DecisionRow → DecisionRow
answer_row now answer answer_artifact_id r = record r {
  request = record (r.request) {
    status = "answered";
    answer = some answer;
    answer_artifact_id = answer_artifact_id;
    answered_at = some now;
  };
}

-- WHERE id = ? AND status = 'pending'
unfoldable pub answer_decision : Time → ℕ → String → Option ℕ → Tx (Unit {0})
unfolding Table.update Table.rowcount
answer_decision now request_id answer answer_artifact_id = do
  updated ← gets (λ d. Table.rowcount request_id is_pending d.decisions)
  check (updated == 1) factory_error
  answer_known ← gets (refers answer_artifact_id)
  check answer_known sqlite_integrity_error
  put (λ d. record d {
    decisions =
        Table.update request_id is_pending (answer_row now answer answer_artifact_id) d.decisions;
  })

abbrev alert_row : Time → DecisionRow → DecisionRow
alert_row at r = record r { request = record (r.request) { alerted_at = some at } }

unfoldable pub mark_decision_alerted : ℕ → Time → Tx (Unit {0})
unfolding Table.update Table.rowcount
mark_decision_alerted request_id at = do
  updated ← gets (λ d. Table.rowcount request_id (λ _. true) d.decisions)
  check (updated == 1) factory_error
  put (λ d. record d { decisions = Table.update request_id (λ _. true) (alert_row at) d.decisions })

abbrev pub publish_row : Time → DecisionRow → DecisionRow
publish_row at r = record r { published_at = some at }

unfoldable pub mark_decision_published : ℕ → Time → Tx (Unit {0})
unfolding Table.update Table.rowcount
mark_decision_published request_id at = do
  updated ← gets (λ d. Table.rowcount request_id (λ _. true) d.decisions)
  check (updated == 1) factory_error
  put (λ d. record d {
    decisions = Table.update request_id (λ _. true) (publish_row at) d.decisions;
  })

abbrev requests : List DecisionRow → List DecisionRequest
requests = map (λ r. r.request)

abbrev pub is_unpublished : DecisionRow → Bool
is_unpublished r = is_pending r && is_none r.published_at

unfoldable pub pending_unpublished_decisions : Db → List DecisionRequest
pending_unpublished_decisions d = requests (filter is_unpublished (Table.values d.decisions))

abbrev is_late : Time → DecisionRow → Bool
is_late cutoff r = is_pending r && (is_none r.request.alerted_at && ltb r.request.created_at cutoff)

-- `cutoff` is the instant `unalerted_older_than_h` hours ago.
unfoldable pub pending_decisions : Option Time → Db → List DecisionRequest
pending_decisions none d = requests (filter is_pending (Table.values d.decisions))
pending_decisions (some cutoff) d = requests (filter (is_late cutoff) (Table.values d.decisions))

-- `_pending_decision_count` of src/sf_factory/scheduler.py.
unfoldable pub pending_decision_count : String → String → Db → ℕ
pending_decision_count unit_level unit_id d =
    count
      (λ r. r.request.unit_level == unit_level && (r.request.unit_id == unit_id && is_pending r))
      (Table.values d.decisions)
