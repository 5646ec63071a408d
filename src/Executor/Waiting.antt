-- ===== src/Executor/Waiting.antt =====
-- The latest decision request of a stage, after one is inserted, and after it is published.
use mathlib.Core.List.{reverse_aux, reverse, reverse-append}
use mathlib.Core.Path.{subst}
use sf_f.Base.{
  contains, ℕ, String, ◌≡◌, refl, sym, ap, ◌∙◌, Bool, true, ◌&&◌, Option, none, some, List, [], ◌∷◌,
  ◌++◌, map, find, ==_refl, string_eq, nat_eq, ◌==◌, Bool-cases, inl, inr, arith,
}
use sf_f.Base.Raises.{
  result-cases, factory_error, sqlite_integrity_error, Result, ok, err, ok-injective,
  assertion_error, require_some, notify_error,
}
use sf_f.Models.Records.{Time, DecisionRequest}
use sf_f.Store.Table
use sf_f.Store.Table.{Table}
use sf_f.Store.Db.{Db, DecisionRow}
use sf_f.Store.Tx.{Tx, lift, bind-eq-ok, check-eq-ok}
use sf_f.Store.Database.{Database, transaction}
use sf_f.Store.Database.Atomic.{transaction-err, transaction-ok}
use sf_f.Store.Events.Laws.{insert_event-ok, values-insert}
use sf_f.Store.Decisions.{insert_decision_request, mark_decision_published, publish_row}
use sf_f.Store.Artifacts.{refers}
use sf_f.Store.Events.{NewEvent, insert_event}
use sf_f.Executor.Writes.{log_event}
use sf_f.Executor.Gate.{publish_decision, published, Delivery}
use sf_f.Executor.Register.{FileFound, register_artifact}
use sf_f.Executor.Queries.{latest_decision, asks_for, request_of}
use sf_f.Executor.Writes.{request_decision, new_request}

-- The latest request of the stage has no answer.
abbrev pub IsWaiting : String → Db → Type 0
IsWaiting stage_id d =
    (r : DecisionRequest) × (latest_decision "stage" stage_id d ≡ some r) × (r.answer ≡ none)

abbrev asks : String → DecisionRequest → Bool
asks stage_id r = r.unit_level == "stage" && r.unit_id == stage_id

abbrev rows_of : Db → List DecisionRow
rows_of d = Table.values d.decisions

find-reverse_snoc :
    {A : Type 0} (p : A → Bool) (xs : List A) (x : A)
    → p x ≡ true
    → find p (reverse (xs ++ x ∷ [])) ≡ some x
find-reverse_snoc p xs x h = ap (find p) (reverse-append xs (x ∷ [])) ∙ rw h refl

asks-new_request :
    (now : Time) (stage_id gate_kind : String) (id n : ℕ) (at : Option Time)
    → asks_for "stage" stage_id (record {
      request = record (new_request now stage_id gate_kind id) { id = some n };
      published_at = at;
    })
      ≡ true
asks-new_request now stage_id gate_kind id n at = rw (==_refl stage_id) refl

insert-IsWaiting :
    (now : Time) (stage_id gate_kind : String) (id : ℕ) (d : Db) {n : ℕ} {d' : Db}
    → insert_decision_request (new_request now stage_id gate_kind id) d ≡ ok (n, d')
    → IsWaiting stage_id d'
unfolding insert_decision_request latest_decision
insert-IsWaiting now stage_id gate_kind id d h =
    let request = new_request now stage_id gate_kind id in
    let (fits, h') =
      check-eq-ok
        (contains request.status ("pending" ∷ "answered" ∷ [])
          && (refers (some id) d && refers request.answer_artifact_id d))
        sqlite_integrity_error _ d h in
    subst (IsWaiting stage_id) (ap (λ (x : ℕ × Db). x.1) (ok-injective h')) (
      record request { id = some (Table.next_id d.decisions) },
      ap (λ xs. request_of (find (asks_for "stage" stage_id) (reverse xs)))
            (values-insert
              (λ n. record { request = record request { id = some n }; published_at = none })
              d.decisions)
          ∙ ap request_of (
              find-reverse_snoc (asks_for "stage" stage_id) (rows_of d) _
                (asks-new_request now stage_id gate_kind id (Table.next_id d.decisions) none)),
      refl,
    )

pub request_decision-IsWaiting :
    (now : Time) (stage_id gate_kind : String) (file : FileFound) (sha : Option String) (d : Db)
    {d' : Db}
    → request_decision now stage_id gate_kind file sha d ≡ ok (tt, d')
    → IsWaiting stage_id d'
unfolding request_decision
request_decision-IsWaiting now stage_id gate_kind file sha d h =
    let (ref, d1, h1, k1) =
      bind-eq-ok (register_artifact now "stage" stage_id "decision_request" "workspace" file sha d)
        _ h in
    let (id, d2, h2, k2) = bind-eq-ok (lift (require_some ref.id assertion_error) d1) _ k1 in
    let (n, d3, h3, k3) =
      bind-eq-ok (insert_decision_request (new_request now stage_id gate_kind id) d2) _ k2 in
    subst (IsWaiting stage_id) (ap (λ (x : Unit × Db). x.1) (ok-injective k3))
      (insert-IsWaiting now stage_id gate_kind id d2 h3)

-- Stamping a row as published changes no request.
requests_of : List (ℕ × DecisionRow) → List DecisionRequest
requests_of = map (λ (row : ℕ × DecisionRow). row.1.request)

requests-update :
    (n : ℕ) (at : Time) (rows : List (ℕ × DecisionRow))
    → requests_of (Table.update_rows n (λ _. true) (publish_row at) rows) ≡ requests_of rows
unfolding requests_of
requests-update n at [] = refl
requests-update n at ((j, r) ∷ rows) = elim (Bool-cases (j == n)) [
  | inl hit ↦ rw hit (ap (λ xs. r.request ∷ xs) (requests-update n at rows))
  | inr miss ↦ rw miss (ap (λ xs. r.request ∷ xs) (requests-update n at rows))
]

reverse_aux-requests :
    (rows : List (ℕ × DecisionRow)) (acc : List DecisionRow)
    → map (λ r. r.request) (reverse_aux (map (λ (row : ℕ × DecisionRow). row.1) rows) acc)
      ≡ reverse_aux (requests_of rows) (map (λ r. r.request) acc)
unfolding requests_of
reverse_aux-requests [] acc = refl
reverse_aux-requests ((j, r) ∷ rows) acc = reverse_aux-requests rows (r ∷ acc)

find-requests :
    (stage_id : String) (rows : List DecisionRow)
    → request_of (find (asks_for "stage" stage_id) rows)
      ≡ find (asks stage_id) (map (λ r. r.request) rows)
find-requests stage_id [] = refl
find-requests stage_id (r ∷ rows) = ground (arith, find-requests stage_id rows)

latest-requests :
    (stage_id : String) (d : Db)
    → latest_decision "stage" stage_id d
      ≡ find (asks stage_id) (reverse_aux (requests_of d.decisions.rows) [])
unfolding latest_decision
latest-requests stage_id d =
    find-requests stage_id (reverse (rows_of d))
    ∙ ap (find (asks stage_id)) (reverse_aux-requests d.decisions.rows [])

stamped-latest :
    (stage_id : String) (n : ℕ) (at : Time) (d : Db) {d' : Db}
    → mark_decision_published n at d ≡ ok (tt, d')
    → latest_decision "stage" stage_id d ≡ latest_decision "stage" stage_id d'
unfolding mark_decision_published Table.update
stamped-latest stage_id n at d h =
    let (hit, h') =
      check-eq-ok (Table.rowcount n (λ _. true) d.decisions == 1) factory_error _ d h in
    subst (λ x. latest_decision "stage" stage_id d ≡ latest_decision "stage" stage_id x)
      (ap (λ (x : Unit × Db). x.1) (ok-injective h'))
      (latest-requests stage_id d
        ∙ ap (λ xs. find (asks stage_id) (reverse_aux xs []))
            (sym (requests-update n at d.decisions.rows))
        ∙ sym (latest-requests stage_id _))

-- What a transaction keeps, whether it commits or not.
pub transact-keeps :
    {A : Type 0} (P : Db → Type 0) (m : Tx A) (db : Database)
    → ((a : A) (d' : Db) → m db.tables ≡ ok (a, d') → P d')
    → P db.tables
    → P (transaction m db).1.tables
transact-keeps P m db keeps p = elim (result-cases (transaction m db).0) [
  | inl (a, returned) ↦
      let (d', ran, left) = transaction-ok m db returned in
      subst (λ (x : Database). P x.tables) (sym left) (keeps a d' ran)
  | inr (e, raised) ↦ subst (λ (x : Database). P x.tables) (sym (transaction-err m db raised)) p
]

logged-IsWaiting :
    (now : Time) (stage_id : String) (e : NewEvent) (d : Db) {d' : Db}
    → log_event now e d ≡ ok (tt, d')
    → IsWaiting stage_id d
    → IsWaiting stage_id d'
unfolding latest_decision
logged-IsWaiting now stage_id e d h w =
    let (n, d1, h1, k1) = bind-eq-ok (insert_event now e d) _ h in
    subst (IsWaiting stage_id)
      ((insert_event-ok now e d h1).1 ∙ ap (λ (x : Unit × Db). x.1) (ok-injective k1)) w

pub published-IsWaiting :
    (now : Time) (stage_id : String) (n : ℕ) (sent : Delivery) (db : Database)
    → IsWaiting stage_id db.tables
    → IsWaiting stage_id (publish_decision now (some n) sent db).1.tables
unfolding publish_decision published
published-IsWaiting now stage_id n sent db w = at sent.outcome sent.error
  where
    at :
        (outcome : Result Unit) (error : String)
        → IsWaiting stage_id
            (publish_decision now
              (some n)
              (record { outcome = outcome; error = error })
              db).1.tables
    at (ok _) error =
        transact-keeps (IsWaiting stage_id) (mark_decision_published n now) db
          (λ a d' ran. (w.0, sym (stamped-latest stage_id n now db.tables ran) ∙ w.1, w.2)) w
    at (err notify_error) error =
        transact-keeps (IsWaiting stage_id) (log_event now _) db
          (λ a d' ran. logged-IsWaiting now stage_id _ db.tables ran w) w
    at (err e) error = w
