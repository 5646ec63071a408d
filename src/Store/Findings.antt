-- ===== src/Store/Findings.antt =====
-- The audit findings of src/sf_factory/db.py.
use mathlib.Core.List.{reverse}
use sf_f.Base.{
  ℕ, String, Bool, true, ◌&&◌, Option, none, some, List, [], ◌∷◌, ◌==◌, string_eq, nat_eq, find,
  filter, contains,
}
use sf_f.Base.Raises.{factory_error, sqlite_integrity_error}
use sf_f.Models.Records.{Time, Finding}
use sf_f.Store.Table
use sf_f.Store.Db.{Db}
use sf_f.Store.Tx.{Tx, ◌>>=◌, ◌>>◌, pure, gets, put, check}
use sf_f.Store.Artifacts.{refers}
use sf_f.Store.Counters.{known_stage}

-- The CHECK on `status`, with the disposition that 0002 added.
abbrev pub finding_statuses : List String
finding_statuses =
    "open" ∷ "complied" ∷ "contested" ∷ "sustained" ∷ "overruled" ∷ "duplicate" ∷ "settled" ∷ []

unfoldable pub insert_finding : Finding → Tx ℕ
unfolding Table.insert
insert_finding f = do
  stage_known ← gets (known_stage f.stage_id)
  report_known ← gets (refers (some f.report_artifact_id))
  contest_known ← gets (refers f.contest_artifact_id)
  check (contains f.status finding_statuses && (stage_known && (report_known && contest_known)))
      sqlite_integrity_error
  id ← gets (λ d. Table.next_id d.findings)
  put (λ d. record d { findings = Table.insert (λ n. record f { id = some n }) d.findings })
  pure id

-- A column that is written only when a value is given.
abbrev given : {A : Type 0} → Option A → Option A → Option A
given none old = old
given (some a) old = some a

abbrev pub restate : Time → String → Option String → Option ℕ → Finding → Finding
restate now status resolved_by contest_artifact_id f = record f {
  status = status;
  updated_at = now;
  resolved_by = given resolved_by f.resolved_by;
  contest_artifact_id = given contest_artifact_id f.contest_artifact_id;
}

unfoldable pub set_finding_status : Time → ℕ → String → Option String → Option ℕ → Tx (Unit {0})
unfolding Table.update Table.rowcount
set_finding_status now finding_id status resolved_by contest_artifact_id = do
  updated ← gets (λ d. Table.rowcount finding_id (λ _. true) d.findings)
  check (updated == 1) factory_error
  contest_known ← gets (refers contest_artifact_id)
  check (contains status finding_statuses && contest_known) sqlite_integrity_error
  put (λ d. record d {
    findings =
        Table.update finding_id (λ _. true) (restate now status resolved_by contest_artifact_id)
          d.findings;
  })

abbrev among : List String → String → Bool
among [] s = true
among (x ∷ xs) s = contains s (x ∷ xs)

unfoldable pub findings : String → List String → Db → List Finding
findings stage_id statuses d =
    filter (λ f. f.stage_id == stage_id && among statuses f.status) (Table.values d.findings)

abbrev is_disposed : String → String → String → Finding → Bool
is_disposed stage_id finding_ref auditor_role f =
    f.stage_id == stage_id
    && (f.finding_ref == finding_ref
        && (f.auditor_role == auditor_role && contains f.status ("settled" ∷ "overruled" ∷ [])))

-- ORDER BY id DESC LIMIT 1
unfoldable pub prior_disposed_finding : String → String → String → Db → Option String
prior_disposed_finding stage_id finding_ref auditor_role d =
    elim (find (is_disposed stage_id finding_ref auditor_role)
      (reverse (Table.values d.findings))) [ none ↦ none | some f ↦ some f.status ]
