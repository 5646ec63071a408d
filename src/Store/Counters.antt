-- ===== src/Store/Counters.antt =====
-- The fix-loop and churn counters of src/sf_factory/db.py.
pub mod Laws
use sf_f.Base.{
  ℕ, zero, suc, ◌+◌, String, Bool, not, ◌&&◌, Option, none, some, List, [], ◌∷◌, ◌++◌, ◌==◌,
  string_eq, nat_eq, any, find, max, update_where, if◌then◌else◌,
}
use sf_f.Base.Raises.{sqlite_integrity_error}
use sf_f.Models.Records.{Time, Stage}
use sf_f.Store.Db.{Db, FixIteration, Churn}
use sf_f.Store.Tx.{Tx, ◌>>=◌, ◌>>◌, pure, gets, put, check}
use sf_f.Store.Artifacts.{refers}

-- REFERENCES stages(id)
abbrev pub known_stage : String → Db → Bool
known_stage stage_id d = any (λ (s : Stage). s.id == stage_id) d.stages

-- SELECT COALESCE(MAX(iteration), 0) … WHERE stage_id = ?
abbrev pub max_iteration : String → List FixIteration → ℕ
max_iteration stage_id [] = 0
max_iteration stage_id (r ∷ rows) =
    let rest = max_iteration stage_id rows in
    if r.stage_id == stage_id then max r.iteration rest else rest

unfoldable pub insert_fix_iteration : Time → String → ℕ → Option ℕ → Tx ℕ
insert_fix_iteration now stage_id failing_tests report_artifact_id = do
  last ← gets (λ d. max_iteration stage_id d.fix_iterations)
  stage_known ← gets (known_stage stage_id)
  report_known ← gets (refers report_artifact_id)
  check (stage_known && report_known) sqlite_integrity_error
  put (λ d. record d {
    fix_iterations =
        d.fix_iterations
        ++ record {
          stage_id = stage_id;
          iteration = last + 1;
          failing_tests = failing_tests;
          report_artifact_id = report_artifact_id;
          created_at = now;
        }
          ∷ [];
  })
  pure (last + 1)

-- The bucket (stage_id, file_path, region).
abbrev pub is_bucket : String → String → ℕ → Churn → Bool
is_bucket stage_id file_path region c =
    c.stage_id == stage_id && (c.file_path == file_path && c.region == region)

-- `edit_count` of the bucket, 0 where it has no row.
abbrev pub edits : String → String → ℕ → List Churn → ℕ
edits stage_id file_path region rows = elim (find (is_bucket stage_id file_path region) rows) [
  | none ↦ 0
  | some c ↦ c.edit_count
]

-- INSERT … ON CONFLICT DO UPDATE SET edit_count = edit_count + 1
abbrev pub upsert : Time → String → String → ℕ → List Churn → List Churn
upsert now stage_id file_path region rows = elim (find (is_bucket stage_id file_path region) rows) [
  | none ↦
      rows
      ++ record {
        stage_id = stage_id;
        file_path = file_path;
        region = region;
        edit_count = 1;
        updated_at = now;
      }
        ∷ []
  | some _ ↦
      update_where (is_bucket stage_id file_path region)
        (λ c. record c { edit_count = c.edit_count + 1; updated_at = now }) rows
]

-- The reference to the stage is checked for a row that is inserted; RETURNING edit_count.
unfoldable pub bump_churn : Time → String → String → ℕ → Tx ℕ
bump_churn now stage_id file_path region = do
  stage_known ← gets (known_stage stage_id)
  check stage_known sqlite_integrity_error
  put (λ d. record d { churn = upsert now stage_id file_path region d.churn })
  gets (λ d. edits stage_id file_path region d.churn)
