-- ===== src/Store/Artifacts.antt =====
-- The artifact references of src/sf_factory/db.py, and the foreign keys onto them.
use sf_f.Base.{
  ℕ, String, Bool, true, ◌&&◌, Option, none, some, ◌==◌, string_eq, nat_eq, any, find, contains, [],
  ◌∷◌, is_none,
}
use sf_f.Base.Raises.{sqlite_integrity_error}
use mathlib.Core.List.{reverse}
use sf_f.Models.Records.{ArtifactRef}
use sf_f.Store.Table
use sf_f.Store.Db.{Db}
use sf_f.Store.Tx.{Tx, ◌>>=◌, ◌>>◌, pure, gets, put, check}

-- REFERENCES artifact_refs(id): a NULL passes.
abbrev pub refers : Option ℕ → Db → Bool
refers none d = true
refers (some i) d = any (λ (entry : ℕ × ArtifactRef). entry.0 == i) d.artifacts.rows

-- UNIQUE (repo, path, sha256)
abbrev pub same_artifact : String → String → String → ArtifactRef → Bool
same_artifact repo path sha256 a = a.repo == repo && (a.path == path && a.sha256 == sha256)

unfoldable pub find_artifact_ref : String → String → String → Db → Option ArtifactRef
find_artifact_ref repo path sha256 d =
    find (same_artifact repo path sha256) (Table.values d.artifacts)

-- ORDER BY id DESC LIMIT 1
unfoldable pub latest_artifact : String → String → String → Db → Option ArtifactRef
latest_artifact unit_level unit_id kind d =
    find (λ a. a.unit_level == unit_level && (a.unit_id == unit_id && a.kind == kind))
      (reverse (Table.values d.artifacts))

-- The constraints are the CHECK on `repo` and the UNIQUE key.
unfoldable pub insert_artifact_ref : ArtifactRef → Tx ℕ
unfolding find_artifact_ref Table.insert
insert_artifact_ref ref = do
  present ← gets (find_artifact_ref ref.repo ref.path ref.sha256)
  check (contains ref.repo ("factory" ∷ "workspace" ∷ []) && is_none present) sqlite_integrity_error
  id ← gets (λ d. Table.next_id d.artifacts)
  put (λ d. record d { artifacts = Table.insert (λ n. record ref { id = some n }) d.artifacts })
  pure id
