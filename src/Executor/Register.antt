-- ===== src/Executor/Register.antt =====
-- `register_artifact` of src/sf_factory/artifacts.py. The file is given by what the code finds out about
-- it: its path relative to the root of the repository, if it lies under it, and its digest.
use sf_f.Base.{String, Option, none, some}
use sf_f.Base.Raises.{Result, factory_error, require_some}
use sf_f.Models.Records.{Time, ArtifactRef}
use sf_f.Store.Tx.{Tx, ◌>>=◌, pure, gets, lift}
use sf_f.Store.Artifacts.{find_artifact_ref, insert_artifact_ref}

pub record FileFound : Type 0 where
  pub rel_posix : Option String
  pub digest : Result String

-- The row that is there, or a new one.
abbrev pub reuse : ArtifactRef → Option ArtifactRef → Tx ArtifactRef
reuse ref (some existing) = pure existing
reuse ref none = insert_artifact_ref ref >>= λ id. pure (record ref { id = some id })

abbrev pub new_ref :
    Time → (unit_level unit_id kind repo path digest : String) → Option String → ArtifactRef
new_ref now unit_level unit_id kind repo path digest git_commit = record {
  id = none;
  unit_level = unit_level;
  unit_id = unit_id;
  kind = kind;
  repo = repo;
  path = path;
  sha256 = digest;
  git_commit = git_commit;
  created_at = now;
}

unfoldable pub register_artifact :
    Time → (unit_level unit_id kind repo : String) → FileFound → Option String → Tx ArtifactRef
register_artifact now unit_level unit_id kind repo file git_commit = do
  path ← lift (require_some file.rel_posix factory_error)
  digest ← lift file.digest
  existing ← gets (find_artifact_ref repo path digest)
  reuse (new_ref now unit_level unit_id kind repo path digest git_commit) existing
