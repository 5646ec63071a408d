-- ===== src/Store/Database/Connection.antt =====
-- `Database.transaction` of src/sf_factory/db.py on a connection of sqlite3: what a body has written is
-- there until COMMIT or ROLLBACK. The connection is known by its interface alone.
pub mod Implements
use sf_f.Base.{◌≡◌, Bool, true, false, ◌||◌, Option, none, some, if◌then◌else◌}
use sf_f.Base.Raises.{Result, ok, err, factory_error}
use sf_f.Store.Db.{Db}

-- `sqlite3.Connection` with isolation_level None: what it has committed, what its own queries see, and
-- the statements that `transaction` executes.
pub record Sqlite : Type 1 where
  pub Connection : Type 0
  pub in_transaction : Connection → Bool
  pub committed : Connection → Db
  pub current : Connection → Db
  pub begin_immediate : Connection → Connection
  pub commit : Connection → Connection
  pub rollback : Connection → Connection

-- The documented effect of the three statements.
pub record IsLawful (S : Sqlite) : Type 0 where
  pub in_transaction-begin : (c : S.Connection) → S.in_transaction (S.begin_immediate c) ≡ true
  pub committed-begin : (c : S.Connection) → S.committed (S.begin_immediate c) ≡ S.committed c
  pub current-begin :
      (c : S.Connection)
      → S.in_transaction c ≡ false
      → S.current (S.begin_immediate c) ≡ S.committed c
  pub in_transaction-commit : (c : S.Connection) → S.in_transaction (S.commit c) ≡ false
  pub committed-commit :
      (c : S.Connection) → S.in_transaction c ≡ true → S.committed (S.commit c) ≡ S.current c
  pub in_transaction-rollback : (c : S.Connection) → S.in_transaction (S.rollback c) ≡ false
  pub committed-rollback : (c : S.Connection) → S.committed (S.rollback c) ≡ S.committed c

module _ (S : Sqlite) where
  -- The fields of `Database` that `transaction` reads and sets.
  pub record Session : Type 0 where
    pub connection : Option S.Connection
    pub read_only : Bool
    pub in_tx : Bool

  -- The `with` block: it may write before it raises.
  abbrev pub Block : Type 0 → Type 0
  Block A = S.Connection → Result A × S.Connection

  -- The end of the block: commit, or rollback and raise again; `finally` clears the flag.
  abbrev pub ended : {A : Type 0} → Session → Result A × S.Connection → Result A × Session
  ended s (ok a, c) = (ok a, record s { connection = some (S.commit c); in_tx = false })
  ended s (err e, c) = (err e, record s { connection = some (S.rollback c); in_tx = false })

  abbrev pub guarded : {A : Type 0} → Block A → S.Connection → Session → Result A × Session
  guarded block c s =
      if s.read_only
      then (err factory_error, s)
      else if s.in_tx || S.in_transaction c
      then (err factory_error, s)
      else ended s (block (S.begin_immediate c))

  unfoldable pub run_transaction : {A : Type 0} → Block A → Session → Result A × Session
  run_transaction block s = elim s.connection [
    | none ↦ (err factory_error, s)
    | some c ↦ guarded block c s
  ]
