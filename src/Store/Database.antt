-- ===== src/Store/Database.antt =====
-- The connection of src/sf_factory/db.py: `Database.open`'s outcome, `read` and `transaction`. That
-- SQLite itself may refuse BEGIN or COMMIT (a lock, a full disk) is not modelled.
pub mod Atomic
pub mod Connection
use sf_f.Base.{Bool, true, false}
use sf_f.Base.Raises.{Result, ok, err, factory_error}
use sf_f.Store.Db.{Db}
use sf_f.Store.Tx.{Tx}

pub record Database : Type 0 where
  pub is_open : Bool  -- `_conn is not None`
  pub read_only : Bool
  pub in_tx : Bool
  pub tables : Db  -- what is committed

-- `_require_open`, which is all that `read` does.
unfoldable pub read : Database → Result Db
read db = elim db.is_open [ true ↦ ok db.tables | false ↦ err factory_error ]

-- The end of the `with` block: commit, or rollback on an exception; `finally` clears the flag.
abbrev finish {ℓ} : {A : Type ℓ} → Database → Result (A × Db) → Result A × Database
finish db (ok (a, d)) = (ok a, record db { in_tx = false; tables = d })
finish db (err e) = (err e, record db { in_tx = false })

-- `with self.transaction() as conn: body`
unfoldable pub transaction {ℓ} : {A : Type ℓ} → Tx A → Database → Result A × Database
transaction body db = elim db.is_open [
  | false ↦ (err factory_error, db)
  | true ↦ elim db.read_only [
    | true ↦ (err factory_error, db)
    | false ↦ elim db.in_tx [
      | true ↦ (err factory_error, db)
      | false ↦ finish (record db { in_tx = true }) (body db.tables)
    ]
  ]
]
