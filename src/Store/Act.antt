-- ===== src/Store/Act.antt =====
-- A Python coroutine over the connection: it runs transactions and reads one after the other, and what
-- was committed before an exception stays committed.
pub mod Laws
use sf_f.Base.{Bool, true, false, Option}
use sf_f.Base.Raises.{Error, Result, ok, err, require, require_some}
use sf_f.Store.Db.{Db}
use sf_f.Store.Tx.{Tx}
use sf_f.Store.Database.{Database, read, transaction}

abbrev pub Act : Type 0 → Type 0
Act A = Database → Result A × Database

abbrev pub proceed : {A B : Type 0} → Result A × Database → (A → Act B) → Result B × Database
proceed (ok a, db) f = f a db
proceed (err e, db) f = (err e, db)

infixl 5 ◌>>=◌ ◌>>◌
abbrev pub ◌>>=◌ : {A B : Type 0} → Act A → (A → Act B) → Act B
◌>>=◌ m f db = proceed (m db) f

abbrev pub ◌>>◌ : {B : Type 0} → Act (Unit {0}) → Act B → Act B
m >> k = m >>= λ _. k

abbrev pub pure : {A : Type 0} → A → Act A
pure a db = (ok a, db)

-- The outcome of a call that does not touch the connection: git, a file, an agent.
abbrev pub outside : {A : Type 0} → Result A → Act A
outside r db = (r, db)

abbrev pub demand : {A : Type 0} → Option A → Error → Act A
demand o e = outside (require_some o e)

abbrev pub check : Bool → Error → Act (Unit {0})
check b e = outside (require b e)

abbrev pub queried : {A : Type 0} → Result Db → (Db → A) → Result A
queried (ok d) f = ok (f d)
queried (err e) f = err e

-- A query on `self._db.read()`.
abbrev pub reads : {A : Type 0} → (Db → A) → Act A
reads f db = (queried (read db) f, db)

-- `with self._db.transaction() as conn`
abbrev pub transact : {A : Type 0} → Tx A → Act A
transact body db = transaction body db

-- A variable that a coupled write has set, which is known from what it wrote.
abbrev pub recall : {A : Type 0} → (Db → A) → Act A
recall f db = (ok (f db.tables), db)
