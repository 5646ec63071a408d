-- ===== src/Store/Database/Connection/Implements.antt =====
-- The transaction on a connection does what the one on tables says.
use mathlib.Core.Path.{subst}
use sf_f.Base.{
  ◌≡◌, refl, sym, ap, ◌∙◌, Bool, true, false, ◌||◌, Option, none, some, Bool-cases, inl, inr,
}
use sf_f.Base.Raises.{Result, ok, err}
use sf_f.Store.Db.{Db}
use sf_f.Store.Tx.{Tx}
use sf_f.Store.Database.{Database, transaction, finish}
use sf_f.Store.Database.Connection.{Sqlite, IsLawful, Session, Block, ended, run_transaction}

module _ (S : Sqlite) where
  -- The tables of `db` are what the connection has committed, and the flag of `db` is set when either of
  -- the two signs of a running transaction is.
  abbrev Open : Option S.Connection → Bool → Database → Type 0
  Open none in_tx db = db.is_open ≡ false
  Open (some c) in_tx db =
      (db.is_open ≡ true) × (db.in_tx ≡ (in_tx || S.in_transaction c)) × (db.tables ≡ S.committed c)

  abbrev pub Represents : Session S → Database → Type 0
  Represents s db = (db.read_only ≡ s.read_only) × Open s.connection s.in_tx db

  abbrev Kept : S.Connection → S.Connection → Type 0
  Kept c c' = (S.in_transaction c' ≡ true) × (S.committed c' ≡ S.committed c)

  -- A block and a body on tables with the same result. What the block has written before it raises is
  -- not restricted; neither commits.
  abbrev pub Agree :
      {A : Type 0} → S.Connection → Result A × S.Connection → Result (A × Db) → Type 0
  Agree c (ok a, c') (ok (b, d)) = (a ≡ b) × (S.current c' ≡ d) × Kept c c'
  Agree c (err e, c') (err x) = (e ≡ x) × Kept c c'
  Agree c _ _ = ⊥

  abbrev pub Writes : {A : Type 0} → Block S A → Tx A → Type 0
  Writes block body =
      (c : S.Connection) → S.in_transaction c ≡ true → Agree c (block c) (body (S.current c))

  abbrev pub Same : {A : Type 0} → Result A × Session S → Result A × Database → Type 0
  Same x y = (x.0 ≡ y.0) × Represents x.1 y.1

  abbrev session : Option S.Connection → Bool → Bool → Session S
  session c r t = record { connection = c; read_only = r; in_tx = t }

  abbrev database : Bool → Bool → Bool → Db → Database
  database o r t d = record { is_open = o; read_only = r; in_tx = t; tables = d }

  module _ (lawful : IsLawful S) where
    ended-Same :
        {A : Type 0} (s : Session S) (db : Database) (c : S.Connection)
        (x : Result A × S.Connection) (y : Result (A × Db))
        → db.is_open ≡ true
        → db.read_only ≡ s.read_only
        → db.tables ≡ S.committed c
        → Agree c x y
        → Same (ended S s x) (finish db y)
    ended-Same s db c (ok a, c') (ok (b, d)) o r t (same, wrote, (busy, kept)) = (
      ap ok same,
      (
        r,
        (o, sym (lawful.in_transaction-commit c'), sym (lawful.committed-commit c' busy ∙ wrote)),
      ),
    )
    ended-Same s db c (err e, c') (err x) o r t (same, (busy, kept)) = (
      ap err same,
      (
        r,
        (o, sym (lawful.in_transaction-rollback c'), t ∙ sym (lawful.committed-rollback c' ∙ kept)),
      ),
    )
    ended-Same s db c (ok a, c') (err x) o r t h = absurd h
    ended-Same s db c (err e, c') (ok y) o r t h = absurd h

    module _ {A : Type 0} (block : Block S A) (body : Tx A) (writes : Writes block body) where
      begun :
          (c : S.Connection) (d : Db)
          → S.in_transaction c ≡ false
          → d ≡ S.committed c
          → Agree (S.begin_immediate c) (block (S.begin_immediate c)) (body d)
      begun c d idle same =
          subst (λ x. Agree (S.begin_immediate c) (block (S.begin_immediate c)) (body x))
            (lawful.current-begin c idle ∙ sym same)
            (writes (S.begin_immediate c) (lawful.in_transaction-begin c))

      run-Same :
          (c : Option S.Connection) (read_only in_tx o r t : Bool) (d : Db)
          → Represents (session c read_only in_tx) (database o r t d)
          → Same
              (run_transaction S block (session c read_only in_tx))
              (transaction body (database o r t d))
      unfolding run_transaction transaction
      run-Same none read_only in_tx false r t d h = (refl, h)
      run-Same none read_only in_tx true r t d (same, shut) = cc
      run-Same (some c) read_only in_tx false r t d (same, (opened, busy, stored)) = cc
      run-Same (some c) true in_tx true true t d h = (refl, h)
      run-Same (some c) true in_tx true false t d (same, rest) = cc
      run-Same (some c) false in_tx true true t d (same, rest) = cc
      run-Same (some c) false true true false true d h = (refl, h)
      run-Same (some c) false true true false false d (same, (opened, busy, stored)) = cc
      run-Same (some c) false false true false t d (same, (opened, busy, stored)) =
          elim (Bool-cases (S.in_transaction c)) [
            | inl inside ↦
                let flag : t ≡ true = busy ∙ inside in
                rw (inside, flag) (refl, (refl, (refl, busy, stored)))
            | inr idle ↦
                let flag : t ≡ false = busy ∙ idle in
                rw (idle, flag)
                  (ended-Same (session (some c) false false) (database true false true d)
                    (S.begin_immediate c) (block (S.begin_immediate c)) (body d) refl refl
                    (stored ∙ sym (lawful.committed-begin c)) (begun c d idle stored))
          ]

      -- On a connection that keeps the documented laws of BEGIN, COMMIT and ROLLBACK, and for a block
      -- that returns with what the body makes of the tables or raises as the body does, and does not
      -- end the transaction itself: `transaction` has the result of the transaction on tables, and
      -- leaves the connection in the state that this leaves the tables in. A block that returned has
      -- committed what it wrote; of one that raised, whatever it wrote, nothing is left; and neither
      -- leaves a transaction open. A connection that is closed, read-only or already in a
      -- transaction refuses both.
      pub run_transaction-Same :
          (s : Session S) (db : Database)
          → Represents s db
          → Same (run_transaction S block s) (transaction body db)
      run_transaction-Same s db h =
          run-Same s.connection s.read_only s.in_tx db.is_open db.read_only db.in_tx db.tables h
