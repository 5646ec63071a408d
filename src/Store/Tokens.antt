-- ===== src/Store/Tokens.antt =====
-- The token ledger of src/sf_factory/db.py.
pub mod Laws
use sf_f.Base.Integers.{pos, is_zero}
use sf_f.Base.{
  ℕ, ◌+◌, String, Bool, true, false, not, ◌&&◌, ◌||◌, Option, none, some, List, [], ◌∷◌, ◌==◌,
  string_eq, nat_eq, contains, filter, if◌then◌else◌, get_or, is_none,
}
use sf_f.Base.Raises.{sqlite_integrity_error}
use sf_f.Models.Records.{Time, ProcessRecord}
use sf_f.Store.Table
use sf_f.Store.Db.{Db, LedgerRow}
use sf_f.Store.Tx.{Tx, ◌>>=◌, ◌>>◌, gets, put, check}

-- REFERENCES process_registry(id)
unfoldable pub insert_token_usage : LedgerRow → Tx (Unit {0})
unfolding Table.insert Table.get
insert_token_usage row = do
  run ← gets (λ d. Table.get row.process_id d.processes)
  check (not (is_none run)) sqlite_integrity_error
  put (λ d. record d { ledger = Table.insert (λ _. row) d.ledger })

-- COALESCE(SUM(column), 0): a NULL adds nothing.
abbrev pub sum_of : (LedgerRow → Option ℕ) → List LedgerRow → ℕ
sum_of column [] = 0
sum_of column (r ∷ rows) = get_or (column r) 0 + sum_of column rows

-- COALESCE(SUM(tokens_in), 0) + COALESCE(SUM(tokens_out), 0)
abbrev pub token_sum : List LedgerRow → ℕ
token_sum rows = sum_of (λ r. r.tokens_in) rows + sum_of (λ r. r.tokens_out) rows

abbrev pub of_unit : String → String → LedgerRow → Bool
of_unit unit_level unit_id r = r.unit_level == unit_level && r.unit_id == unit_id

unfoldable pub unit_token_total : String → String → Db → ℕ
unit_token_total unit_level unit_id d =
    token_sum (filter (of_unit unit_level unit_id) (Table.values d.ledger))

-- _FAILED_RUN_SQL: the run failed and delivered nothing.
abbrev pub failed_run : ProcessRecord → Bool
failed_run pr =
    contains pr.state ("timed_out" ∷ "killed" ∷ "orphaned" ∷ [])
    || (pr.state == "exited" && not (is_zero (get_or pr.exit_code (pos 0))))

-- The row's run, by the inner join, did not fail: a row with no run is no row of the join.
abbrev pub delivered : Db → LedgerRow → Bool
delivered d r = elim (Table.get r.process_id d.processes) [
  | none ↦ false
  | some pr ↦ not (failed_run pr)
]

-- `role <> exclude_role`, where one is given.
abbrev pub counted_role : Option String → LedgerRow → Bool
counted_role none r = true
counted_role (some role) r = not (r.role == role)

unfoldable pub effective_token_sum : String → String → Option String → Db → ℕ
unfolding Table.get
effective_token_sum unit_level unit_id exclude_role d = token_sum (
    filter (λ r. of_unit unit_level unit_id r && (counted_role exclude_role r && delivered d r))
      (Table.values d.ledger))
