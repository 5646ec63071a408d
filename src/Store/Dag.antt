-- ===== src/Store/Dag.antt =====
-- The DAG of src/sf_factory/db.py.
pub mod Laws
use sf_f.Base.{
  true, false, String, Bool, ◌&&◌, not, Option, none, some, List, [], ◌∷◌, ◌++◌, ◌==◌, string_eq,
  any, all,
}
use sf_f.Base.Raises.{sqlite_integrity_error}
use sf_f.Models.Level.{Level, stage, phase, level_eq}
use sf_f.Models.UnitState
use sf_f.Models.UnitState.{UnitState}
use sf_f.Store.Db.{Db, Edge}
use sf_f.Store.Tx.{Tx, ◌>>=◌, ◌>>◌, gets, put, check}
use sf_f.Store.Units.{unit_state}

-- PRIMARY KEY (level, from_id, to_id)
abbrev same_edge : Edge → Edge → Bool
same_edge a b = a.level == b.level && (a.from_id == b.from_id && a.to_id == b.to_id)

unfoldable pub insert_dag_edge : Level → String → String → Tx (Unit {0})
insert_dag_edge level from_id to_id = do
  known ← gets (λ d.
      any (same_edge (record { level = level; from_id = from_id; to_id = to_id })) d.dag_edges)
  check (not known) sqlite_integrity_error
  put (λ d. record d {
    dag_edges = d.dag_edges ++ record { level = level; from_id = from_id; to_id = to_id } ∷ [];
  })

-- The LEFT JOIN: a prerequisite with no unit row has a NULL state.
abbrev pub is_done : Option UnitState → Bool
is_done none = false
is_done (some u) = UnitState.value u == "DONE"

-- An edge that stands in the subquery: a prerequisite of the unit that is not DONE.
abbrev holds_back : Level → String → Db → Edge → Bool
holds_back level unit_id d e =
    e.level == level && (e.to_id == unit_id && not (is_done (unit_state level e.from_id d)))

unfoldable pub deps_done : Level → String → Db → Bool
deps_done level unit_id d = not (any (holds_back level unit_id d) d.dag_edges)
