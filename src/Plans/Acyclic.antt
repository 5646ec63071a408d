-- ===== src/Plans/Acyclic.antt =====
-- `_assert_acyclic` and `_assert_macro_acyclic` of src/sf_factory/artifacts.py: Kahn's algorithm over the
-- stages of a phase's plan, and over the phases of a macro plan. The loop runs on fuel.
pub mod Counting
pub mod Keys
pub mod Rounds
pub mod Ordered
use Prim.Native.Nat.{Ordering}
use Prim.Native.String.{compare}
use sf_f.Base.{
  ℕ, zero, suc, ◌+◌, ◌-◌, String, Bool, true, false, not, ◌&&◌, Option, none, some, List, [], ◌∷◌,
  ◌==◌, string_eq, nat_eq, all, filter, map, contains, count, length, if◌then◌else◌,
}
use sf_f.Base.Raises.{Result, ok, err, artifact_contract_error, key_error}
use sf_f.Plans.{PhasePlan}
use sf_f.Plans.Contracts.{Edges, adjacency, ids_of}

-- A dict of degrees, as a function of the key.
abbrev pub InDegree : Type 0
InDegree = String → ℕ

abbrev pub increment : String → InDegree → InDegree
increment v degree u = if u == v then suc (degree u) else degree u

abbrev pub decrement : String → InDegree → InDegree
decrement v degree u = if u == v then degree u - 1 else degree u

-- The loop over the edges.
unfoldable pub indegrees : Edges → InDegree → InDegree
indegrees [] degree = degree
indegrees ((from_id, to_id) ∷ edges) degree = indegrees edges (increment to_id degree)

abbrev pub comes_after : String → String → Bool
comes_after x v = elim (compare x v) [ Ordering.gt ↦ true | _ ↦ false ]

-- `ready.append(v); ready.sort()`, for a list that is sorted.
unfoldable pub insert : String → List String → List String
insert v [] = v ∷ []
insert v (x ∷ xs) = let rest = insert v xs in if comes_after x v then v ∷ x ∷ xs else x ∷ rest

-- `sorted(uid for uid, deg in indegree.items() if deg == 0)`
unfoldable pub initially_ready : InDegree → List String → List String
initially_ready degree [] = []
initially_ready degree (u ∷ ids) =
    let rest = initially_ready degree ids in if degree u == 0 then insert u rest else rest

-- The inner loop over the dependents of a unit.
unfoldable pub relax : List String → InDegree → List String → InDegree × List String
relax [] degree ready = (degree, ready)
relax (v ∷ dependents) degree ready =
    let less = decrement v degree in
    let freed = relax dependents less (insert v ready) in
    let held = relax dependents less ready in if less v == 0 then freed else held

-- `while ready`: the number of units that were processed. `none`: the fuel ran out.
unfoldable pub kahn : ℕ → Edges → InDegree → List String → ℕ → Option ℕ
kahn zero edges degree ready processed = none
kahn (suc fuel) edges degree [] processed = some processed
kahn (suc fuel) edges degree (unit ∷ ready) processed =
    let next = relax (adjacency edges unit) degree ready in
    kahn fuel edges next.0 next.1 (processed + 1)

abbrev pub verdict : ℕ → Option ℕ → Option (Result (Unit {0}))
verdict n none = none
verdict n (some processed) = some (if processed == n then ok tt else err artifact_contract_error)

abbrev pub start_degree : Edges → InDegree
start_degree edges = indegrees edges (λ _. 0)

-- The graph of the units `ids`; one round per unit, and one more.
unfoldable pub toposort : List String → Edges → Option (Result (Unit {0}))
toposort ids edges = verdict (length ids) (
    kahn (suc (length ids)) edges (start_degree edges) (initially_ready (start_degree edges) ids) 0)

-- The keys of `{id: 0 for id in ids}`.
abbrev pub without : String → List String → List String
without x [] = []
without x (y ∷ ys) = let rest = without x ys in if y == x then rest else y ∷ rest

unfoldable pub keys_of : List String → List String
keys_of [] = []
keys_of (x ∷ ids) = x ∷ without x (keys_of ids)

-- `adjacency[from_id]` and `indegree[to_id]` raise KeyError at a unit that is no stage of the plan.
abbrev pub is_own : List String → String × String → Bool
is_own ids e = contains e.0 ids && contains e.1 ids

abbrev pub ends_known : List String → Edges → Bool
ends_known ids = all (is_own ids)

unfoldable pub assert_acyclic : PhasePlan → Option (Result (Unit {0}))
assert_acyclic plan =
    if ends_known (ids_of plan) plan.dag_edges
    then toposort (keys_of (ids_of plan)) plan.dag_edges
    else some (err key_error)

pub record MacroPhase : Type 0 where
  pub id : String
  pub name : String

pub record MacroPlan : Type 0 where
  pub project : String
  pub phases : List MacroPhase
  pub dag_edges : Edges

abbrev pub phase_ids : MacroPlan → List String
phase_ids plan = map (λ (p : MacroPhase). p.id) plan.phases

-- An edge with a foreign endpoint is passed over.
unfoldable pub assert_macro_acyclic : MacroPlan → Option (Result (Unit {0}))
assert_macro_acyclic plan =
    toposort (keys_of (phase_ids plan)) (filter (is_own (phase_ids plan)) plan.dag_edges)
