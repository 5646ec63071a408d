-- ===== src/Plans/Contracts.antt =====
-- `_assert_contract_reachable` of src/sf_factory/artifacts.py: in a plan with contract stages, every
-- other stage comes after one of them. The loop runs on fuel.
pub mod Pushed
pub mod Explored
pub mod Guarded
use mathlib.Core.List.{reverse}
use sf_f.Base.{
  ℕ, zero, suc, ◌+◌, String, Bool, true, false, not, ◌&&◌, Option, none, some, List, [], ◌∷◌, ◌==◌,
  string_eq, option_eq, filter, map, all, any, contains, count, length, if◌then◌else◌,
}
use sf_f.Base.Raises.{Result, ok, err, key_error, artifact_contract_error}
use sf_f.Plans.{PhasePlanStage, PhasePlan}

abbrev pub Edges : Type 0
Edges = List (String × String)

abbrev pub is_contract : PhasePlanStage → Bool
is_contract s = s.role == some "contract"

abbrev pub id_of : PhasePlanStage → String
id_of s = s.id

abbrev pub contracts_of : PhasePlan → List String
contracts_of plan = map id_of (filter is_contract plan.stages)

-- `adjacency[node]`
abbrev pub adjacency : Edges → String → List String
adjacency edges node =
    map (λ (e : String × String). e.1) (filter (λ (e : String × String). e.0 == node) edges)

-- The inner loop. `reachable` is a set, written out; `frontier` a stack, its top first.
unfoldable pub push : List String → List String → List String → List String × List String
push [] reachable frontier = (reachable, frontier)
push (nxt ∷ nexts) reachable frontier =
    let rest = push nexts reachable frontier in
    let pushed = push nexts (nxt ∷ reachable) (nxt ∷ frontier) in
    if contains nxt reachable then rest else pushed

-- `while frontier`; a node that is no stage raises KeyError. `none`: the fuel ran out.
unfoldable pub explore :
    ℕ → Edges → List String → List String → List String → Option (Result (List String))
explore zero edges ids frontier reachable = none
explore (suc fuel) edges ids [] reachable = some (ok reachable)
explore (suc fuel) edges ids (node ∷ frontier) reachable =
    let next = push (adjacency edges node) reachable frontier in
    let rest = explore fuel edges ids next.1 next.0 in
    if contains node ids then rest else some (err key_error)

-- The edges whose target is not yet reachable.
abbrev pub missing : Edges → List String → ℕ
missing edges reachable = count (λ (e : String × String). not (contains e.1 reachable)) edges

abbrev pub is_guarded : List String → PhasePlanStage → Bool
is_guarded reachable s = if is_contract s then true else contains s.id reachable

-- `orphans` is empty, or the plan is refused.
abbrev pub judge : List PhasePlanStage → Result (List String) → Result (Unit {0})
judge stages (err e) = err e
judge stages (ok reachable) =
    if all (is_guarded reachable) stages then ok tt else err artifact_contract_error

abbrev pub judged : List PhasePlanStage → Option (Result (List String)) → Option (Result (Unit {0}))
judged stages none = none
judged stages (some r) = some (judge stages r)

abbrev pub ids_of : PhasePlan → List String
ids_of plan = map id_of plan.stages

-- As many rounds as there are contracts and edges, and one more.
abbrev pub fuel_of : PhasePlan → ℕ
fuel_of plan = suc (length (reverse (contracts_of plan)) + missing plan.dag_edges [])

abbrev pub starts_known : PhasePlan → Bool
starts_known plan = all (λ (e : String × String). contains e.0 (ids_of plan)) plan.dag_edges

abbrev pub explored : PhasePlan → Option (Result (List String))
explored plan = explore (fuel_of plan) plan.dag_edges (ids_of plan) (reverse (contracts_of plan)) []

abbrev pub is_empty : List String → Bool
is_empty [] = true
is_empty (x ∷ xs) = false

unfoldable pub assert_contract_reachable : PhasePlan → Option (Result (Unit {0}))
assert_contract_reachable plan =
    if is_empty (contracts_of plan)
    then some (ok tt)
    else if starts_known plan
    then judged plan.stages (explored plan)
    else some (err key_error)
