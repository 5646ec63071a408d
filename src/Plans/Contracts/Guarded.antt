-- ===== src/Plans/Contracts/Guarded.antt =====
-- Which plans the check on contracts accepts.
use mathlib.Core.List.{reverse, reverse_aux}
use mathlib.Core.Path.{subst}
use sf_f.Base.{
  String, ◌≡◌, ◌≢◌, refl, sym, ap, ◌∙◌, Bool, true, false, ◌&&◌, ◌||◌, ◌⊎◌, inl, inr, Option, some,
  List, [], ◌∷◌, ◌==◌, string_eq, option_eq, contains, all, All, Bool-cases, arith, map, filter,
}
use sf_f.Base.Raises.{Result, ok, err, artifact_contract_error}
use sf_f.Plans.{PhasePlan, PhasePlanStage}
use sf_f.Plans.Contracts.{
  Edges, is_contract, id_of, contracts_of, ids_of, explored, starts_known, is_guarded, judged,
  is_empty, fuel_of, assert_contract_reachable,
}
use sf_f.Plans.Contracts.Pushed.{In, In-head, In-tail, In-cases}
use sf_f.Plans.Contracts.Explored.{IsEdge, Reaches, Finds, explore-Finds}

-- The ends of the edges are stages of the plan, as `read_phase_plan` has checked.
abbrev pub EndsKnown : PhasePlan → Type 0
EndsKnown plan =
    (a b : String) → IsEdge plan.dag_edges a b → In a (ids_of plan) × In b (ids_of plan)

-- Every stage is a contract, or comes after one.
abbrev pub Guarded : PhasePlan → Type 0
Guarded plan =
    All
      (λ (s : PhasePlanStage).
        (is_contract s ≡ true) ⊎ Reaches plan.dag_edges (contracts_of plan) s.id)
      plan.stages

starts-known :
    (edges : Edges) (ids : List String)
    → ((a b : String) → IsEdge edges a b → In a ids)
    → all (λ (e : String × String). contains e.0 ids) edges ≡ true
starts-known [] ids known = refl
starts-known (e ∷ edges) ids known =
    let here = known e.0 e.1 (inl (refl, refl)) in
    let rest = starts-known edges ids (λ a b h. known a b (inr h)) in ground (arith, here, rest)

contains-reverse_aux :
    (x : String) (xs acc : List String)
    → contains x (reverse_aux xs acc) ≡ (contains x xs || contains x acc)
contains-reverse_aux x [] acc = refl
contains-reverse_aux x (y ∷ xs) acc =
    contains-reverse_aux x xs (y ∷ acc) ∙ swap (contains x xs) (x == y) (contains x acc)
  where
    swap : (a b c : Bool) → (a || (b || c)) ≡ ((b || a) || c)
    swap a b c = ground arith

contains-reverse : (x : String) (xs : List String) → contains x (reverse xs) ≡ contains x xs
contains-reverse x xs = contains-reverse_aux x xs [] ∙ last (contains x xs)
  where
    last : (a : Bool) → (a || false) ≡ a
    last a = ground arith

contract-In :
    (a : String) (stages : List PhasePlanStage)
    → In a (map id_of (filter is_contract stages))
    → In a (map id_of stages)
contract-In a [] h = h
contract-In a (s ∷ stages) h = elim (Bool-cases (is_contract s)) [
  | inl contract ↦
      let h' : In a (s.id ∷ map id_of (filter is_contract stages)) = rw contract at h in
      elim (In-cases a s.id _ h') [
        | inl same ↦ subst (λ x. In x (s.id ∷ map id_of stages)) (sym same) (In-head s.id _)
        | inr later ↦ In-tail a s.id _ (contract-In a stages later)
      ]
  | inr other ↦ In-tail a s.id _ (contract-In a stages (rw other at h))
]

module _ (edges : Edges) (cs reachable : List String)
    (sound : (b : String) → In b reachable → Reaches edges cs b)
    (complete : (b : String) → Reaches edges cs b → In b reachable) where
  abbrev IsBehind : PhasePlanStage → Type 0
  IsBehind s = (is_contract s ≡ true) ⊎ Reaches edges cs s.id

  guarded-IsBehind : (s : PhasePlanStage) → is_guarded reachable s ≡ true → IsBehind s
  guarded-IsBehind s h = elim (Bool-cases (is_contract s)) [
    | inl contract ↦ inl contract
    | inr other ↦ inr (sound s.id (rw other at h))
  ]

  IsBehind-guarded : (s : PhasePlanStage) → IsBehind s → is_guarded reachable s ≡ true
  IsBehind-guarded s (inl contract) = rw contract refl
  IsBehind-guarded s (inr r) = elim (Bool-cases (is_contract s)) [
    | inl contract ↦ rw contract refl
    | inr other ↦ rw other (complete s.id r)
  ]

  all-guarded :
      (stages : List PhasePlanStage)
      → (all (is_guarded reachable) stages ≡ true → All IsBehind stages)
        × (All IsBehind stages → all (is_guarded reachable) stages ≡ true)
  all-guarded [] = (λ _. tt, λ _. refl)
  all-guarded (s ∷ stages) =
      let (to, from) = all-guarded stages in
      (
        λ h.
            let (here, rest) =
              both (is_guarded reachable s) (all (is_guarded reachable) stages) h in
            (guarded-IsBehind s here, to rest),
        λ h. let here = IsBehind-guarded s h.0 in let rest = from h.1 in ground (arith, here, rest),
      )
    where
      both : (a b : Bool) → (a && b) ≡ true → (a ≡ true) × (b ≡ true)
      both a b h = ground arith

-- The answer of the check: accepted for a plan that is guarded, refused for one that is not.
abbrev pub Decides : PhasePlan → Option (Result (Unit {0})) → Type 0
Decides plan answer =
    ((answer ≡ some (ok tt)) × ((contracts_of plan ≡ []) ⊎ Guarded plan))
    ⊎ ((answer ≡ some (err artifact_contract_error)) × (contracts_of plan ≢ []) × (¬ Guarded plan))

empty-cases : (xs : List String) → (xs ≡ []) ⊎ ((is_empty xs ≡ false) × (xs ≢ []))
empty-cases [] = inl refl
empty-cases (x ∷ xs) = inr (refl, λ h. cc)

walked :
    (plan : PhasePlan) → EndsKnown plan → Finds plan.dag_edges (contracts_of plan) (explored plan)
walked plan known =
    let cs = contracts_of plan in
    explore-Finds plan.dag_edges (ids_of plan) cs (fuel_of plan) (reverse cs) []
      (λ a b e. (known a b e).1)
      (λ a h. contract-In a plan.stages (sym (contains-reverse a cs) ∙ h)) (omega arith)
      (λ b h. cc, λ b h. inl (sym (contains-reverse b cs) ∙ h))
      (λ a h. elim h [ inl contract ↦ inl (contains-reverse a cs ∙ contract) | inr none_yet ↦ cc ])

judged-Decides :
    (plan : PhasePlan)
    → contracts_of plan ≢ []
    → Finds plan.dag_edges (contracts_of plan) (explored plan)
    → Decides plan (judged plan.stages (explored plan))
judged-Decides plan some_contract (reachable, found, sound, complete) =
    let (to, from) =
      all-guarded plan.dag_edges (contracts_of plan) reachable sound complete plan.stages in
    subst (λ o. Decides plan (judged plan.stages o)) (sym found)
      (elim (Bool-cases (all (is_guarded reachable) plan.stages)) [
        | inl guarded ↦ rw guarded (inl (refl, inr (to guarded)))
        | inr orphans ↦
            rw orphans (inr (refl, some_contract, λ h. absurd (cc (sym orphans ∙ from h))))
      ])

-- The check on contracts ends within its fuel and decides what it is for. For a plan whose edges join
-- stages of the plan, it accepts exactly when the plan has no contract stage, or each of its stages
-- is a contract or comes after one by a path of edges; it refuses every other plan.
pub assert_contract_reachable-Decides :
    (plan : PhasePlan) → EndsKnown plan → Decides plan (assert_contract_reachable plan)
unfolding assert_contract_reachable
assert_contract_reachable-Decides plan known = elim (empty-cases (contracts_of plan)) [
  | inl none_there ↦
      let e : is_empty (contracts_of plan) ≡ true = ap is_empty none_there in
      inl (rw e refl, inl none_there)
  | inr (filled, some_contract) ↦
      let starts : starts_known plan ≡ true =
        starts-known plan.dag_edges (ids_of plan) (λ a b e. (known a b e).0) in
      rw (filled, starts) (judged-Decides plan some_contract (walked plan known))
]
