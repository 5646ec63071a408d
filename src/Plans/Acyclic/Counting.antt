-- ===== src/Plans/Acyclic/Counting.antt =====
-- Counts over the edges and over lists of units, in which the rounds of the algorithm are measured.
use mathlib.Core.Path.{subst}
use sf_f.Base.{
  ℕ, ◌+◌, String, ◌≡◌, refl, sym, Bool, false, not, ◌&&◌, List, [], ◌∷◌, ◌==◌, ==_iff, string_eq,
  nat_eq, contains, count, Bool-cases, inl, inr, arith, if◌then◌else◌,
}
use sf_f.Plans.Contracts.{Edges, adjacency}
use sf_f.Plans.Acyclic.{comes_after, InDegree, increment, indegrees, insert, initially_ready}

abbrev pub one_if : Bool → ℕ
one_if b = if b then 1 else 0

abbrev pub occurrences : String → List String → ℕ
occurrences u xs = count (λ x. x == u) xs

-- The edges into `u` from a unit that is not in `done`.
abbrev pub pending : Edges → List String → String → ℕ
pending edges done u = count (λ (e : String × String). e.1 == u && not (contains e.0 done)) edges

pub indegrees-pending :
    (edges : Edges) (degree : InDegree) (u : String)
    → indegrees edges degree u ≡ degree u + pending edges [] u
unfolding indegrees
indegrees-pending [] degree u = omega arith
indegrees-pending (e ∷ edges) degree u =
    ground (arith, ==_iff e.1 u, ==_iff u e.1, indegrees-pending edges (increment e.1 degree) u)

pub occurrences-insert :
    (u v : String) (xs : List String) → occurrences u (insert v xs) ≡ occurrences u (v ∷ xs)
unfolding insert
occurrences-insert u v [] = refl
occurrences-insert u v (x ∷ xs) = elim (Bool-cases (comes_after x v)) [
  | inl after ↦ rw after refl
  | inr before ↦ rw before (ground (arith, occurrences-insert u v xs))
]

pub occurrences-ready :
    (degree : InDegree) (u : String) (ids : List String)
    → occurrences u (initially_ready degree ids) ≡ (if degree u == 0 then occurrences u ids else 0)
unfolding initially_ready
occurrences-ready degree u [] = ground arith
occurrences-ready degree u (x ∷ ids) = ground (
  arith,
  ==_iff x u,
  occurrences-insert u x (initially_ready degree ids),
  occurrences-ready degree u ids,
)

-- A unit that is done with frees the edges from it.
pub pending-done :
    (edges : Edges) (done : List String) (node u : String)
    → contains node done ≡ false
    → pending edges done u ≡ pending edges (node ∷ done) u + occurrences u (adjacency edges node)
pending-done [] done node u new = omega arith
pending-done (e ∷ edges) done node u new = elim (Bool-cases (e.0 == node)) [
  | inl from ↦
      let out : contains e.0 done ≡ false =
        subst (λ x. contains x done ≡ false) (sym ((==_iff e.0 node).0 from)) new in
      rw (from, out) (ground (arith, pending-done edges done node u new))
  | inr other ↦ ground (arith, pending-done edges done node u new)
]
