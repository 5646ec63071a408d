-- ===== src/Thresholds/Stagnation.antt =====
-- When the fix loop of src/sf_factory/thresholds.py counts as stagnant.
use sf_f.Base.{
  ==_iff, ℕ, zero, suc, ◌+◌, ◌≤◌, ◌≡◌, Bool, true, not, ◌&&◌, List, [], ◌∷◌, ◌==◌, nat_eq, length,
  take, leb, ltb, is_none, arith,
}
use sf_f.Config.{FactoryConfig}
use sf_f.Models.Records.{Stage}
use sf_f.Store.Db.{Db, FixIteration}
use sf_f.Thresholds.{
  nondecreasing_pairs, stagnation, latest_failing, fix_window, check_max_fix_iterations,
}

-- No iteration of the window, newest first, has fewer failing tests than the one before it.
abbrev pub never_falls : List FixIteration → Bool
never_falls [] = true
never_falls (r ∷ []) = true
never_falls (r ∷ prev ∷ rows) = leb prev.failing_tests r.failing_tests && never_falls (prev ∷ rows)

pairs-le :
    (r : FixIteration) (rows : List FixIteration) → nondecreasing_pairs (r ∷ rows) ≤ length rows
unfolding nondecreasing_pairs
pairs-le r [] = omega arith
pairs-le r (prev ∷ rows) = ground (arith, pairs-le prev rows)

pairs_lem :
    (r : FixIteration) (rows : List FixIteration)
    → (nondecreasing_pairs (r ∷ rows) + 1 == length (r ∷ rows)) ≡ never_falls (r ∷ rows)
unfolding nondecreasing_pairs
pairs_lem r [] = ground arith
pairs_lem r (prev ∷ rows) = ground (arith, pairs_lem prev rows, pairs-le prev rows)

length-take : {A : Type 0} (n : ℕ) (xs : List A) → length (take n xs) ≤ n
length-take zero xs = omega arith
length-take (suc n) [] = omega arith
length-take (suc n) (x ∷ xs) = omega (arith, length-take n xs)

-- The three early returns of the check, as one condition.
abbrev pub is_stagnant : ℕ → List FixIteration → Bool
is_stagnant n window = length window == n && (never_falls window && ltb 0 (latest_failing window))

stagnation_lem :
    (n : ℕ) (window : List FixIteration)
    → length window ≤ n
    → is_none (stagnation n window) ≡ not (is_stagnant n window)
unfolding stagnation nondecreasing_pairs
stagnation_lem n [] h = ground arith
stagnation_lem n (r ∷ rows) h = ground (
  arith,
  pairs_lem r rows,
  pairs-le r rows,
  ==_iff (length (r ∷ rows)) n,
  ==_iff (nondecreasing_pairs (r ∷ rows) + 1) n,
)

-- The trigger fires exactly when the window after the last resolved escalation holds the configured
-- number of iterations, none of them has fewer failing tests than the one before it, and tests fail
-- in the newest: a window in which progress was made, or that is too short, never fires.
pub check_max_fix_iterations_lem :
    (cfg : FactoryConfig) (d : Db) (s : Stage)
    → is_none (check_max_fix_iterations cfg d s)
      ≡ not (
          is_stagnant cfg.escalation.max_fix_iterations
            (fix_window cfg.escalation.max_fix_iterations s.id d))
unfolding check_max_fix_iterations fix_window
check_max_fix_iterations_lem cfg d s =
    stagnation_lem cfg.escalation.max_fix_iterations _
      (length-take cfg.escalation.max_fix_iterations _)
