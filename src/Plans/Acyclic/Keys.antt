-- ===== src/Plans/Acyclic/Keys.antt =====
-- The keys of a dict of units: each unit once.
use sf_f.Base.{
  String, ◌≡◌, refl, false, ◌==◌, ==_iff, string_eq, List, [], ◌∷◌, contains, if◌then◌else◌, arith,
}
use sf_f.Plans.Acyclic.{without, keys_of}
use sf_f.Plans.Acyclic.Counting.{one_if, occurrences}

contains-without :
    (u x : String) (xs : List String)
    → contains u (without x xs) ≡ (if u == x then false else contains u xs)
contains-without u x [] = ground arith
contains-without u x (y ∷ ys) =
    ground (arith, ==_iff y x, ==_iff u y, ==_iff u x, contains-without u x ys)

occurrences-without :
    (u x : String) (xs : List String)
    → occurrences u (without x xs) ≡ (if u == x then 0 else occurrences u xs)
occurrences-without u x [] = ground arith
occurrences-without u x (y ∷ ys) =
    ground (arith, ==_iff y x, ==_iff y u, ==_iff u x, occurrences-without u x ys)

pub contains-keys_of : (u : String) (ids : List String) → contains u (keys_of ids) ≡ contains u ids
unfolding keys_of
contains-keys_of u [] = refl
contains-keys_of u (x ∷ ids) =
    ground (arith, ==_iff u x, contains-without u x (keys_of ids), contains-keys_of u ids)

pub occurrences-keys_of :
    (u : String) (ids : List String) → occurrences u (keys_of ids) ≡ one_if (contains u ids)
unfolding keys_of
occurrences-keys_of u [] = refl
occurrences-keys_of u (x ∷ ids) = ground (
  arith,
  ==_iff u x,
  ==_iff x u,
  occurrences-without u x (keys_of ids),
  occurrences-keys_of u ids,
)
