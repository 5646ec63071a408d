-- ===== src/Plans/Ids.antt =====
-- The grammar of the ids of a plan of src/sf_factory/artifacts.py: `_PLAN_ID_RE.fullmatch`, and the two
-- tests beside it.
use Prim.Native.Char.{code}
use Prim.Native.String.{String}
use sf_f.Base.{
  Bool-cases, ℕ, ◌≡◌, ◌≢◌, refl, sym, ap, ◌∙◌, inl, inr, Bool-cases, ==_iff, Bool, true, false, not,
  ◌&&◌, ◌||◌, List, [], ◌∷◌, ◌==◌, nat_eq, leb, all, contains, arith,
}

abbrev pub codes : String → List ℕ
codes String.[] = []
codes (String.◌∷◌ c s) = code c ∷ codes s

-- [A-Za-z0-9]
unfoldable pub is_alphanumeric : ℕ → Bool
is_alphanumeric c =
    (leb b'0' c && leb c b'9') || ((leb b'A' c && leb c b'Z') || (leb b'a' c && leb c b'z'))

-- [A-Za-z0-9._-]
unfoldable pub is_id_character : ℕ → Bool
is_id_character c = is_alphanumeric c || (c == b'.' || (c == b'_' || c == b'-'))

abbrev pub full_match : List ℕ → Bool
full_match [] = false
full_match (c ∷ cs) = is_alphanumeric c && all is_id_character cs

abbrev pub starts_with_dot : List ℕ → Bool
starts_with_dot [] = false
starts_with_dot (c ∷ cs) = c == b'.'

-- `".." in id`
abbrev pub has_two_dots : List ℕ → Bool
has_two_dots [] = false
has_two_dots (c ∷ cs) = (c == b'.' && starts_with_dot cs) || has_two_dots cs

abbrev pub is_last_dot : ℕ → List ℕ → Bool
is_last_dot c [] = c == b'.'
is_last_dot c (d ∷ cs) = is_last_dot d cs

-- `id.endswith(".")`
abbrev pub ends_with_dot : List ℕ → Bool
ends_with_dot [] = false
ends_with_dot (c ∷ cs) = is_last_dot c cs

unfoldable pub is_plan_id : String → Bool
is_plan_id id =
    full_match (codes id) && (not (has_two_dots (codes id)) && not (ends_with_dot (codes id)))

-- A text that may be a part of a path or of a branch's name.
pub record IsSafe (id : String) : Type 0 where
  pub no_separator : contains b'/' (codes id) ≡ false
  pub no_backslash : contains b'\\' (codes id) ≡ false
  pub no_option : (cs : List ℕ) → codes id ≢ b'-' ∷ cs
  pub no_dot_file : (cs : List ℕ) → codes id ≢ b'.' ∷ cs
  pub filled : codes id ≢ []

both : (a b : Bool) → (a && b) ≡ true → (a ≡ true) × (b ≡ true)
both a b h = ground arith

absent :
    (x : ℕ) (cs : List ℕ)
    → is_id_character x ≡ false
    → all is_id_character cs ≡ true
    → contains x cs ≡ false
absent x [] bad h = refl
absent x (c ∷ cs) bad h =
    let (good, rest) = both (is_id_character c) (all is_id_character cs) h in
    elim (Bool-cases (x == c)) [
      | inl same ↦
          let at : is_id_character x ≡ is_id_character c =
            ap is_id_character ((==_iff x c).0 same) in
          cc (sym bad ∙ at ∙ good)
      | inr other ↦ rw other (absent x cs bad rest)
    ]

matched-all : (cs : List ℕ) → full_match cs ≡ true → all is_id_character cs ≡ true
unfolding is_id_character
matched-all [] h = cc
matched-all (c ∷ cs) h =
    let (first, rest) = both (is_alphanumeric c) (all is_id_character cs) h in rw (first, rest) refl

refused-head :
    (c : ℕ) (cs ds : List ℕ) → is_alphanumeric c ≡ false → full_match cs ≡ true → cs ≢ c ∷ ds
refused-head c cs ds bad h e =
    let first = (both (is_alphanumeric c) (all is_id_character ds) (sym (ap full_match e) ∙ h)).0 in
    cc (sym bad ∙ first)

-- An id that the grammar accepts is safe.
pub is_plan_id-IsSafe : (id : String) → is_plan_id id ≡ true → IsSafe id
unfolding is_plan_id is_alphanumeric is_id_character
is_plan_id-IsSafe id h =
    let matched = (both (full_match (codes id)) _ h).0 in
    let every = matched-all (codes id) matched in
    record {
      no_separator = absent b'/' (codes id) refl every;
      no_backslash = absent b'\\' (codes id) refl every;
      no_option = λ cs. refused-head b'-' (codes id) cs refl matched;
      no_dot_file = λ cs. refused-head b'.' (codes id) cs refl matched;
      filled = λ e. cc (sym (ap full_match e) ∙ matched);
    }
