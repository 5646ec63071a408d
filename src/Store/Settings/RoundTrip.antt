-- ===== src/Store/Settings/RoundTrip.antt =====
-- What is written to the runtime settings is what is read.
use sf_f.Base.{
  Option, inl, inr, Bool-cases, String, ◌≡◌, refl, sym, ap, ◌∙◌, Option, none, some, List, [], ◌∷◌,
  ◌==◌, string_eq, lookup, assign, lookup-assign, if◌then◌else◌,
}
use sf_f.Base.Raises.{Error, Error, ok, ok-injective, require_some, >>=-eq-ok, value_error}
use sf_f.Models.Json.{Json, Codec}
use sf_f.Models.Records.{Time}
use sf_f.Store.Db.{Db, Setting}
use sf_f.Store.Settings.{decoded, get_runtime_settings, set_runtime_setting}

require_some-ok :
    {A : Type 0} (o : Option A) (e : Error) {a : A} → require_some o e ≡ ok a → o ≡ some a
require_some-ok none e h = cc
require_some-ok (some x) e h = ap some (ok-injective h)

decoded-assign :
    (json : Codec) (key : String) (value : Json) (s : Setting) (m : List (String × Setting))
    {before : List (String × Json)}
    → json.loads s.value ≡ some value
    → decoded json m ≡ ok before
    → decoded json (assign key s m) ≡ ok (assign key value before)
unfolding decoded
decoded-assign json key value s [] {before} reads h =
    rw reads (ap (λ xs. ok (assign key value xs)) (ok-injective h))
decoded-assign json key value s ((k, row) ∷ m) {before} reads h =
    let (v, first, h1) = >>=-eq-ok (require_some (json.loads row.value) value_error) _ h in
    let (rest, others, h2) = >>=-eq-ok (decoded json m) _ h1 in
    let same : (k, v) ∷ rest ≡ before = ok-injective h2 in
    let found : json.loads row.value ≡ some v = require_some-ok _ value_error first in
    let read : decoded json (assign key s ((k, row) ∷ m)) ≡ ok (assign key value ((k, v) ∷ rest)) =
      elim (Bool-cases (k == key)) [
        | inl hit ↦ rw (hit, reads, others) refl
        | inr miss ↦ rw (miss, found, decoded-assign json key value s m reads others) refl
      ] in
    read ∙ ap (λ xs. ok (assign key value xs)) same

-- When the settings could be read, and the text that json.dumps gives for the value is read back as the
-- value: after the value is written the settings can be read, and hold it under its key, and under
-- every other key what was there before.
pub get-set_runtime_setting :
    (json : Codec) (key : String) (value : Json) (updated_by : String) (at : Time) (d : Db)
    {d' : Db} {before : List (String × Json)}
    → json.loads (json.dumps value) ≡ some value
    → get_runtime_settings json d ≡ ok before
    → set_runtime_setting json key value updated_by at d ≡ ok (tt, d')
    → (after : List (String × Json)) × (get_runtime_settings json d' ≡ ok after)
      × ((k : String) → lookup k after ≡ (if key == k then some value else lookup k before))
unfolding get_runtime_settings set_runtime_setting
get-set_runtime_setting json key value updated_by at d {before = before} codec readable h =
    let row : Setting = record {
      value = json.dumps value;
      updated_at = at;
      updated_by = updated_by;
    } in
    (
      assign key value before,
      ap (λ (x : Unit × Db). decoded json x.1.settings) (sym (ok-injective h))
          ∙ decoded-assign json key value row d.settings codec readable,
      λ k. lookup-assign key k value before,
    )
