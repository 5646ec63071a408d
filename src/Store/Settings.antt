-- ===== src/Store/Settings.antt =====
-- The runtime settings of src/sf_factory/db.py and the effective configuration of
-- src/sf_factory/runtime_settings.py, for the settings that are numbers and flags.
pub mod Effective
pub mod RoundTrip
use sf_f.Base.{String, List, [], ◌∷◌, assign, string_eq}
use sf_f.Base.Raises.{Result, ok, ◌>>=◌, require_some, value_error}
use sf_f.Models.Json.{Json, Codec}
use sf_f.Models.Records.{Time}
use sf_f.Store.Db.{Db, Setting}
use sf_f.Store.Tx.{Tx, put}

-- A JSONDecodeError is a ValueError.
unfoldable pub decoded : Codec → List (String × Setting) → Result (List (String × Json))
decoded json [] = ok []
decoded json ((key, row) ∷ rows) = do
  value ← require_some (json.loads row.value) value_error
  rest ← decoded json rows
  ok ((key, value) ∷ rest)

unfoldable pub get_runtime_settings : Codec → Db → Result (List (String × Json))
get_runtime_settings json d = decoded json d.settings

-- INSERT … ON CONFLICT(key) DO UPDATE
unfoldable pub set_runtime_setting : Codec → String → Json → String → Time → Tx (Unit {0})
set_runtime_setting json key value updated_by at = put (λ d. record d {
  settings =
      assign key (record { value = json.dumps value; updated_at = at; updated_by = updated_by })
        d.settings;
})
