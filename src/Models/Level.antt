-- ===== src/Models/Level.antt =====
-- `Level` of src/sf_factory/models.py: the level of a unit, a `StrEnum`.
use text.Mathlib.Text.{◌==◌ as str_eq}
use sf_f.Base.{
  String, ◌≡◌, refl, Option, none, some, if◌then◌else◌, Eq, Named, value_beq, value_beq_iff,
}

pub data Level : Type 0 where
  phase stage : Level

abbrev pub value : Level → String
value phase = "phase"
value stage = "stage"

-- The class called on a text; `none` stands for its ValueError.
abbrev pub parse : String → Option Level
parse s = if str_eq s "phase" then some phase else if str_eq s "stage" then some stage else none

pub parse-value : (x : Level) → parse (value x) ≡ some x
parse-value phase = refl
parse-value _ = refl

abbrev pub level_named : Named Level
level_named = record { value = value; parse = parse; parse-value = parse-value }

instance abbrev pub level_eq : Eq Level
level_eq = record { same = value_beq level_named; same_iff = value_beq_iff level_named }
