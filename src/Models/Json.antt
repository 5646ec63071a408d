-- ===== src/Models/Json.antt =====
-- JSON values: the `dict` payloads of events and the evidence of a firing.
use sf_f.Base.{ℕ, String, Bool, Option, List, [], ◌∷◌}

mutual
  pub data Json : Type 0 where
    null : Json
    flag : Bool → Json
    num : ℕ → Json
    str : String → Json
    array : Items → Json
    object : Fields → Json

  pub data Items : Type 0 where
    nil : Items
    cons : Json → Items → Items

  pub data Fields : Type 0 where
    end : Fields
    field : String → Json → Fields → Fields

-- A Python `dict` of texts, written out as its items.
abbrev pub Payload : Type 0
Payload = List (String × Json)

-- An array of numbers.
abbrev pub nums : List ℕ → Items
nums [] = nil
nums (n ∷ ns) = cons (num n) (nums ns)

-- Python's `json`, which is not the program's code; `none` is a JSONDecodeError.
pub record Codec : Type 0 where
  pub dumps : Json → String
  pub loads : String → Option Json
