-- ===== src/Contracts/Json.antt =====
-- The values of `dict[str, Any]` payloads.
use penny_core.Prelude.{ℕ, String, Bool, true, false, not, [], ◌∷◌, nat_beq, ◌==◌, string_eq}
use penny_core.Dict.{Dict}

mutual
  pub data Value : Type 0 where
    text : String → Value
    number : ℕ → Value
    bool : Bool → Value
    null : Value
    obj : Fields → Value
    arr : Items → Value

  pub data Fields : Type 0 where
    end : Fields
    field : String → Value → Fields → Fields

  pub data Items : Type 0 where
    nil : Items
    cons : Value → Items → Items

abbrev pub Payload : Type 0
Payload = Dict String Value

-- A dict as a value.
unfoldable pub to_fields : Payload → Fields
to_fields [] = end
to_fields ((k, v) ∷ d) = field k v (to_fields d)

-- Python's truth value, which `x or y` tests.
unfoldable pub truthy : Value → Bool
truthy null = false
truthy (bool b) = b
truthy (number n) = not (nat_beq n 0)
truthy (text s) = not (s == "")
truthy (arr nil) = false
truthy (arr (cons _ _)) = true
truthy (obj end) = false
truthy (obj (field _ _ _)) = true
