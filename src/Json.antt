-- ===== src/Json.antt =====
-- What `encoding/json` puts into an `interface{}`. The codec itself is a parameter (`World`).
use confluo.Prelude.{ℕ, Text, Bool, Option, none, some}
use confluo.Prelude.Dict.{Dict}

mutual
  -- `number` holds the 64 bits of a float64.
  pub data Value : Type 0 where
    null : Value
    boolean : Bool → Value
    number : ℕ → Value
    text : Text → Value
    array : Items → Value
    object : Fields → Value

  pub data Items : Type 0 where
    nil : Items
    cons : Value → Items → Items

  pub data Fields : Type 0 where
    end : Fields
    field : Text → Value → Fields → Fields

-- `map[string]interface{}`
abbrev pub Object : Type 0
Object = Dict Value

-- `v, _ := x.(string)`: the empty string where `x` is of another type.
abbrev pub as_string : Value → Text
as_string (text s) = s
as_string _ = confluo.Prelude.codes ""

-- The same on a map entry that may be missing: a missing entry is a nil interface.
abbrev pub entry_as_string : Option Value → Text
entry_as_string none = confluo.Prelude.codes ""
entry_as_string (some v) = as_string v
