-- ===== src/Json.antt =====
-- `serde_json::Value`, with natural numbers only, which are all that the gateway's own values hold.
use ssh_gateway.Prelude.{ℕ, Text, Bool, Option, none, some, List, [], ◌∷◌}

mutual
  pub data Value : Type 0 where
    null : Value
    boolean : Bool → Value
    number : ℕ → Value
    string : Text → Value
    array : Values → Value
    object : Fields → Value

  pub data Values : Type 0 where
    end : Values
    item : Value → Values → Values

  pub data Fields : Type 0 where
    close : Fields
    field : Text → Value → Fields → Fields

abbrev pub or_null : Option Text → Value
or_null none = null
or_null (some s) = string s

-- `json!({…})` and `json!([…])`
abbrev fields_of : List (Text × Value) → Fields
fields_of [] = close
fields_of ((name, v) ∷ rest) = field name v (fields_of rest)

abbrev pub json : List (Text × Value) → Value
json entries = object (fields_of entries)

abbrev values_of : List Value → Values
values_of [] = end
values_of (v ∷ rest) = item v (values_of rest)

abbrev pub json_array : List Value → Value
json_array values = array (values_of values)
