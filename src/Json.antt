-- ===== src/Json.antt =====
-- The values of encoding/json in an `interface{}`, and of a `map[string]any`: the entries of an
-- object. A number is its text.
use howk.Prelude.{Bool, Option, none, some, if◌then◌else◌}
use howk.Prelude.Text.{Bytes, bytes_eq}

mutual
  pub data Value : Type 0 where
    json_null : Value
    json_bool : Bool → Value
    json_number : Bytes → Value
    json_string : Bytes → Value
    json_array : Values → Value
    json_object : Fields → Value

  pub data Values : Type 0 where
    last : Values
    item : Value → Values → Values

  pub data Fields : Type 0 where
    end : Fields
    field : Bytes → Value → Fields → Fields

-- `v, ok := m[k]`.
abbrev pub get : Bytes → Fields → Option Value
get k end = none
get k (field j v fs) = if bytes_eq j k then some v else get k fs
