-- ===== src/Utils/Json.antt =====
-- A decoded JSON or YAML value, as `interface{}` holds it.
use applicationset.Prelude.{String, Bool, List, [], ◌∷◌, Map, Option, none, some}

-- A number is the text that Go prints for it. The fields of an object come in the order of a
-- `range` loop over them.
mutual
  pub data Value : Type 0 where
    null : Value
    text number : String → Value
    boolean : Bool → Value
    array : Items → Value
    object : Fields → Value

  pub data Items : Type 0 where
    end_items : Items
    item : Value → Items → Items

  pub data Fields : Type 0 where
    end_fields : Fields
    field : String → Value → Fields → Fields

abbrev pub to_list : Items → List Value
to_list end_items = []
to_list (item v vs) = v ∷ to_list vs

abbrev pub to_map : Fields → Map Value
to_map end_fields = []
to_map (field k v fs) = (k, v) ∷ to_map fs

-- `v.(string)`, `v.(map[string]interface{})` and `v.([]interface{})`; `none` is a failed assertion.
abbrev pub as_text : Value → Option String
as_text (text s) = some s
as_text _ = none

abbrev pub as_object : Value → Option (Map Value)
as_object (object fs) = some (to_map fs)
as_object _ = none

abbrev pub as_array : Value → Option (List Value)
as_array (array vs) = some (to_list vs)
as_array _ = none
