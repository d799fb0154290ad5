-- ===== src/Gateway/Tools/Json.antt =====
-- tools.go: a decoded JSON object and the functions that read its fields.
use zshell_gateway.Base.{
  String, Bool, false, List, [], ◌∷◌, Option, none, some, str_beq, if◌then◌else◌,
}

-- What `json.Unmarshal` puts into an `any`. A number is given by its text under the verb `%.0f`, and an
-- object by its fields, each name once.
mutual
  pub data Json : Type 0 where
    null : Json
    boolean : Bool → Json
    number : String → Json
    text : String → Json
    array : Items → Json
    object : Fields → Json

  pub data Items : Type 0 where
    no_items : Items
    item : Json → Items → Items

  pub data Fields : Type 0 where
    no_fields : Fields
    field : String → Json → Fields → Fields

-- a `map[string]any`, which may be nil
abbrev pub Object : Type 0
Object = Option Fields

-- `value[name]` of a map that is not nil
unfoldable pub field_of : String → Fields → Option Json
field_of name no_fields = none
field_of name (field n v rest) =
    let later = field_of name rest in if str_beq n name then some v else later

unfoldable pub value_at : Object → String → Option Json
unfolding field_of
value_at none name = none
value_at (some fields) name = field_of name fields

abbrev pub as_text : Option Json → Option String
as_text (some (text s)) = some s
as_text _ = none

abbrev pub as_number : Option Json → Option String
as_number (some (number n)) = some n
as_number _ = none

abbrev pub as_boolean : Option Json → Option Bool
as_boolean (some (boolean b)) = some b
as_boolean _ = none

abbrev pub as_object : Option Json → Object
as_object (some (object fields)) = some fields
as_object _ = none

abbrev pub as_items : Option Json → Items
as_items (some (array items)) = items
as_items _ = no_items

-- the value, or the zero value of its type
abbrev pub or_zero : {A : Type 0} → A → Option A → A
or_zero zero_value none = zero_value
or_zero zero_value (some a) = a

-- `stringField`
unfoldable pub string_field : Object → String → String
unfolding value_at
string_field value name = or_zero "" (as_text (value_at value name))

-- `boolField`
unfoldable pub bool_field : Object → String → Bool
unfolding value_at
bool_field value name = or_zero false (as_boolean (value_at value name))

-- `numberField`
unfoldable pub number_field : Object → String → Option String
unfolding value_at
number_field value name = as_number (value_at value name)

-- `numberOrZero`, under `%.0f`
unfoldable pub number_or_zero : Object → String → String
unfolding number_field
number_or_zero value name = or_zero "0" (number_field value name)

-- `mapField`
unfoldable pub map_field : Object → String → Object
unfolding value_at
map_field value name = as_object (value_at value name)

unfoldable pub texts_of : Items → List String
texts_of no_items = []
texts_of (item v rest) =
    let later = texts_of rest in elim (as_text (some v)) [ none ↦ later | some s ↦ s ∷ later ]

-- `stringArrayField`
unfoldable pub string_array_field : Object → String → List String
unfolding texts_of value_at
string_array_field value name = texts_of (as_items (value_at value name))

-- `value[name].([]any)`
unfoldable pub items_field : Object → String → Items
unfolding value_at
items_field value name = as_items (value_at value name)

-- `raw.(map[string]any)`
abbrev pub object_of : Json → Object
object_of v = as_object (some v)
