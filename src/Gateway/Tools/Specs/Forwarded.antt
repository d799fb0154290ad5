-- ===== src/Gateway/Tools/Specs/Forwarded.antt =====
-- The arguments that a tool's registered schema allows, and those that are forwarded to the device.
use mathlib.Core.Path.{subst}
use zshell_gateway.Base.{
  Bool-cases, inl, inr, ℕ, zero, suc, if-elim, String, ◌≡◌, ◌≢◌, refl, sym, ap, ◌∙◌, Bool, true,
  false, not, ◌||◌, ◌&&◌, List, [], ◌∷◌, none, some, str_beq, eq_iff, arith, if◌then◌else◌,
  get_elem?, string_eq,
}
use zshell_gateway.Text.Trim.{byte_len}
use zshell_gateway.Device.Types.{ok}
use zshell_gateway.Gateway.Tools.Calls.{Codec, split_device_arguments}
use zshell_gateway.Gateway.Tools.Calls.Routed.{
  Forwarded, nothing_sent, all_sent, rest_sent, split-Forwarded,
}
use zshell_gateway.Dict.{Dict, get, remove, get-remove}
use zshell_gateway.Device.Transfer.State.{is_some}
use zshell_gateway.Gateway.Tools.Json.{
  Json, object, Fields, no_fields, field, field_of, value_at, map_field, string_array_field,
  as_object, as_items, texts_of, or_zero,
}
use zshell_gateway.Gateway.Tools.Results.{put_field}
use zshell_gateway.Gateway.Tools.Schema.{ToolSpec, device_property, with_device_schema, text_items}
use zshell_gateway.Gateway.Tools.Specs.{tool_specs}

-- the properties that a schema declares, and the names that it requires
unfoldable pub properties_of : Fields → Fields
unfolding map_field
properties_of schema = or_zero no_fields (map_field (some schema) "properties")

unfoldable pub required_of : Fields → List String
unfolding string_array_field
required_of schema = string_array_field (some schema) "required"

unfoldable pub contains : String → List String → Bool
contains name [] = false
contains name (s ∷ rest) = str_beq s name || contains name rest

-- The fields have declared names only, each with a value that is valid for the schema declared for the name, and
-- every required name. `Valid` says which texts are valid for the schema of a property.
pub record Fits (Valid : Json → String → Type 0) (schema : Fields) (arguments : Dict String String)
    : Type 0 where
  pub declared :
      (name raw : String)
      → get name arguments ≡ some raw
      → (property : Json) × (field_of name (properties_of schema) ≡ some property)
        × Valid property raw
  pub complete :
      (name : String)
      → contains name (required_of schema) ≡ true
      → is_some (get name arguments) ≡ true

field_of-put_field :
    (j k : String) (v : Json) (fields : Fields)
    → field_of j (put_field k v fields) ≡ (if str_beq k j then some v else field_of j fields)
unfolding field_of put_field
field_of-put_field j k v no_fields = refl
field_of-put_field j k v (field n w rest) =
    ground (arith, eq_iff n k, eq_iff n j, eq_iff k j, field_of-put_field j k v rest)

-- `withDeviceSchema` declares the device besides what was declared, and requires what was required.
properties-with_device :
    (name : String) (schema : Fields)
    → field_of name (properties_of (with_device_schema schema)) ≡ (
        if str_beq "device" name
        then some (object device_property)
        else field_of name (properties_of schema))
unfolding properties_of with_device_schema map_field value_at
properties-with_device name schema =
    let properties = put_field "device" (object device_property) (properties_of schema) in
    ap (λ found. field_of name (or_zero no_fields (as_object found)))
      (field_of-put_field "properties" "properties" (object properties) schema)
    ∙ field_of-put_field name "device" (object device_property) (properties_of schema)

required-with_device :
    (schema : Fields) → required_of (with_device_schema schema) ≡ required_of schema
unfolding required_of with_device_schema string_array_field value_at
required-with_device schema =
    ap (λ found. texts_of (as_items found)) (field_of-put_field "required" "properties" _ schema)

-- what is left of the arguments without the device
abbrev pub IsRest : Dict String String → Dict String String → Type 0
IsRest arguments rest =
    (name : String) → get name rest ≡ (if str_beq "device" name then none else get name arguments)

remove-IsRest : (arguments : Dict String String) → IsRest arguments (remove "device" arguments)
remove-IsRest arguments name = get-remove name "device" arguments

absent-IsRest :
    (arguments : Dict String String) → get "device" arguments ≡ none → IsRest arguments arguments
absent-IsRest arguments absent name =
    if-elim (λ o. get name arguments ≡ o) (str_beq "device" name) none (get name arguments)
      (λ same. subst (λ k. get k arguments ≡ none) ((eq_iff "device" name).0 same) absent)
      (λ _. refl)

rest-Fits :
    (Valid : Json → String → Type 0) (schema : Fields) (arguments rest : Dict String String)
    → contains "device" (required_of schema) ≡ false
    → Fits Valid (with_device_schema schema) arguments
    → IsRest arguments rest
    → Fits Valid schema rest
rest-Fits Valid schema arguments rest optional fits is_rest = record {
  declared = λ name raw h. elim (Bool-cases (str_beq "device" name)) [
    | inl same ↦ absurd (ground (arith, h, same, is_rest name))
    | inr differs ↦
        let (property, at, valid) =
          fits.declared name raw (ground (arith, h, differs, is_rest name)) in
        (property, ground (arith, at, differs, properties-with_device name schema), valid)
  ];
  complete = λ name h. ground (
    arith,
    h,
    is_rest name,
    eq_iff "device" name,
    optional,
    subst (λ l. contains name l ≡ true) (sym (required-with_device schema)) h,
    fits.complete name,
  );
}

-- No tool requires the device.
unfoldable none_requires : List ToolSpec → Bool
unfolding required_of contains
none_requires [] = true
none_requires (s ∷ rest) =
    not (contains "device" (required_of s.input_schema)) && none_requires rest

optional_in :
    (l : List ToolSpec) (n : ℕ) (spec : ToolSpec)
    → none_requires l ≡ true
    → get_elem? l n ≡ some spec
    → contains "device" (required_of spec.input_schema) ≡ false
unfolding none_requires
optional_in [] n spec h e = absurd (cc e)
optional_in (s ∷ rest) zero spec h e =
    subst (λ (t : ToolSpec). contains "device" (required_of t.input_schema) ≡ false) (first e)
      (ground (arith, h))
  where
    first : some s ≡ some spec → s ≡ spec
    first e = cc e
optional_in (s ∷ rest) (suc n) spec h e = optional_in rest n spec (ground (arith, h)) e

tool_specs_optional : none_requires tool_specs ≡ true
unfolding none_requires tool_specs required_of contains string_array_field value_at text_items
tool_specs_optional = refl

-- For each tool of `toolSpecs`: let the arguments of a call be an object that fits the schema with which the tool
-- is registered (declared names only, each with a value valid for its property's schema, in whichever sense,
-- and every required name), and be split. Then what is forwarded to the device is the encoding of an object that
-- has exactly the fields sent, with their values, except the device, and fits the tool's own schema.
pub split-Fits :
    (n : ℕ) (spec : ToolSpec) (x : Codec) (Valid : Json → String → Type 0)
    (arguments name written : String) (fields : Dict String String)
    → get_elem? tool_specs n ≡ some spec
    → byte_len arguments ≢ 0
    → x.read_fields arguments ≡ ok fields
    → Fits Valid (with_device_schema spec.input_schema) fields
    → split_device_arguments x arguments ≡ ok (name, written)
    → (rest : Dict String String) × (x.write_fields rest ≡ ok written)
      × IsRest fields rest
      × Fits Valid spec.input_schema rest
split-Fits n spec x Valid arguments name written fields at some_text reads fits split =
    of_case (split-Forwarded x arguments name written split)
  where
    moved : (read : Dict String String) → x.read_fields arguments ≡ ok read → read ≡ fields
    moved read e = cc (e, reads)

    fitting :
        (read rest : Dict String String)
        → x.read_fields arguments ≡ ok read
        → x.write_fields rest ≡ ok written
        → IsRest read rest
        → (rest : Dict String String) × (x.write_fields rest ≡ ok written)
          × IsRest fields rest
          × Fits Valid spec.input_schema rest
    fitting read rest e w is_rest =
        let same = subst (λ d. IsRest d rest) (moved read e) is_rest in
        (
          rest,
          w,
          same,
          rest-Fits Valid spec.input_schema fields rest
              (optional_in tool_specs n spec tool_specs_optional at) fits same,
        )

    of_case :
        Forwarded x arguments name written
        → (rest : Dict String String) × (x.write_fields rest ≡ ok written)
          × IsRest fields rest
          × Fits Valid spec.input_schema rest
    of_case (nothing_sent e _ _) = absurd (some_text e)
    of_case (all_sent read e absent _ w) = fitting read read e w (absent-IsRest read absent)
    of_case (rest_sent read raw given e _ _ _ w _) =
        fitting read (remove "device" read) e w (remove-IsRest read)
