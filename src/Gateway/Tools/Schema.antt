-- ===== src/Gateway/Tools/Schema.antt =====
-- tools.go: the JSON schemas of the tools' arguments.
use zshell_gateway.Base.{String, Bool, false, List, [], ◌∷◌, some}
use zshell_gateway.Text.Decimal.{concat}
use zshell_gateway.Gateway.Tools.Json.{
  Json, boolean, number, text, array, object, Items, no_items, item, Fields, no_fields, field,
  map_field, or_zero,
}
use zshell_gateway.Gateway.Tools.Results.{put_field}

-- `toolSpec`
pub record ToolSpec : Type 0 where
  pub name : String
  pub description : String
  pub input_schema : Fields
  pub read_only : Bool

-- a `[]string` in a schema
unfoldable pub text_items : List String → Items
text_items [] = no_items
text_items (s ∷ rest) = item (text s) (text_items rest)

abbrev pub texts_json : List String → Json
texts_json l = array (text_items l)

abbrev pub required_field : List String → Fields
required_field [] = no_fields
required_field (s ∷ rest) = field "required" (texts_json (s ∷ rest)) no_fields

-- `objectSchema`
abbrev pub object_schema : Fields → List String → Fields
object_schema properties required = field "type" (text "object") (
    field "properties" (object properties)
      (field "additionalProperties" (boolean false) (required_field required)))

-- a property of a type, with its description and what else is said of it
abbrev pub property : String → String → Fields → Fields
property type description rest =
    field "type" (text type) (field "description" (text description) rest)

-- `int64(^uint64(0) >> 1)`
abbrev pub max_int64 : String
max_int64 = "9223372036854775807"

abbrev pub bounds : String → String → Fields
bounds minimum maximum =
    field "minimum" (number minimum) (field "maximum" (number maximum) no_fields)

-- `commandProperty`
abbrev pub command_property : String → Fields
command_property description =
    property "string" description (field "minLength" (number "1") no_fields)

-- `idProperty`
abbrev pub id_property : String → Fields
id_property description = property "integer" description (bounds "1" max_int64)

-- `pathProperty`
abbrev pub path_property : String → Fields
path_property description = property "string" description (field "minLength" (number "1") no_fields)

-- `nonNegativeIntegerProperty`
abbrev pub non_negative_integer_property : String → String → Fields
non_negative_integer_property description maximum =
    property "integer" description (bounds "0" maximum)

-- `outputCursorProperty`
abbrev pub output_cursor_property : String → Fields
output_cursor_property stream =
    property "integer"
      (concat "Optional absolute " (
        concat stream
          " byte offset returned as nextOffset by the previous read. When provided, only newer retained output is returned."))
      (bounds "0" max_int64)

-- `streamReadSchema`
abbrev pub stream_read_schema : String → String → Fields
stream_read_schema id_name id_description =
    object_schema
      (field id_name (object (id_property id_description)) (
        field "stdoutAfter" (object (output_cursor_property "stdout"))
          (field "stderrAfter" (object (output_cursor_property "stderr")) no_fields)))
      (id_name ∷ [])

-- `stringProperty`
abbrev pub string_property : String → Fields
string_property description = property "string" description no_fields

-- `enumStringProperty`
abbrev pub enum_string_property : String → List String → Fields
enum_string_property description values =
    property "string" description (field "enum" (texts_json values) no_fields)

-- `boolProperty`
abbrev pub bool_property : String → Fields
bool_property description = property "boolean" description no_fields

-- `browserRefProperty`
abbrev pub browser_ref_property : String → Fields
browser_ref_property description =
    property "string"
      (concat description " Use a ref returned by browser_snapshot, such as e1 or @e1.")
      (field "pattern" (text "^@?e[0-9]+$") no_fields)

-- `stringArrayProperty`
abbrev pub string_array_property : String → Fields
string_array_property description =
    property "array" description
      (field "items" (object (field "type" (text "string") no_fields)) no_fields)

-- `terminalDimensionProperty`
abbrev pub terminal_dimension_property : String → Fields
terminal_dimension_property description = property "integer" description (bounds "1" "65535")

-- `empty`, `jobID` and `shellID` of `toolSpecs`
abbrev pub empty_schema : Fields
empty_schema = object_schema no_fields []

abbrev pub job_id_schema : String → Fields
job_id_schema description =
    object_schema (field "jobId" (object (id_property description)) no_fields) ("jobId" ∷ [])

abbrev pub shell_id_schema : String → Fields
shell_id_schema description =
    object_schema (field "shellId" (object (id_property description)) no_fields) ("shellId" ∷ [])

-- `withDeviceSchema`
abbrev pub device_property : Fields
device_property =
    property "string"
      "ShellCore device name returned by device_list. Optional only when exactly one device is connected."
      (field "minLength" (number "1") no_fields)

unfoldable pub with_device_schema : Fields → Fields
unfolding put_field map_field
with_device_schema schema =
    let properties = or_zero no_fields (map_field (some schema) "properties") in
    put_field "properties" (object (put_field "device" (object device_property) properties)) schema
