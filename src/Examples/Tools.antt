-- ===== src/Examples/Tools.antt =====
-- Tools that are called with no device connected, and a transfer that is cancelled by a tool.
use mathlib.Core.Path.{subst}
use zshell_gateway.Base.{
  inl, inr, Bool-cases, eq_iff, str_beq, String, ◌≡◌, refl, true, false, [], ◌∷◌, none, some,
  string_eq, arith,
}
use zshell_gateway.Dict.{Dict, get, put}
use zshell_gateway.Text.Trim.{trim_space, byte_len}
use zshell_gateway.Device.Types.{Manager, cancelled, ok}
use zshell_gateway.Device.Registry.{attach, normalize_info, resolve, new_manager}
use zshell_gateway.Device.Transfer.State.{is_final, snapshot}
use zshell_gateway.Device.Transfer.Preserve.{ended}
use zshell_gateway.Gateway.Tools.Format.{Printing}
use zshell_gateway.Gateway.Tools.Results.{Rendering, transfer_snapshot_result}
use zshell_gateway.Gateway.Tools.Calls.{Codec, split_device_arguments, start_device_tool, calling}
use zshell_gateway.Gateway.Tools.Json.{
  Json, object, string_array_field, value_at, field_of, map_field,
}
use zshell_gateway.Gateway.Tools.Results.{put_field}
use zshell_gateway.Gateway.Tools.Schema.{
  with_device_schema, device_property, path_property, text_items,
}
use zshell_gateway.Gateway.Tools.Specs.{tool_specs}
use zshell_gateway.Gateway.Tools.Specs.Files.{file_stat_spec}
use zshell_gateway.Gateway.Tools.Specs.Forwarded.{
  Fits, IsRest, properties_of, required_of, contains, split-Fits,
}
use zshell_gateway.Gateway.Tools.Calls.Sent.{IsForwarded, start_device_tool-IsForwarded}
use zshell_gateway.Device.Calls.{start_call, begin_call, register_call, send_call}
use zshell_gateway.Device.Session.{register_pending, send, accepted}
use zshell_gateway.Gateway.Tools.Transfers.{file_transfer_status, file_transfer_cancel}
use zshell_gateway.Gateway.Tools.Transfers.Cancelled.{cancel-status}
use zshell_gateway.Examples.Runs.{info_of, closed, accepting, the_id, started}
use zshell_gateway.Examples.Transfers.{with_transfer}

abbrev sent_fields : Dict String String
sent_fields = ("device", "\" \"") ∷ ("path", "\"/x\"") ∷ []

abbrev codec : Codec
codec = record {
  read_fields = λ _. ok sent_fields;
  read_text = λ _. some " ";
  write_fields = λ _. ok "{\"path\":\"/x\"}";
  valid = λ _. true;
  read_object = λ _. ok none;
  read_envelope = λ _. none;
}

abbrev printing : Printing
printing = record { quote = λ s. s; marshal = λ _. "{}" }

abbrev arguments : String
arguments = "{\"device\":\" \",\"path\":\"/x\"}"

split : split_device_arguments codec arguments ≡ ok ("", "{\"path\":\"/x\"}")
unfolding split_device_arguments byte_len get trim_space
split = refl

abbrev Anything : Json → String → Type 0
Anything property raw = Unit

sent_fields-Fits : Fits Anything (with_device_schema file_stat_spec.input_schema) sent_fields
unfolding with_device_schema properties_of required_of contains string_array_field value_at
    text_items field_of put_field map_field get
sent_fields-Fits = record {
  declared = λ name raw h. elim (Bool-cases (str_beq "device" name)) [
    | inl same ↦
        subst (Declared "device") ((eq_iff "device" name).0 same) (object device_property, refl, tt)
    | inr differs ↦ subst (Declared "path") (path_is name raw h differs) (
      object (
          path_property
            "File or directory path. Relative paths are resolved from the zshell workspace."),
      refl,
      tt,
    )
  ];
  complete = λ name h. ground (arith, h);
}
  where
    Declared : String → String → Type 0
    Declared _ name =
        (property : Json) × (field_of name
            (properties_of (with_device_schema file_stat_spec.input_schema))
          ≡ some property)
        × Unit {0}

    path_is :
        (name raw : String)
        → get name sent_fields ≡ some raw
        → str_beq "device" name ≡ false
        → "path" ≡ name
    path_is name raw h differs = ground (arith, h, differs, eq_iff "path" name)

split-Fits_example :
    (rest : Dict String String) × (codec.write_fields rest ≡ ok "{\"path\":\"/x\"}")
    × IsRest sent_fields rest
    × Fits Anything file_stat_spec.input_schema rest
unfolding tool_specs byte_len
split-Fits_example =
    split-Fits 14 file_stat_spec codec Anything arguments "" "{\"path\":\"/x\"}" sent_fields refl
      (λ e. absurd (ground (arith, e))) refl sent_fields-Fits split

abbrev one_device : Manager
one_device = (attach (some "http") (info_of "a") 1 (new_manager closed)).1

abbrev after_call : Manager
after_call = (start_device_tool codec printing accepting 2 none "file_stat" arguments one_device).1

calls_device :
    start_device_tool codec printing accepting 2 none "file_stat" arguments one_device
    ≡ (calling "" 0 1, after_call)
unfolding start_device_tool split_device_arguments byte_len get put trim_space attach normalize_info
    new_manager start_call begin_call register_call register_pending send_call send accepted resolve
calls_device = refl

start_device_tool-IsForwarded_example :
    IsForwarded codec "file_stat" arguments "" one_device 0 1 after_call
start_device_tool-IsForwarded_example =
    start_device_tool-IsForwarded codec printing accepting 2 none "file_stat" arguments ""
      one_device 0 1 after_call calls_device

abbrev rendering : Rendering
rendering = record { percent = λ _. "0.0"; mebibytes = λ _. "0.00"; snapshot_object = λ _. none }

cancel-status_example :
    ((file_transfer_cancel rendering accepting 7 (ok the_id) (with_transfer started)).0
      ≡ transfer_snapshot_result rendering
          (snapshot 7 (ended cancelled "cancelled" 7 started))
          false)
    × (file_transfer_status rendering 9
          (ok the_id)
          (file_transfer_cancel rendering accepting 7 (ok the_id) (with_transfer started)).1
        ≡ transfer_snapshot_result rendering
            (snapshot 9 (ended cancelled "cancelled" 7 started))
            true)
unfolding get trim_space is_final
cancel-status_example =
    cancel-status accepting 7 the_id (with_transfer started) started refl refl rendering 9
