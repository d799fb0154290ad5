-- ===== src/Gateway/Tools/Calls.antt =====
-- tools.go: `device_list`, and the tools that a device carries out.
pub mod Routed
pub mod Sent
use zshell_gateway.Base.{
  ℕ, String, Bool, true, false, List, [], ◌∷◌, Option, none, some, nat_beq, length, if◌then◌else◌,
  string_eq,
}
use zshell_gateway.Dict.{Dict, get, remove}
use zshell_gateway.Text.Decimal.{concat, decimal, quoted}
use zshell_gateway.Text.Trim.{trim_space, byte_len}
use zshell_gateway.Device.Types.{Manager, Error, Result, ok, err, Net, other}
use zshell_gateway.Device.Types
use zshell_gateway.Device.Session.{error_text}
use zshell_gateway.Device.Registry.{list_devices}
use zshell_gateway.Device.Calls.{
  RawJson, Envelope, Failure, Outcome, returned, device_failure, Waiting, Wake, start_call,
  complete_call,
}
use zshell_gateway.Device.Calls
use zshell_gateway.Gateway.Tools.Json.{Json, number, array, Fields, no_fields, field, Object}
use zshell_gateway.Gateway.Tools.Format.{Printing}
use zshell_gateway.Gateway.Tools.Format.Switch.{format_tool_text}
use zshell_gateway.Gateway.Tools.Results.{
  ToolResult, device_items, routing_error_result, tool_failure, device_rows,
}

-- `encoding/json` where the tools use it: the fields of an object as raw texts, a text, the raw fields
-- written back, whether a text is valid, and a decoded object.
pub record Codec : Type 0 where
  pub read_fields : String → Result (Dict String String)
  pub read_text : String → Option String
  pub write_fields : Dict String String → Result String
  pub valid : String → Bool
  pub read_object : String → Result Object
  pub read_envelope : String → Option Envelope

-- the arguments that are forwarded
unfoldable pub forward : Codec → String → Dict String String → Result (String × String)
unfolding error_text
forward x name fields = elim (x.write_fields fields) [
  | err e ↦ err (other (concat "encode ShellCore arguments: " (error_text e)))
  | ok written ↦ ok (trim_space name, written)
]

-- `splitDeviceArguments`
unfoldable pub split_device_arguments : Codec → String → Result (String × String)
unfolding forward error_text
split_device_arguments x arguments =
    if nat_beq (byte_len arguments) 0 then ok ("", "{}") else elim (x.read_fields arguments) [
      | err e ↦ err (other (concat "decode tool arguments: " (error_text e)))
      | ok fields ↦ elim (get "device" fields) [
        | none ↦ forward x "" fields
        | some raw ↦ elim (x.read_text raw) [
          | none ↦ err (other "device must be a string")
          | some name ↦ forward x name (remove "device" fields)
        ]
      ]
    ]

-- What a handler returns: a result of the tool, or an error of the protocol.
pub data Handled : Type 0 where
  gives : ToolResult → Handled
  breaks : Error → Handled

-- an error of `devices.Call`; the devices are listed when it is answered
unfoldable pub call_failed : Error → Manager → Handled
unfolding routing_error_result
call_failed Types.Error.no_device m =
    gives (
      routing_error_result "NoDeviceConnected" "No ShellCore device is connected." (list_devices m))
call_failed Types.Error.device_required m = gives (
    routing_error_result "DeviceRequired"
      "Multiple ShellCore devices are connected. Call device_list and pass device explicitly."
      (list_devices m))
call_failed Types.Error.device_not_found m = gives (
    routing_error_result "DeviceNotFound"
      "The requested ShellCore device is not connected. Call device_list for current devices."
      (list_devices m))
call_failed Types.Error.transport_closed m = breaks Types.Error.transport_closed
call_failed (Types.Error.transport_failed e) m = breaks (Types.Error.transport_failed e)
call_failed Types.Error.transfer_not_found m = breaks Types.Error.transfer_not_found
call_failed Types.Error.transfer_same_device m = breaks Types.Error.transfer_same_device
call_failed Types.Error.invalid_transfer_request m = breaks Types.Error.invalid_transfer_request
call_failed (Types.Error.transfer_device_busy e) m = breaks (Types.Error.transfer_device_busy e)
call_failed (Types.Error.context_error e) m = breaks (Types.Error.context_error e)
call_failed Types.Error.nil_pointer m = breaks Types.Error.nil_pointer
call_failed (Types.Error.other e) m = breaks (Types.Error.other e)

abbrev or_nil : Result Object → Object
or_nil (ok o) = o
or_nil (err _) = none

-- what the tool makes of the outcome of the call
unfoldable pub handle_outcome : Codec → Printing → String → Outcome → Manager → Handled
unfolding call_failed tool_failure format_tool_text error_text
handle_outcome x y name (Calls.Outcome.failed e) m = call_failed e m
handle_outcome x y name (device_failure f) m =
    gives (tool_failure name f (or_nil (x.read_object f.details)))
handle_outcome x y name (returned result is_error) m = elim (x.read_object result) [
  | err e ↦ breaks (
      other
        (concat "decode ShellCore result for " (concat (quoted name) (concat ": " (error_text e)))))
  | ok value ↦
      gives
        (record { structured = value; is_error = is_error; shown = format_tool_text y name value })
]

-- Where a tool's handler stands: it has returned, or waits for the device of that name.
pub data Handling : Type 0 where
  handled : Handled → Handling
  calling : String → ℕ → ℕ → Handling

-- what follows `devices.Call`, if it has returned
unfoldable pub started_tool :
    Codec → Printing → String → String → Waiting × Manager → Handling × Manager
unfolding handle_outcome
started_tool x y tool name (Calls.Waiting.finished outcome, m) =
    (handled (handle_outcome x y tool outcome m), m)
started_tool x y tool name (Calls.Waiting.waiting h id, m) = (calling name h id, m)

-- the handler of `registerDeviceTool` until `devices.Call` waits
unfoldable pub start_device_tool :
    Codec → Printing → Net → ℕ → Option String → String → String → Manager → Handling × Manager
unfolding split_device_arguments started_tool
start_device_tool x y net now ctx tool arguments m = elim (split_device_arguments x arguments) [
  | err e ↦ (handled (breaks e), m)
  | ok (name, forwarded) ↦
      started_tool x y tool name (
        start_call net now ctx name tool (record { text = forwarded; valid = x.valid forwarded }) m)
]

-- the rest of the handler, once the call's wait is over
unfoldable pub finish_device_tool :
    Codec → Printing → Net → ℕ → String → String → ℕ → ℕ → Wake → Manager → Handled × Manager
unfolding handle_outcome
finish_device_tool x y net now tool name h id wake m =
    let (outcome, m') = complete_call x.read_envelope net now name h id wake m in
    (handle_outcome x y tool outcome m', m')

-- `formatDeviceListText`, whose rows are separated by line breaks
unfoldable pub format_device_list_text : Manager → String
unfolding device_rows
format_device_list_text m =
    let devices = list_devices m in
    if nat_beq (length devices) 0
    then "No ShellCore devices are connected."
    else concat (decimal (length devices))
        (concat " ShellCore device(s) connected:" (device_rows devices))

-- the handler of `device_list`
unfoldable pub device_list : Manager → ToolResult
unfolding format_device_list_text device_items
device_list m = record {
  structured = some (
      field "count" (number (decimal (length (list_devices m))))
        (field "devices" (array (device_items (list_devices m))) no_fields));
  is_error = false;
  shown = format_device_list_text m;
}
