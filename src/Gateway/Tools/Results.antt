-- ===== src/Gateway/Tools/Results.antt =====
-- tools.go: the results that the tools give, and their errors.
use zshell_gateway.Base.{
  ℕ, String, Bool, true, List, [], ◌∷◌, none, some, str_beq, length, if◌then◌else◌,
}
use zshell_gateway.Text.Decimal.{concat, decimal}
use zshell_gateway.Device.Types.{
  Error, TransferState, preparing, transferring, verifying, completed, failed, cancelled,
}
use zshell_gateway.Device.Types
use zshell_gateway.Device.Calls.{Failure}
use zshell_gateway.Device.Registry.{ConnectedDevice}
use zshell_gateway.Device.Transfer.State.{Snapshot}
use zshell_gateway.Gateway.Tools.Json.{
  Json, number, text, array, object, Items, no_items, item, Fields, no_fields, field, Object,
}
use zshell_gateway.Gateway.Tools.Format.{join, unless_empty}

-- `mcp.CallToolResult` with one text
pub record ToolResult : Type 0 where
  pub structured : Object
  pub is_error : Bool
  pub shown : String

-- a `ConnectedDevice` as JSON; an empty workspace is left out
unfoldable pub device_fields : ConnectedDevice → Fields
device_fields d =
    let rest = field "os" (text d.os) (
      field "arch" (text d.arch)
        (field "version" (text d.version) (field "transport" (text d.transport) no_fields))) in
    field "name" (text d.name)
      (if str_beq d.workspace "" then rest else field "workspace" (text d.workspace) rest)

unfoldable pub device_items : List ConnectedDevice → Items
unfolding device_fields
device_items [] = no_items
device_items (d ∷ ds) = item (object (device_fields d)) (device_items ds)

-- `routingErrorResult`
unfoldable pub routing_error_result : String → String → List ConnectedDevice → ToolResult
unfolding device_items
routing_error_result code message devices = record {
  structured = some (
      field "error" (text code) (
        field "message" (text message) (
          field "count" (number (decimal (length devices)))
            (field "devices" (array (device_items devices)) no_fields))));
  is_error = true;
  shown = message;
}

-- `transferErrorResult`
unfoldable pub transfer_error_result : String → String → ToolResult
transfer_error_result code message = record {
  structured = some (field "error" (text code) (field "message" (text message) no_fields));
  is_error = true;
  shown = message;
}

-- `transferErrorCode`
unfoldable pub transfer_error_code : Error → String
transfer_error_code Types.Error.no_device = "NoDeviceConnected"
transfer_error_code Types.Error.device_not_found = "DeviceNotFound"
transfer_error_code Types.Error.transfer_not_found = "TransferNotFound"
transfer_error_code (Types.Error.transfer_device_busy _) = "TransferDeviceBusy"
transfer_error_code Types.Error.transfer_same_device = "TransferSameDevice"
transfer_error_code Types.Error.invalid_transfer_request = "InvalidTransferRequest"
transfer_error_code Types.Error.device_required = "TransferError"
transfer_error_code Types.Error.transport_closed = "TransferError"
transfer_error_code (Types.Error.transport_failed _) = "TransferError"
transfer_error_code (Types.Error.context_error _) = "TransferError"
transfer_error_code Types.Error.nil_pointer = "TransferError"
transfer_error_code (Types.Error.other _) = "TransferError"

-- `structured[name] = value`
unfoldable pub put_field : String → Json → Fields → Fields
put_field name v no_fields = field name v no_fields
put_field name v (field n w rest) =
    let later = put_field name v rest in if str_beq n name then field n v rest else field n w later

-- the loop of `toolFailure` over the details
unfoldable pub put_all : Fields → Fields → Fields
unfolding put_field
put_all no_fields into = into
put_all (field n v rest) into = put_all rest (put_field n v into)

-- the text of `toolFailure`
unfoldable pub failure_text : String → String → String
failure_text name code =
    if str_beq code "BrowserFeatureDisabled"
    then "Browser functionality is disabled on this ShellCore. Restart that device with --browser to enable browser tools."
    else if str_beq code "HumanControlActive"
    then "Human control is active. This operation was not started."
    else join (name ∷ " failed: " ∷ code ∷ [])

-- `toolFailure`, with what the details hold
unfoldable pub tool_failure : String → Failure → Object → ToolResult
unfolding put_all failure_text
tool_failure name failure details =
    let start = field "error" (text failure.code) no_fields in
    record {
      structured = some (elim details [ none ↦ start | some fields ↦ put_all fields start ]);
      is_error = true;
      shown = failure_text name failure.code;
    }

-- how a `TransferState` is written
unfoldable pub state_text : TransferState → String
state_text preparing = "preparing"
state_text transferring = "transferring"
state_text verifying = "verifying"
state_text completed = "completed"
state_text failed = "failed"
state_text cancelled = "cancelled"

-- What `fmt` and JSON make of a snapshot: `%.1f` of the progress, `%.2f` of the rate over 2^20, and the
-- object that the snapshot reads back as.
pub record Rendering : Type 0 where
  pub percent : ℕ × ℕ → String
  pub mebibytes : ℕ × ℕ → String
  pub snapshot_object : Snapshot → Object

-- `transferSnapshotResult`
unfoldable pub transfer_snapshot_result : Rendering → Snapshot → Bool → ToolResult
unfolding state_text
transfer_snapshot_result y s is_error = record {
  structured = y.snapshot_object s;
  is_error = is_error;
  shown = join (
      "transfer: "
      ∷ s.transfer_id
      ∷ "\nstatus: "
      ∷ state_text s.status
      ∷ "\nsource: "
      ∷ s.source_device
      ∷ ":"
      ∷ s.source_path
      ∷ "\ntarget: "
      ∷ s.target_device
      ∷ ":"
      ∷ s.target_path
      ∷ "\nprogress: "
      ∷ y.percent s.progress
      ∷ "% ("
      ∷ decimal s.transferred
      ∷ "/"
      ∷ decimal s.size
      ∷ " bytes)\nspeed: "
      ∷ y.mebibytes s.bytes_per_second
      ∷ " MiB/s"
      ∷ unless_empty "\nsha256: " s.sha256 ""
      ∷ unless_empty "\nerror: " s.error ""
      ∷ []);
}

-- a row of `formatDeviceListText`
abbrev device_row : ConnectedDevice → String
device_row d = join (
    "\n- "
    ∷ d.name
    ∷ " | "
    ∷ d.os
    ∷ "/"
    ∷ d.arch
    ∷ unless_empty " | workspace: " d.workspace ""
    ∷ unless_empty " | core: " d.version ""
    ∷ [])

unfoldable pub device_rows : List ConnectedDevice → String
device_rows [] = ""
device_rows (d ∷ ds) = concat (device_row d) (device_rows ds)
