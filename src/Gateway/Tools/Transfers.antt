-- ===== src/Gateway/Tools/Transfers.antt =====
-- tools.go: the handlers of `file_transfer`, `file_transfer_status` and `file_transfer_cancel`.
pub mod Cancelled
use zshell_gateway.Base.{ℕ, String, Bool, true, false, List, Option, none, some}
use zshell_gateway.Text.Decimal.{concat}
use zshell_gateway.Device.Types.{
  Manager, Error, Result, ok, err, Net, TransferState, preparing, transferring, verifying,
  completed, failed, cancelled,
}
use zshell_gateway.Device.Session.{error_text}
use zshell_gateway.Device.Transfer.State.{Snapshot, transfer_status, cancel_transfer}
use zshell_gateway.Device.Transfer.Start.{Request, start_transfer, finish_start}
use zshell_gateway.Device.Transfer.Start
use zshell_gateway.Gateway.Tools.Results.{
  ToolResult, transfer_error_result, transfer_error_code, Rendering, transfer_snapshot_result,
}

-- `snapshot.Status == device.TransferFailed || snapshot.Status == device.TransferCancelled`
abbrev pub has_failed : TransferState → Bool
has_failed failed = true
has_failed cancelled = true
has_failed preparing = false
has_failed transferring = false
has_failed verifying = false
has_failed completed = false

-- the result of an operation on transfers
unfoldable pub snapshot_or_error : Rendering → Result Snapshot → ToolResult
unfolding transfer_snapshot_result transfer_error_result transfer_error_code error_text
snapshot_or_error y (ok s) = transfer_snapshot_result y s (has_failed s.status)
snapshot_or_error y (err e) = transfer_error_result (transfer_error_code e) (error_text e)

-- Where the handler of `file_transfer` stands: it has a result, or waits for the transfer.
pub data Starting : Type 0 where
  answers : ToolResult → Starting
  awaits : String → Starting

-- the arguments that cannot be decoded
abbrev invalid_arguments : String → String → ToolResult
invalid_arguments tool e =
    transfer_error_result "InvalidRequest"
      (concat "Invalid " (concat tool (concat " arguments: " e)))

-- `file_transfer` until `StartTransfer` waits; the input is decoded, or the text of the error
unfoldable pub start_file_transfer :
    Net → ℕ → Option String → Result (List ℕ) → Result Request → Manager → Starting × Manager
unfolding transfer_error_result transfer_error_code error_text
start_file_transfer net now ctx random (err e) m =
    (answers (invalid_arguments "file_transfer" (error_text e)), m)
start_file_transfer net now ctx random (ok r) m =
    let (started, m') = start_transfer net now ctx random r m in
    elim started [
      | err e ↦ (answers (transfer_error_result (transfer_error_code e) (error_text e)), m')
      | ok id ↦ (awaits id, m')
    ]

-- the rest of it
unfoldable pub finish_file_transfer :
    Rendering → Net → ℕ → String → Start.Wake → Manager → ToolResult × Manager
unfolding snapshot_or_error
finish_file_transfer y net now id wake m =
    let (result, m') = finish_start net now id wake m in (snapshot_or_error y result, m')

-- `file_transfer_status`
unfoldable pub file_transfer_status : Rendering → ℕ → Result String → Manager → ToolResult
unfolding snapshot_or_error transfer_error_result error_text
file_transfer_status y now (err e) m = invalid_arguments "file_transfer_status" (error_text e)
file_transfer_status y now (ok id) m = snapshot_or_error y (transfer_status now id m)

-- `file_transfer_cancel`, whose snapshot is no error
unfoldable pub file_transfer_cancel :
    Rendering → Net → ℕ → Result String → Manager → ToolResult × Manager
unfolding transfer_snapshot_result transfer_error_result transfer_error_code error_text
file_transfer_cancel y net now (err e) m =
    (invalid_arguments "file_transfer_cancel" (error_text e), m)
file_transfer_cancel y net now (ok id) m =
    let (result, m') = cancel_transfer net now id m in
    elim result [
      | err e ↦ (transfer_error_result (transfer_error_code e) (error_text e), m')
      | ok s ↦ (transfer_snapshot_result y s false, m')
    ]
