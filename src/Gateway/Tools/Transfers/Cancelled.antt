-- ===== src/Gateway/Tools/Transfers/Cancelled.antt =====
-- What the tools show of a transfer that has been cancelled.
use zshell_gateway.Base.{ℕ, String, ◌≡◌, refl, ap, ◌∙◌, true, false, some, string_eq}
use zshell_gateway.Dict.{get, get-put_self}
use zshell_gateway.Text.Trim.{trim_space}
use zshell_gateway.Device.Types.{transfer_cancel, Transfer, cancelled, Manager, Net, ok}
use zshell_gateway.Device.Transfer.State.{
  is_final, snapshot, cancel_transfer, transfer_status, store, release_devices, stop_timer,
}
use zshell_gateway.Device.Transfer.Preserve.{ended}
use zshell_gateway.Device.Transfer.Verified.{notify-transfers}
use zshell_gateway.Gateway.Tools.Results.{Rendering, transfer_snapshot_result}
use zshell_gateway.Gateway.Tools.Transfers.{
  snapshot_or_error, file_transfer_status, file_transfer_cancel,
}

module _ (net : Net) (now : ℕ) (id : String) (m : Manager) (t : Transfer)
    (found : get (trim_space id) m.transfers ≡ some t) (live : is_final t.state ≡ false) where
  cancel-result :
      (cancel_transfer net now id m).0 ≡ ok (snapshot now (ended cancelled "cancelled" now t))
  unfolding cancel_transfer stop_timer
  cancel-result = rw (found, cancel_transfer) (rw live refl)

  get-cancel :
      get (trim_space id) (cancel_transfer net now id m).1.transfers
      ≡ some (ended cancelled "cancelled" now t)
  unfolding cancel_transfer store release_devices stop_timer
  get-cancel =
      rw (found, cancel_transfer)
        (rw live (
          ap (get (trim_space id)) (
            notify-transfers net t.target (transfer_cancel (trim_space id)) _
            ∙ notify-transfers net t.source (transfer_cancel (trim_space id)) _)
          ∙ get-put_self (trim_space id) (ended cancelled "cancelled" now t) m.transfers))

  status-cancel :
      (later : ℕ)
      → transfer_status later id (cancel_transfer net now id m).1
        ≡ ok (snapshot later (ended cancelled "cancelled" now t))
  unfolding transfer_status
  status-cancel later = rw (get-cancel, transfer_status) refl

  -- Cancelling a transfer that has not ended is no error and shows it cancelled; whoever asks for its status
  -- afterwards is shown the same cancelled transfer, as an error.
  pub cancel-status :
      (y : Rendering) (later : ℕ)
      → ((file_transfer_cancel y net now (ok id) m).0
          ≡ transfer_snapshot_result y (snapshot now (ended cancelled "cancelled" now t)) false)
        × (file_transfer_status y later (ok id) (file_transfer_cancel y net now (ok id) m).1
            ≡ transfer_snapshot_result y (snapshot later (ended cancelled "cancelled" now t)) true)
  unfolding file_transfer_cancel file_transfer_status snapshot_or_error snapshot
  cancel-status y later = (
    rw (cancel-result, file_transfer_cancel) refl,
    rw (cancel-result, file_transfer_cancel) (ap (snapshot_or_error y) (status-cancel later)),
  )
