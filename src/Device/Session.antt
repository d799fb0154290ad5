-- ===== src/Device/Session.antt =====
-- One live transport: internal/device/manager.go, the methods of `Session`.
use zshell_gateway.Base.{
  ℕ, String, true, List, [], ◌∷◌, ◌++◌, Option, none, some, nat_beq, if◌then◌else◌, nat_eq,
}
use zshell_gateway.Dict.{get, put, remove}
use zshell_gateway.Text.Decimal.{concat, decimal}
use zshell_gateway.Device.Types.{
  ℤ, pos, incr, decr, Message, WireResponse, PendingKind, pending_call, pending_ping, Session,
  Manager, Error, Result, ok, err, transport_closed, transport_failed, other, nil_pointer, Net,
}
use zshell_gateway.Device.Types

-- `err.Error()` of the errors that a send returns
unfoldable pub error_text : Error → String
error_text transport_closed = "device transport closed"
error_text (transport_failed e) = concat "device transport closed: " e
error_text Types.Error.no_device = "no device connected"
error_text Types.Error.device_required = "multiple devices connected; device is required"
error_text Types.Error.device_not_found = "device not found"
error_text Types.Error.transfer_not_found = "transfer not found"
error_text Types.Error.transfer_same_device = "source and target devices must be different"
error_text Types.Error.invalid_transfer_request = "invalid transfer request"
error_text (Types.Error.transfer_device_busy name) =
    concat "device is already participating in a transfer: " name
error_text (Types.Error.context_error e) = e
error_text Types.Error.nil_pointer = "invalid memory address or nil pointer dereference"
error_text (other e) = e

-- a write through a session pointer
unfoldable pub set_session : ℕ → Session → Manager → Manager
set_session h s m = record m { sessions = λ j. if nat_beq h j then s else m.sessions j }

-- the message is handed to the transport
unfoldable pub accepted : ℕ → Message → Manager → Manager
unfolding set_session
accepted h v m = set_session h (record (m.sessions h) { sent = (m.sessions h).sent ++ v ∷ [] }) m

-- `send`, with the error of a closed session or of the transport
unfoldable pub send : Net → ℕ → Message → Manager → Option Error × Manager
send net h value m =
    if (m.sessions h).done then (some transport_closed, m) else elim (net h value) [
      | none ↦ (none, accepted h value m)
      | some e ↦ (some (transport_failed (concat "send: " e)), m)
    ]

-- `sendTransferChunk`; a nil session is a panic
unfoldable pub send_transfer_chunk :
    Net → Option ℕ → String → ℕ → List ℕ → Manager → Option Error × Manager
send_transfer_chunk net none id sequence payload m = (some nil_pointer, m)
send_transfer_chunk net (some h) id sequence payload m =
    if (m.sessions h).done
    then (some transport_closed, m)
    else elim (net h (Types.Message.transfer_chunk id sequence payload)) [
      | none ↦ (none, accepted h (Types.Message.transfer_chunk id sequence payload) m)
      | some e ↦ (some (transport_failed (concat "send transfer chunk: " e)), m)
    ]

unfoldable pub register_pending : ℕ → PendingKind → Session → Result Session
register_pending id kind s = if s.done then err transport_closed else elim (get id s.pending) [
  | none ↦ ok (record s { pending = put id kind s.pending })
  | some _ ↦ err (other (concat "duplicate pending request id " (decimal id)))
]

abbrev pub uncount : PendingKind → ℤ → ℤ
uncount pending_call n = decr n
uncount pending_ping n = n

-- The waiter that was registered under the id, and the session without it.
unfoldable pub take_pending : ℕ → Session → Option PendingKind × Session
take_pending id s = elim (get id s.pending) [
  | none ↦ (none, s)
  | some kind ↦ (
    some kind,
    record s { pending = remove id s.pending; active_calls = uncount kind s.active_calls },
  )
]

unfoldable pub unregister_pending : ℕ → Session → Session
unregister_pending id s = elim (get id s.pending) [
  | none ↦ s
  | some kind ↦ record s {
    pending = remove id s.pending;
    active_calls = uncount kind s.active_calls;
  }
]

-- `close`, whose body runs once
unfoldable pub close : Session → Session
close s = if s.done then s else record s { done = true; pending = []; active_calls = pos 0 }
