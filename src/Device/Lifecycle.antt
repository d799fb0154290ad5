-- ===== src/Device/Lifecycle.antt =====
-- internal/device/manager.go: how sessions end (`Detach`, `Close`) and the loop that reads frames.
use zshell_gateway.Base.{
  ℕ, String, ◌||◌, List, [], ◌∷◌, Option, none, some, str_beq, if◌then◌else◌, string_eq, nat_eq,
}
use text.Mathlib.Text
use zshell_gateway.Dict.{Dict, put}
use zshell_gateway.Text.Decimal.{concat, quoted}
use zshell_gateway.Device.Types.{WireResponse, Device, Manager, Error, transport_failed, Net}
use zshell_gateway.Device.Session.{set_session, take_pending, close}
use zshell_gateway.Device.Registry.{update_device, touch}
use zshell_gateway.Device.Transfer.Handlers.{handle_transfer_message}
use zshell_gateway.Device.Transfer.Endings.{fail_transfers_for_device, cancel_all_transfers}
use zshell_gateway.Device.Frame.{handle_transfer_binary}

unfoldable pub close_session : ℕ → Manager → Manager
unfolding close set_session
close_session h m = set_session h (close (m.sessions h)) m

-- `Detach`
unfoldable pub detach : Net → ℕ → ℕ → Manager → Manager
unfolding update_device close_session
detach net now h m =
    fail_transfers_for_device net now (m.sessions h).info.name "device disconnected"
      (close_session h (update_device h (λ d. record d { session = none; last_seen = now }) m))

-- the loop of `Close` over the devices
unfoldable pub unbind_all : ℕ → Dict String Device → Dict String Device
unbind_all now [] = []
unbind_all now ((name, d) ∷ rest) =
    let d' : Device = elim d.session [
      | none ↦ d
      | some _ ↦ record d { session = none; last_seen = now }
    ] in
    (name, d') ∷ unbind_all now rest

unfoldable pub live_sessions : Dict String Device → List ℕ
live_sessions [] = []
live_sessions ((_, d) ∷ rest) =
    let later = live_sessions rest in elim d.session [ none ↦ later | some h ↦ h ∷ later ]

unfoldable pub close_all : List ℕ → Manager → Manager
unfolding close_session
close_all [] m = m
close_all (h ∷ hs) m = close_all hs (close_session h m)

-- `Close`
unfoldable pub close_manager : Net → ℕ → Manager → Manager
unfolding unbind_all live_sessions close_all
close_manager net now m =
    let m1 = cancel_all_transfers net now "gateway shutting down" m in
    close_all (live_sessions m1.devices) (record m1 { devices = unbind_all now m1.devices })

-- What `ReceiveFrame` returned: an error, a binary frame, or a text frame that `json.Unmarshal`
-- read as a message or refused.
pub data Frame : Type 0 where
  receive_error : String → Frame
  binary : List ℕ → Frame
  malformed : String → Frame
  response : WireResponse → Frame

-- `pending.ch <- response`
unfoldable pub deliver : ℕ → WireResponse → Manager → Manager
unfolding take_pending set_session
deliver h r m =
    let (waiter, s) = take_pending r.id (m.sessions h) in
    elim waiter [
      | none ↦ m
      | some _ ↦ set_session h (record s { mailbox = put r.id r s.mailbox }) m
    ]

-- the `switch` on the type of a message
unfoldable pub dispatch : Net → ℕ → ℕ → WireResponse → Manager → Option Error × Manager
unfolding deliver
dispatch net now h r m =
    if str_beq r.type "result" || str_beq r.type "pong"
    then (none, deliver h r m)
    else if Text.starts_with r.type "transfer_"
    then (none, handle_transfer_message net now h r m)
    else (some (transport_failed (concat "unsupported response type " (quoted r.type))), m)

-- one round of `readLoop`; an error ends the loop
unfoldable pub read_frame : Net → ℕ → ℕ → Frame → Manager → Option Error × Manager
unfolding touch dispatch
read_frame net now h (receive_error e) m = (some (transport_failed (concat "receive: " e)), m)
read_frame net now h (binary frame) m =
    (none, (handle_transfer_binary net now h frame (touch now h m)).1)
read_frame net now h (malformed e) m =
    (some (transport_failed (concat "decode response: " e)), touch now h m)
read_frame net now h (response r) m = dispatch net now h r (touch now h m)

-- `Serve` over the frames that arrive, each with its time and the transports' answers; it detaches
-- where `readLoop` returns.
unfoldable pub serve : List (Net × ℕ × Frame) → ℕ → Manager → Manager
unfolding read_frame detach
serve [] h m = m
serve ((net, now, frame) ∷ rest) h m =
    let (failure, m') = read_frame net now h frame m in
    elim failure [ none ↦ serve rest h m' | some _ ↦ detach net now h m' ]
