-- ===== src/Device/Events/Stable.antt =====
-- A property of the transfer table and of the reservations that the operations on transfers keep is
-- kept by every event: sessions, calls and pings touch neither.
pub mod Calls
use zshell_gateway.Base.{
  ℕ, String, inl, inr, List, [], ◌∷◌, Option, none, some, arith, Option-cases, if-elim, string_eq,
  str_beq, not, ◌||◌, leb, ◌+◌,
}
use text.Mathlib.Text
use zshell_gateway.Dict.{Dict, get}
use zshell_gateway.Device.Types.{
  Info, Session, Transfer, Device, Manager, Error, Message, Result, ok, err, Net, WireResponse,
  context_error, pending_call, pending_ping, incr,
}
use zshell_gateway.Device.Session.{send, set_session, accepted, register_pending}
use zshell_gateway.Device.Registry.{
  attach, bind_device, is_live, normalize_info, update_device, touch, resolve, is_attached,
  new_manager,
}
use zshell_gateway.Device.Transfer.Endings.{
  fail_all, ids_of_device, live_ids, fail_transfers_for_device, cancel_all_transfers,
  expire_transfer,
}
use zshell_gateway.Device.Transfer.State.{fail_transfer, cancel_transfer}
use zshell_gateway.Device.Transfer.Handlers.{handle_transfer_message}
use zshell_gateway.Device.Transfer.Chunks.{handle_transfer_chunk}
use zshell_gateway.Device.Transfer.Start.{
  Request, announce, finish_start, ready_closed, context_done,
}
use zshell_gateway.Text.Decimal.{concat}
use zshell_gateway.Device.Frame.{parse_frame, handle_transfer_binary}
use zshell_gateway.Device.Lifecycle.{
  Frame, receive_error, binary, malformed, response, close_session, detach, close_all,
  close_manager, unbind_all, deliver, dispatch, read_frame, live_sessions,
}
use zshell_gateway.Device.Calls.{
  RawJson, or_empty_object, Envelope, Outcome, returned, device_failure, failed, Wake, answered,
  gave_up, session_done, send_registered, begin_call, call_error, start_call, complete_call,
  finish_call, begin_ping, start_ping, finish_ping, after_ping, monitor_tick, is_transport_closed,
  is_positive, take_id, next_id,
}
use zshell_gateway.Device.Events.{
  Event, attaches, detaches, shuts_down, receives, posts_chunk, wakes, cancels, expires, call_wakes,
  heartbeats, step, run, FreshAt, Fresh, serve_frame,
}

-- what the operations on transfers keep
pub record Laws (P : Dict String Transfer → Dict String String → Type 0) : Type 0 where
  pub fails :
      (net : Net) (now : ℕ) (id message : String) (m : Manager)
      → P m.transfers m.active_transfer
      → P
          (fail_transfer net now id message m).transfers
          (fail_transfer net now id message m).active_transfer
  pub messages :
      (net : Net) (now h : ℕ) (r : WireResponse) (m : Manager)
      → P m.transfers m.active_transfer
      → P
          (handle_transfer_message net now h r m).transfers
          (handle_transfer_message net now h r m).active_transfer
  pub chunks :
      (net : Net) (now h : ℕ) (id : String) (sequence : ℕ) (payload : List ℕ) (m : Manager)
      → P m.transfers m.active_transfer
      → P
          (handle_transfer_chunk net now h id sequence payload m).1.transfers
          (handle_transfer_chunk net now h id sequence payload m).1.active_transfer
  pub announces :
      (net : Net) (now : ℕ) (id : String) (r : Request) (source target : ℕ) (m : Manager)
      → P m.transfers m.active_transfer
      → P
          (announce net now id r source target m).transfers
          (announce net now id r source target m).active_transfer
  pub cancels :
      (net : Net) (now : ℕ) (id : String) (m : Manager)
      → P m.transfers m.active_transfer
      → P
          (cancel_transfer net now id m).1.transfers
          (cancel_transfer net now id m).1.active_transfer
  pub expires :
      (net : Net) (now : ℕ) (id : String) (m : Manager)
      → P m.transfers m.active_transfer
      → P (expire_transfer net now id m).transfers (expire_transfer net now id m).active_transfer

abbrev pub Kept : (Dict String Transfer → Dict String String → Type 0) → Manager → Type 0
Kept P m = P m.transfers m.active_transfer

module _ {P : Dict String Transfer → Dict String String → Type 0} (laws : Laws P) where
  pub send-Kept :
      (net : Net) (h : ℕ) (v : Message) (m : Manager) → Kept P m → Kept P (send net h v m).1
  unfolding send accepted set_session
  send-Kept net h v m inv = ground arith

  fail_all-Kept :
      (net : Net) (now : ℕ) (message : String) (ids : List String) (m : Manager)
      → Kept P m
      → Kept P (fail_all net now message ids m)
  unfolding fail_all
  fail_all-Kept net now message [] m inv = inv
  fail_all-Kept net now message (id ∷ ids) m inv =
      fail_all-Kept net now message ids (fail_transfer net now id message m)
        (laws.fails net now id message m inv)

  fail_transfers_for_device-Kept :
      (net : Net) (now : ℕ) (device reason : String) (m : Manager)
      → Kept P m
      → Kept P (fail_transfers_for_device net now device reason m)
  unfolding fail_transfers_for_device
  fail_transfers_for_device-Kept net now device reason m inv =
      fail_all-Kept net now (concat reason (concat ": " device)) (ids_of_device device m.transfers)
        m inv

  cancel_all_transfers-Kept :
      (net : Net) (now : ℕ) (reason : String) (m : Manager)
      → Kept P m
      → Kept P (cancel_all_transfers net now reason m)
  unfolding cancel_all_transfers
  cancel_all_transfers-Kept net now reason m inv =
      fail_all-Kept net now reason (live_ids m.transfers) m inv

  update_device-Kept :
      (h : ℕ) (f : Device → Device) (m : Manager) → Kept P m → Kept P (update_device h f m)
  unfolding update_device
  update_device-Kept h f m inv = ground arith

  touch-Kept : (now h : ℕ) (m : Manager) → Kept P m → Kept P (touch now h m)
  unfolding touch
  touch-Kept now h m inv = update_device-Kept h _ m inv

  pub attach-Kept :
      (t : Option String) (info : Info) (now : ℕ) (m : Manager)
      → Kept P m
      → Kept P (attach t info now m).1
  unfolding attach bind_device
  attach-Kept none info now m inv = inv
  attach-Kept (some t) info now m inv = elim (Option-cases (normalize_info info)) [
    | inl e ↦ rw (e, attach) inv
    | inr (i, e) ↦
        rw (e, attach)
          (if-elim (λ (p : Option ℕ × Manager). Kept P p.1) (is_live (get i.name m.devices)) _ _
            (λ _. inv) (λ _. inv))
  ]

  pub detach-Kept : (net : Net) (now h : ℕ) (m : Manager) → Kept P m → Kept P (detach net now h m)
  unfolding detach close_session set_session
  detach-Kept net now h m inv =
      fail_transfers_for_device-Kept net now (m.sessions h).info.name "device disconnected" _
        (update_device-Kept h (λ d. record d { session = none; last_seen = now }) m inv)

  close_all-Kept : (hs : List ℕ) (m : Manager) → Kept P m → Kept P (close_all hs m)
  unfolding close_all close_session set_session
  close_all-Kept [] m inv = inv
  close_all-Kept (h ∷ hs) m inv = close_all-Kept hs (close_session h m) inv

  pub close_manager-Kept :
      (net : Net) (now : ℕ) (m : Manager) → Kept P m → Kept P (close_manager net now m)
  unfolding close_manager
  close_manager-Kept net now m inv =
      let m1 = cancel_all_transfers net now "gateway shutting down" m in
      close_all-Kept (live_sessions m1.devices) (record m1 { devices = unbind_all now m1.devices })
        (cancel_all_transfers-Kept net now "gateway shutting down" m inv)

  handle_transfer_binary-Kept :
      (net : Net) (now h : ℕ) (frame : List ℕ) (m : Manager)
      → Kept P m
      → Kept P (handle_transfer_binary net now h frame m).1
  unfolding handle_transfer_binary
  handle_transfer_binary-Kept net now h frame m inv = elim (Option-cases (parse_frame frame)) [
    | inl e ↦ rw (e, handle_transfer_binary) inv
    | inr ((id, sequence, payload), e) ↦
        rw (e, handle_transfer_binary) (laws.chunks net now h id sequence payload m inv)
  ]

  deliver-Kept : (h : ℕ) (r : WireResponse) (m : Manager) → Kept P m → Kept P (deliver h r m)
  unfolding deliver set_session
  deliver-Kept h r m inv = ground arith

  dispatch-Kept :
      (net : Net) (now h : ℕ) (r : WireResponse) (m : Manager)
      → Kept P m
      → Kept P (dispatch net now h r m).1
  unfolding dispatch
  dispatch-Kept net now h r m inv =
      if-elim (λ (p : Option Error × Manager). Kept P p.1)
        (str_beq r.type "result" || str_beq r.type "pong") _ _ (λ _. deliver-Kept h r m inv)
        (λ _.
          if-elim (λ (p : Option Error × Manager). Kept P p.1) (Text.starts_with r.type "transfer_")
            _ _ (λ _. laws.messages net now h r m inv) (λ _. inv))

  read_frame-Kept :
      (net : Net) (now h : ℕ) (f : Frame) (m : Manager)
      → Kept P m
      → Kept P (read_frame net now h f m).1
  unfolding read_frame
  read_frame-Kept net now h (receive_error e) m inv = inv
  read_frame-Kept net now h (binary frame) m inv =
      handle_transfer_binary-Kept net now h frame (touch now h m) (touch-Kept now h m inv)
  read_frame-Kept net now h (malformed e) m inv = touch-Kept now h m inv
  read_frame-Kept net now h (response r) m inv =
      dispatch-Kept net now h r (touch now h m) (touch-Kept now h m inv)

  pub serve_frame-Kept :
      (net : Net) (now h : ℕ) (f : Frame) (m : Manager)
      → Kept P m
      → Kept P (serve_frame net now h f m)
  serve_frame-Kept net now h f m inv = elim (Option-cases (read_frame net now h f m).0) [
    | inl e ↦ rw (e, serve_frame) (read_frame-Kept net now h f m inv)
    | inr (x, e) ↦ rw (e, serve_frame) (detach-Kept net now h _ (read_frame-Kept net now h f m inv))
  ]
