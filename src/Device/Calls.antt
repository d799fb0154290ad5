-- ===== src/Device/Calls.antt =====
-- internal/device/manager.go: calls, pings and the heartbeat. Waiting is split off: the first part of
-- a call ends where it waits, and the second takes the case of the `select` that fired.
pub mod Counting
use zshell_gateway.Base.{
  ℕ, zero, suc, ◌+◌, ◌%◌, String, Bool, true, false, not, ◌||◌, Option, none, some, nat_beq,
  str_beq, leb, if◌then◌else◌,
}
use zshell_gateway.Text.Trim.{trim_space, byte_len}
use zshell_gateway.Text.Decimal.{concat, decimal, quoted}
use zshell_gateway.Device.Types.{
  ℤ, pos, negsuc, incr, Message, WireResponse, pending_call, pending_ping, Session, Manager, Error,
  Result, ok, err, no_device, device_not_found, transport_closed, transport_failed, context_error,
  other, Net, uint64,
}
use zshell_gateway.Device.Types
use zshell_gateway.Device.Session.{send, set_session, register_pending, unregister_pending}
use zshell_gateway.Device.Registry.{resolve, is_attached}
use zshell_gateway.Device.Lifecycle.{detach}

-- `m.nextCallID.Add(1)`
abbrev pub next_id : Manager → ℕ
next_id m = (m.next_call_id + 1) % uint64

abbrev pub take_id : Manager → Manager
take_id m = record m { next_call_id = next_id m }

-- `Failure` of protocol.go; `details` is its JSON text
pub record Failure : Type 0 where
  pub code : String
  pub message : String
  pub details : String

-- `callEnvelope`, as `json.Unmarshal` reads it
pub record Envelope : Type 0 where
  pub ok : Bool
  pub result : String
  pub is_error : Bool
  pub error : Option Failure

-- `Session.call` returns a result, a failure of the device, or an error.
pub data Outcome : Type 0 where
  returned : String → Bool → Outcome
  device_failure : Failure → Outcome
  failed : Error → Outcome

-- raw JSON: its text, and what `json.Valid` says of it
pub record RawJson : Type 0 where
  pub text : String
  pub valid : Bool

abbrev pub or_empty_object : RawJson → RawJson
or_empty_object j = if nat_beq (byte_len j.text) 0 then record { text = "{}"; valid = true } else j

-- the send of a call or a ping, which withdraws the waiter if it fails
unfoldable pub send_registered : Net → ℕ → ℕ → Message → Manager → Option Error × Manager
unfolding set_session
send_registered net h id message m =
    let (failure, m') = send net h message m in
    elim failure [
      | none ↦ (none, m')
      | some e ↦ (some e, set_session h (unregister_pending id (m'.sessions h)) m')
    ]

-- `Session.call` up to `registerPending`
unfoldable pub register_call :
    Option String → ℕ → ℕ → String → RawJson → Manager → Option Error × Manager
unfolding set_session
register_call ctx h id operation raw m =
    if not (or_empty_object raw).valid
    then (
      some (other (concat "arguments for " (concat (quoted operation) " are not valid JSON"))),
      m,
    )
    else elim ctx [
      | some e ↦ (some (context_error e), m)
      | none ↦ elim (register_pending id pending_call (m.sessions h)) [
        | err e ↦ (some e, m)
        | ok s ↦ (none, set_session h s m)
      ]
    ]

-- `s.activeCalls.Add(1)`
unfoldable pub count : Session → Session
count s = record s { active_calls = incr s.active_calls }

unfoldable pub count_call : ℕ → Manager → Manager
unfolding set_session count
count_call h m = set_session h (count (m.sessions h)) m

-- the send of `Session.call`
unfoldable pub send_call : Net → ℕ → ℕ → String → RawJson → Manager → Option Error × Manager
unfolding send_registered
send_call net h id operation raw m =
    send_registered net h id (Types.Message.call id operation (or_empty_object raw).text) m

-- `Session.call` until its `select`, where nothing comes between its steps
unfoldable pub begin_call :
    Net → Option String → ℕ → ℕ → String → RawJson → Manager → Option Error × Manager
unfolding register_call count_call send_call
begin_call net ctx h id operation raw m =
    let (failure, m') = register_call ctx h id operation raw m in
    elim failure [
      | some e ↦ (some e, m')
      | none ↦ send_call net h id operation raw (count_call h m')
    ]

-- The case of a `select` that fires while a call or a ping waits.
pub data Wake : Type 0 where
  answered : WireResponse → Wake
  gave_up : String → Wake
  session_done : Wake

abbrev outcome_of : Envelope → Outcome
outcome_of e =
    if not e.ok
    then elim e.error [
      | none ↦ failed (other "device returned failed response without an error")
      | some f ↦ device_failure f
    ]
    else if nat_beq (byte_len e.result) 0
    then failed (other "device returned success without a result")
    else returned e.result e.is_error

-- What the waiting call returns. The envelope is what `json.Unmarshal` makes of the payload.
unfoldable pub finish_call : (String → Option Envelope) → ℕ → Wake → Outcome
finish_call unmarshal id (answered r) =
    if not (str_beq r.type "result") || not (nat_beq r.id id) || nat_beq (byte_len r.payload) 0
    then failed (other (concat "invalid response for device call " (decimal id)))
    else elim (unmarshal r.payload) [
      | none ↦ failed (other "decode device call envelope")
      | some e ↦ outcome_of e
    ]
finish_call unmarshal id (gave_up e) = failed (context_error e)
finish_call unmarshal id session_done = failed transport_closed

-- `errors.Is(err, ErrTransportClosed)`
unfoldable pub is_transport_closed : Error → Bool
is_transport_closed transport_closed = true
is_transport_closed (transport_failed _) = true
is_transport_closed _ = false

-- how `Manager.Call` passes on an error of `Session.call`
unfoldable pub call_error : Net → ℕ → String → ℕ → Error → Manager → Outcome × Manager
unfolding is_transport_closed
call_error net now name h e m =
    if is_transport_closed e
    then (
      failed (if str_beq (trim_space name) "" then no_device else device_not_found),
      detach net now h m,
    )
    else (failed e, m)

-- `Manager.Call` until it waits, where nothing comes between its steps: an outcome at once, or the session and the id that it waits for
pub data Waiting : Type 0 where
  finished : Outcome → Waiting
  waiting : ℕ → ℕ → Waiting

unfoldable pub start_call :
    Net → ℕ → Option String → String → String → RawJson → Manager → Waiting × Manager
unfolding call_error begin_call
start_call net now ctx name operation arguments m = elim (resolve name m) [
  | err e ↦ (finished (failed e), m)
  | ok h ↦
      let (failure, m') = begin_call net ctx h (next_id m) operation arguments (take_id m) in
      elim failure [
        | none ↦ (waiting h (next_id m), m')
        | some e ↦ let (o, m'') = call_error net now name h e m' in (finished o, m'')
      ]
]

-- the rest of `Manager.Call`
unfoldable pub complete_call :
    (String → Option Envelope) → Net → ℕ → String → ℕ → ℕ → Wake → Manager → Outcome × Manager
unfolding call_error finish_call
complete_call unmarshal net now name h id wake m = elim (finish_call unmarshal id wake) [
  | failed e ↦ call_error net now name h e m
  | returned result is_error ↦ (returned result is_error, m)
  | device_failure f ↦ (device_failure f, m)
]

-- `Session.ping` until its `select`
unfoldable pub begin_ping : Net → ℕ → ℕ → Manager → Option Error × Manager
unfolding send_registered
begin_ping net h id m = elim (register_pending id pending_ping (m.sessions h)) [
  | err e ↦ (some e, m)
  | ok s ↦ send_registered net h id (Types.Message.ping id) (set_session h s m)
]

-- the `select` of `Session.ping`; the text is the timeout's
unfoldable pub finish_ping : ℕ → ℕ → Wake → Manager → Option Error × Manager
unfolding set_session
finish_ping h id (answered r) m =
    if not (str_beq r.type "pong") || not (nat_beq r.id id)
    then (some (other (concat "invalid device pong for " (decimal id))), m)
    else (none, m)
finish_ping h id (gave_up timeout) m = (
  some (other (concat "heartbeat timeout after " timeout)),
  set_session h (unregister_pending id (m.sessions h)) m,
)
finish_ping h id session_done m =
    (some transport_closed, set_session h (unregister_pending id (m.sessions h)) m)

-- `Manager.Ping` until it waits for the id
unfoldable pub start_ping : Net → ℕ → Manager → Result ℕ × Manager
unfolding begin_ping
start_ping net h m =
    if not (is_attached h m)
    then (err transport_closed, m)
    else let (failure, m') = begin_ping net h (next_id m) (take_id m) in
      elim failure [ none ↦ (ok (next_id m), m') | some e ↦ (err e, m') ]

abbrev pub heartbeat_fail_limit : ℕ
heartbeat_fail_limit = 3

abbrev pub is_positive : ℤ → Bool
is_positive (pos zero) = false
is_positive (pos (suc n)) = true
is_positive (negsuc n) = false

-- What `Monitor` does with the result of a ping: `some failures` goes on, `none` returns.
unfoldable pub after_ping : Net → ℕ → ℕ → Option Error → ℕ → Manager → Option ℕ × Manager
unfolding is_transport_closed
after_ping net now h none failures m = (some 0, m)
after_ping net now h (some e) failures m =
    if is_transport_closed e
    then (none, detach net now h m)
    else if leb heartbeat_fail_limit (failures + 1)
    then (none, detach net now h m)
    else (some (failures + 1), m)

-- One tick of `Monitor`, with what the ping meets if it is sent and waits.
unfoldable pub monitor_tick : Net → ℕ → ℕ → Wake → ℕ → Manager → Option ℕ × Manager
unfolding after_ping start_ping finish_ping
monitor_tick net now h wake failures m =
    if is_positive (m.sessions h).active_calls
    then (some 0, m)
    else let (started, m1) = start_ping net h m in
      elim started [
        | err e ↦ after_ping net now h (some e) failures m1
        | ok id ↦
            let (failure, m2) = finish_ping h id wake m1 in after_ping net now h failure failures m2
      ]
