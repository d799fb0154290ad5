-- ===== src/Device/Http/Sessions.antt =====
-- http.go: the table of sessions, the hello, the poll and the messages of a device.
use zshell_gateway.Base.{
  ℕ, suc, String, Bool, true, false, not, ◌||◌, List, [], ◌∷◌, ◌++◌, Option, none, some, ltb,
  nat_beq, str_beq, length, take, if◌then◌else◌, string_eq,
}
use zshell_gateway.Dict.{get, put, remove}
use zshell_gateway.Text.Decimal.{decimal}
use zshell_gateway.Text.Hex.{encode}
use zshell_gateway.Device.Types.{
  HelloMessage, protocol_version, Info, Manager, nil_pointer, Result, ok, err,
}
use zshell_gateway.Device.Registry.{attach}
use zshell_gateway.Device.Http.Types.{
  Progress, blocked, returns, HttpTransport, HttpEntry, HttpHandler, HttpRequest, HttpReply,
  replies, no_reply, bytes, json_ack, http_error, not_allowed, no_content, max_control_body_bytes,
  outbound_queue, finished,
}

-- `NewHTTPHandler`; `unused` is what the store holds where nothing is allocated
unfoldable pub new_http_handler : String → HttpEntry → HttpHandler
new_http_handler token unused = record {
  token = token;
  sessions = [];
  entries = λ _. unused;
  next_entry = 0;
}

-- a write through an entry's transport pointer
unfoldable pub set_transport : ℕ → HttpTransport → HttpHandler → HttpHandler
set_transport e t h = record h {
  entries = λ j. if nat_beq e j then record (h.entries e) { transport = t } else h.entries j;
}

-- `lookup`
unfoldable pub lookup : String → HttpHandler → Option ℕ
lookup id h = get id h.sessions

-- `h.sessions[id] == expected`
abbrev pub is_entry : ℕ → Option ℕ → Bool
is_entry expected none = false
is_entry expected (some e) = nat_beq e expected

-- `remove`
unfoldable pub remove_session : String → ℕ → HttpHandler → HttpHandler
remove_session id expected h =
    if is_entry expected (get id h.sessions)
    then record h { sessions = remove id h.sessions }
    else h

-- `Close` of an entry's transport
unfoldable pub close_transport : ℕ → HttpHandler → HttpHandler
unfolding set_transport remove_session
close_transport e h =
    let t = (h.entries e).transport in
    if t.done
    then h
    else let closed = set_transport e (record t { done = true }) h in
      if t.on_close then remove_session t.id e closed else closed

-- `newHTTPSessionID`: the bytes that `rand.Read` gave, or its error
abbrev pub new_http_session_id : Result (List ℕ) → Result String
new_http_session_id (ok random) = ok (encode random)
new_http_session_id (err e) = err e

-- the transport of a new session
unfoldable pub new_transport : String → HttpTransport
new_transport id = record {
  id = id;
  outbound = [];
  inbound = [];
  done = false;
  on_close = false;
  chunk = none;
  chunks = λ _. record {
    transfer_id = "";
    sequence = 0;
    payload = [];
    ack = none;
    phase = finished (some nil_pointer);
  };
  next_chunk = 0;
}

-- the entry is allocated, with a transport whose callback is not yet set
unfoldable pub allocate_entry : HttpTransport → ℕ → HttpHandler → HttpHandler
allocate_entry t session h = record h {
  entries = λ j.
      if nat_beq h.next_entry j then record { transport = t; session = session } else h.entries j;
  next_entry = suc h.next_entry;
}

-- `transport.onClose = …`, and the entry is put into the table
unfoldable pub register_entry : ℕ → HttpHandler → HttpHandler
unfolding set_transport
register_entry e h =
    let t = (h.entries e).transport in
    let h' = set_transport e (record t { on_close = true }) h in
    record h' { sessions = put t.id e h'.sessions }

abbrev refusal : String → HttpReply
refusal message =
    replies 200 [] (json_ack (record { type = "hello_ack"; accepted = false; message = message }))

-- the reply to a device that is attached
abbrev pub welcome : String → HttpReply
welcome id =
    replies 200 (("X-Zshell-Session-ID", id) ∷ [])
      (json_ack (record { type = "hello_ack"; accepted = true; message = "ok" }))

-- `io.ReadAll(io.LimitReader(body, limit+1))`, refused where it is longer than the limit
unfoldable pub read_limited : ℕ → Option (List ℕ) → Option (List ℕ)
read_limited limit none = none
read_limited limit (some body) =
    let got = take (suc limit) body in if ltb limit (length got) then none else some got

-- the rest of `handleHello`, for a message of the right protocol
unfoldable pub accept_hello :
    ℕ → Result (List ℕ) → Info → HttpHandler → Manager → HttpReply × HttpHandler × Manager
unfolding new_transport allocate_entry register_entry
accept_hello now random info h m = elim (new_http_session_id random) [
  | err e ↦ (http_error "failed to create session" 500, h, m)
  | ok id ↦
      let (session, m') = attach (some "http") info now m in
      elim session [
        | none ↦ (refusal "invalid or duplicate device name", h, m')
        | some s ↦
            (welcome id, register_entry h.next_entry (allocate_entry (new_transport id) s h), m')
      ]
]

-- `handleHello`, with what `json.Unmarshal` makes of the body
unfoldable pub handle_hello :
    (List ℕ → Option HelloMessage)
    → ℕ
    → Result (List ℕ)
    → HttpRequest
    → HttpHandler
    → Manager
    → HttpReply × HttpHandler × Manager
unfolding read_limited accept_hello
handle_hello unmarshal now random r h m =
    if not (str_beq r.method "POST")
    then (not_allowed "POST", h, m)
    else elim (read_limited max_control_body_bytes r.body) [
      | none ↦ (http_error "invalid hello body" 400, h, m)
      | some body ↦ elim (unmarshal body) [
        | none ↦ (http_error "invalid hello JSON" 400, h, m)
        | some hello ↦
            if not (str_beq hello.type "hello") || not (nat_beq hello.protocol protocol_version)
            then (refusal "unsupported protocol", h, m)
            else accept_hello now random hello.device h m
      ]
    ]

-- The case of `handlePoll`'s `select`.
pub data PollCase : Type 0 where
  takes_payload poll_timeout poll_closed poll_gone : PollCase

-- the payload that the device gets, if there is one
unfoldable pub take_outbound : List (List ℕ) → ℕ → HttpHandler → Progress HttpReply × HttpHandler
unfolding set_transport
take_outbound [] e h = (blocked, h)
take_outbound (payload ∷ rest) e h = (
  returns (
      replies 200
        (("Content-Type", "application/json") ∷ ("Content-Length", decimal (length payload)) ∷ [])
        (bytes payload)),
  set_transport e (record (h.entries e).transport { outbound = rest }) h,
)

-- `select`
unfoldable pub poll_select : PollCase → ℕ → HttpHandler → Progress HttpReply × HttpHandler
unfolding take_outbound
poll_select takes_payload e h = take_outbound (h.entries e).transport.outbound e h
poll_select poll_timeout e h = (returns no_content, h)
poll_select poll_closed e h = (
  if (h.entries e).transport.done
      then returns (http_error "device session closed" 410)
      else blocked,
  h,
)
poll_select poll_gone e h = (returns no_reply, h)

-- `handlePoll`
unfoldable pub handle_poll :
    PollCase → ℕ → HttpRequest → HttpHandler → Progress HttpReply × HttpHandler
unfolding poll_select
handle_poll case e r h =
    if not (str_beq r.method "GET") then (returns (not_allowed "GET"), h) else poll_select case e h

-- The case of the `select` with which a handler hands something on.
pub data HandCase : Type 0 where
  hands_over hand_closed hand_gone : HandCase

-- the `select` of `handleMessage`
unfoldable pub message_select :
    HandCase → List ℕ → ℕ → HttpHandler → Progress HttpReply × HttpHandler
unfolding set_transport
message_select hands_over body e h =
    let t = (h.entries e).transport in
    if ltb (length t.inbound) outbound_queue
    then (returns no_content, set_transport e (record t { inbound = t.inbound ++ body ∷ [] }) h)
    else (blocked, h)
message_select hand_closed body e h = (
  if (h.entries e).transport.done
      then returns (http_error "device session closed" 410)
      else blocked,
  h,
)
message_select hand_gone body e h = (returns no_reply, h)

-- `handleMessage`, with what `json.Valid` says of the body
unfoldable pub handle_message :
    (List ℕ → Bool) → HandCase → ℕ → HttpRequest → HttpHandler → Progress HttpReply × HttpHandler
unfolding message_select read_limited
handle_message json_valid case e r h =
    if not (str_beq r.method "POST")
    then (returns (not_allowed "POST"), h)
    else elim (read_limited max_control_body_bytes r.body) [
      | none ↦ (returns (http_error "invalid device message" 400), h)
      | some body ↦
          if not (json_valid body)
          then (returns (http_error "invalid device message" 400), h)
          else message_select case body e h
    ]
