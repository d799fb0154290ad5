-- ===== src/Device/WebSocket.antt =====
-- internal/device/websocket.go: devices that hold a WebSocket, and the bearer token of both transports.
use zshell_gateway.Base.{
  ℕ, String, true, false, not, ◌||◌, List, [], ◌∷◌, Option, none, some, nat_beq, str_beq,
  if◌then◌else◌,
}
use zshell_gateway.Text.Compare.{constant_time_compare}
use zshell_gateway.Text.Split.{fields_of, equal_fold_bearer}
use zshell_gateway.Text.Utf8.{utf8}
use zshell_gateway.Device.Types.{
  HelloMessage, HelloAck, protocol_version, WireResponse, Manager, Error, Result, ok, err, Net,
  other, invalid_transfer_request,
}
use zshell_gateway.Device.Registry.{attach}
use zshell_gateway.Device.Frame.{encode_transfer_frame}
use zshell_gateway.Device.Lifecycle.{
  Frame, receive_error, binary, malformed, response, detach, serve,
}

-- `bearerToken`, of the fields of the header
unfoldable pub bearer_of : List String → Option String
bearer_of (scheme ∷ token ∷ []) =
    if not (equal_fold_bearer scheme) || str_beq token "" then none else some token
bearer_of [] = none
bearer_of (a ∷ []) = none
bearer_of (a ∷ b ∷ c ∷ rest) = none

-- `bearerToken`
unfoldable pub bearer_token : String → Option String
unfolding bearer_of
bearer_token header = bearer_of (fields_of header)

-- `handshake`: the text of its error
unfoldable pub handshake : String → String → String → Option String
unfolding bearer_token
handshake token method authorization =
    if not (str_beq method "GET")
    then some "websocket upgrade requires GET"
    else elim (bearer_token authorization) [
      | none ↦ some "device authentication failed"
      | some presented ↦
          if constant_time_compare (utf8 presented) (utf8 token)
          then none
          else some "device authentication failed"
    ]

abbrev pub refused_ack : String → HelloAck
refused_ack message = record { type = "hello_ack"; accepted = false; message = message }

abbrev pub accepted_ack : HelloAck
accepted_ack = record { type = "hello_ack"; accepted = true; message = "ok" }

-- Where `handle` stands after the hello.
pub data Opened : Type 0 where
  no_hello : Opened
  refused : HelloAck → Opened
  ack_failed : Opened
  serving : ℕ → Opened

-- `handle` up to `Monitor` and `Serve`: what `JSON.Receive` gave, and the error of sending the ack
unfoldable pub open_connection :
    Net → ℕ → Option HelloMessage → Option String → Manager → Opened × Manager
open_connection net now none failure m = (no_hello, m)
open_connection net now (some hello) failure m =
    if not (str_beq hello.type "hello") || not (nat_beq hello.protocol protocol_version)
    then (refused (refused_ack "unsupported protocol"), m)
    else let (session, m') = attach (some "websocket") hello.device now m in
      elim session [
        | none ↦ (refused (refused_ack "invalid or duplicate device name"), m')
        | some h ↦ elim failure [
          | none ↦ (serving h, m')
          | some _ ↦ (ack_failed, detach net now h m')
        ]
      ]

-- `handle`, where the frames of the connection come with nothing between them
unfoldable pub handle_connection :
    Net → ℕ → Option HelloMessage → Option String → List (Net × ℕ × Frame) → Manager → Manager
unfolding open_connection
handle_connection net now hello failure frames m =
    let (opened, m') = open_connection net now hello failure m in
    elim opened [ no_hello ↦ m' | refused _ ↦ m' | ack_failed ↦ m' | serving h ↦ serve frames h m' ]

-- `SendTransferChunk`, with the connection's answer to a binary frame
unfoldable pub socket_send_chunk : (List ℕ → Option String) → String → ℕ → List ℕ → Option Error
socket_send_chunk send id sequence payload = elim (encode_transfer_frame id sequence payload) [
  | none ↦ some invalid_transfer_request
  | some frame ↦ elim (send frame) [ none ↦ none | some e ↦ some (other e) ]
]

-- `websocket.BinaryFrame`
abbrev pub binary_frame : ℕ
binary_frame = 2

-- `ReceiveFrame` and the decoding in `readLoop`: an error, or the frame's type and its bytes
unfoldable pub socket_frame :
    (List ℕ → Result WireResponse) → (Error → String) → Result (ℕ × List ℕ) → Frame
socket_frame unmarshal message (err e) = receive_error (message e)
socket_frame unmarshal message (ok (payload_type, bytes)) =
    if nat_beq payload_type binary_frame
    then binary bytes
    else elim (unmarshal bytes) [ err e ↦ malformed (message e) | ok r ↦ response r ]
