-- ===== src/Device/Http/Chunks.antt =====
-- http.go: `handleTransferChunk` and `handleTransferChunkAck`.
use zshell_gateway.Base.{
  ℕ, ◌*◌, String, Bool, not, ◌&&◌, ◌||◌, [], ◌∷◌, Option, none, some, nat_beq, str_beq,
  if◌then◌else◌,
}
use zshell_gateway.Text.Decimal.{decimal}
use zshell_gateway.Text.Hex.{to_lower, decode}
use zshell_gateway.Text.Split.{has_prefix, parse_uint}
use zshell_gateway.Text.Trim.{trim_space, byte_len}
use zshell_gateway.Device.Types.{Manager, Net}
use zshell_gateway.Device.Session.{error_text}
use zshell_gateway.Device.Frame.{transfer_id_bytes}
use zshell_gateway.Device.Transfer.State.{is_some}
use zshell_gateway.Device.Transfer.Chunks.{handle_transfer_chunk}
use zshell_gateway.Device.Http.Types.{
  Progress, blocked, returns, HttpTransport, HttpHandler, HttpRequest, HttpReply, replies, no_reply,
  bytes, http_error, not_allowed, no_content, max_chunk_bytes,
}
use zshell_gateway.Device.Http.Transport.{post_ack}
use zshell_gateway.Device.Http.Sessions.{
  set_transport, read_limited, HandCase, hands_over, hand_closed, hand_gone,
}

-- `validTransferID`
unfoldable pub valid_transfer_id : String → Bool
valid_transfer_id id = nat_beq (byte_len id) (transfer_id_bytes * 2) && is_some (decode id)

-- the `POST` of a chunk by the source
unfoldable pub post_chunk :
    Net → ℕ → ℕ → String → ℕ → HttpRequest → HttpHandler → Manager → HttpReply × Manager
unfolding read_limited error_text
post_chunk net now e id sequence r h m =
    if not (has_prefix "application/octet-stream" (to_lower r.content_type))
    then (http_error "transfer chunk requires application/octet-stream" 415, m)
    else elim (read_limited max_chunk_bytes r.body) [
      | none ↦ (http_error "invalid transfer chunk" 413, m)
      | some payload ↦
          let (failure, m') =
            handle_transfer_chunk net now (h.entries e).session id sequence payload m in
          elim failure [ none ↦ (no_content, m') | some x ↦ (http_error (error_text x) 409, m') ]
    ]

-- `chunk != nil && chunk.transferID == id && chunk.sequence == sequence`
unfoldable pub pending_chunk : String → ℕ → HttpTransport → Option ℕ
pending_chunk id sequence t = elim t.chunk [
  | none ↦ none
  | some c ↦
      if str_beq (t.chunks c).transfer_id id && nat_beq (t.chunks c).sequence sequence
      then some c
      else none
]

-- the `GET` of the pending chunk by the target; a handle goes on to `write_failed`
unfoldable pub get_chunk : String → ℕ → HttpTransport → HttpReply
get_chunk id sequence t = elim t.chunk [
  | none ↦ http_error "transfer chunk not ready" 409
  | some c ↦
      let k = t.chunks c in
      if not (str_beq k.transfer_id id) || not (nat_beq k.sequence sequence)
      then http_error "unexpected transfer chunk" 409
      else replies 200
          (("Content-Type", "application/octet-stream")
            ∷ ("X-Zshell-Transfer-ID", k.transfer_id)
            ∷ ("X-Zshell-Sequence", decimal k.sequence)
            ∷ [])
          (bytes k.payload)
]

-- what follows a `Write` of the chunk that fails
unfoldable pub write_failed : ℕ → String → HttpTransport → HttpTransport
unfolding post_ack
write_failed c e t = (post_ack c (some e) t).1

-- `handleTransferChunk`
unfoldable pub http_transfer_chunk :
    Net → ℕ → ℕ → String → String → HttpRequest → HttpHandler → Manager → HttpReply × Manager
unfolding valid_transfer_id post_chunk get_chunk
http_transfer_chunk net now e id sequence_text r h m = elim (parse_uint sequence_text) [
  | none ↦ (http_error "invalid transfer chunk path" 400, m)
  | some sequence ↦
      if not (valid_transfer_id id)
      then (http_error "invalid transfer chunk path" 400, m)
      else if str_beq r.method "POST"
      then post_chunk net now e id sequence r h m
      else if str_beq r.method "GET"
      then (get_chunk id sequence (h.entries e).transport, m)
      else (not_allowed "GET, POST", m)
]

-- what the device says of the chunk: nothing is a success
unfoldable pub ack_answer : HttpRequest → Option String
ack_answer r =
    let message = trim_space r.error_header in
    if str_beq r.query_ok "0"
    then some (if str_beq message "" then "target rejected transfer chunk" else message)
    else none

-- `handleTransferChunkAck` until its `select`: a reply, or the chunk that is answered
pub data Acking : Type 0 where
  replied : HttpReply → Acking
  answering : ℕ → Option String → Acking

unfoldable pub begin_ack : String → String → HttpRequest → HttpTransport → Acking
unfolding valid_transfer_id pending_chunk ack_answer
begin_ack id sequence_text r t =
    if not (str_beq r.method "POST")
    then replied (not_allowed "POST")
    else elim (parse_uint sequence_text) [
      | none ↦ replied (http_error "invalid transfer chunk acknowledgement" 400)
      | some sequence ↦
          if not (valid_transfer_id id)
          then replied (http_error "invalid transfer chunk acknowledgement" 400)
          else elim (pending_chunk id sequence t) [
            | none ↦ replied (http_error "transfer chunk is no longer pending" 409)
            | some c ↦ answering c (ack_answer r)
          ]
    ]

-- its `select`
unfoldable pub finish_ack :
    HandCase → ℕ → Option String → HttpTransport → Progress HttpReply × HttpTransport
unfolding post_ack
finish_ack hands_over c answer t =
    let (room, t') = post_ack c answer t in (if room then returns no_content else blocked, t')
finish_ack hand_closed c answer t =
    (if t.done then returns (http_error "device session closed" 410) else blocked, t)
finish_ack hand_gone c answer t = (returns no_reply, t)

-- `handleTransferChunkAck` of an entry, with nothing between its two parts
unfoldable pub http_chunk_ack :
    HandCase → ℕ → String → String → HttpRequest → HttpHandler → Progress HttpReply × HttpHandler
unfolding begin_ack finish_ack set_transport
http_chunk_ack case e id sequence_text r h =
    elim (begin_ack id sequence_text r (h.entries e).transport) [
      | replied reply ↦ (returns reply, h)
      | answering c answer ↦
          let (progress, t') = finish_ack case c answer (h.entries e).transport in
          (progress, set_transport e t' h)
    ]
