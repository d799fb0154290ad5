-- ===== src/Device/Http/Transport.antt =====
-- http.go: `httpTransport`, the queues, the one chunk that may be pending, and closing.
use zshell_gateway.Base.{
  ℕ, suc, String, Bool, true, false, List, [], ◌∷◌, ◌++◌, Option, none, some, ltb, nat_beq, length,
  if◌then◌else◌,
}
use zshell_gateway.Device.Types.{Error, Result, ok, err, other}
use zshell_gateway.Device.Http.Types.{
  Outgoing, transport_chunk, Marshal, Progress, blocked, returns, announcing, waiting, finished,
  HttpChunk, HttpTransport, outbound_queue,
}

-- `errHTTPTransportClosed`
abbrev pub http_closed : Error
http_closed = other "http device transport closed"

-- The case of `Send`'s `select` that is tried.
pub data SendCase : Type 0 where
  enqueues sees_done : SendCase

-- `Send`: nothing where it succeeds
unfoldable pub http_send :
    Marshal → SendCase → Outgoing → HttpTransport → Progress (Option Error) × HttpTransport
http_send marshal enqueues value t = elim (marshal value) [
  | err e ↦ (returns (some e), t)
  | ok payload ↦
      if ltb (length t.outbound) outbound_queue
      then (returns none, record t { outbound = t.outbound ++ payload ∷ [] })
      else (blocked, t)
]
http_send marshal sees_done value t = elim (marshal value) [
  | err e ↦ (returns (some e), t)
  | ok payload ↦ if t.done then (returns (some http_closed), t) else (blocked, t)
]

-- a write through a chunk pointer
unfoldable pub set_chunk : ℕ → HttpChunk → HttpTransport → HttpTransport
set_chunk c k t = record t { chunks = λ j. if nat_beq c j then k else t.chunks j }

-- `t.chunk == chunk`
abbrev pub holds_chunk : ℕ → Option ℕ → Bool
holds_chunk c none = false
holds_chunk c (some k) = nat_beq k c

-- the deferred function of `SendTransferChunk`
unfoldable pub clear_chunk : ℕ → HttpTransport → HttpTransport
clear_chunk c t = if holds_chunk c t.chunk then record t { chunk = none } else t

-- a return of `SendTransferChunk`
unfoldable pub finish_chunk : ℕ → Option Error → HttpTransport → HttpTransport
unfolding set_chunk clear_chunk
finish_chunk c result t =
    clear_chunk c (set_chunk c (record (t.chunks c) { phase = finished result }) t)

-- `SendTransferChunk` until it sends: the slot is taken
unfoldable pub begin_chunk : String → ℕ → List ℕ → HttpTransport → Result ℕ × HttpTransport
unfolding set_chunk
begin_chunk transfer_id sequence payload t = elim t.chunk [
  | some _ ↦ (err (other "http transfer chunk already pending"), t)
  | none ↦
      let chunk : HttpChunk = record {
        transfer_id = transfer_id;
        sequence = sequence;
        payload = payload;
        ack = none;
        phase = announcing;
      } in
      (
        ok t.next_chunk,
        record (set_chunk t.next_chunk chunk t) {
          chunk = some t.next_chunk;
          next_chunk = suc t.next_chunk;
        },
      )
]

-- its `t.Send`
unfoldable pub announce_chunk : Marshal → SendCase → ℕ → HttpTransport → HttpTransport
unfolding set_chunk http_send finish_chunk
announce_chunk marshal case c t =
    let k = t.chunks c in
    let (progress, t') = http_send marshal case (transport_chunk k.transfer_id k.sequence) t in
    elim progress [
      | blocked ↦ t'
      | returns failure ↦ elim failure [
        | some e ↦ finish_chunk c (some e) t'
        | none ↦ set_chunk c (record (t'.chunks c) { phase = waiting }) t'
      ]
    ]

-- The case of its `select`.
pub data ChunkWake : Type 0 where
  acknowledged timed_out transport_done : ChunkWake

abbrev pub ack_error : Option String → Option Error
ack_error none = none
ack_error (some e) = some (other e)

-- its `select`
unfoldable pub wake_chunk : ChunkWake → ℕ → HttpTransport → HttpTransport
unfolding finish_chunk set_chunk
wake_chunk acknowledged c t = elim (t.chunks c).ack [
  | none ↦ t
  | some answer ↦
      finish_chunk c (ack_error answer) (set_chunk c (record (t.chunks c) { ack = none }) t)
]
wake_chunk timed_out c t =
    finish_chunk c (some (other "http transfer chunk acknowledgement timed out")) t
wake_chunk transport_done c t = if t.done then finish_chunk c (some http_closed) t else t

-- `chunk.ack <- err`, if there is room
unfoldable pub post_ack : ℕ → Option String → HttpTransport → Bool × HttpTransport
unfolding set_chunk
post_ack c answer t = elim (t.chunks c).ack [
  | some _ ↦ (false, t)
  | none ↦ (true, set_chunk c (record (t.chunks c) { ack = some answer }) t)
]

-- The case of `ReceiveFrame`'s `select`.
pub data ReceiveCase : Type 0 where
  takes_frame sees_closed : ReceiveCase

-- `ReceiveFrame`: the text frame that is taken
unfoldable pub http_receive :
    ReceiveCase → HttpTransport → Progress (Result (List ℕ)) × HttpTransport
http_receive takes_frame t = elim t.inbound [
  | [] ↦ (blocked, t)
  | frame ∷ rest ↦ (returns (ok frame), record t { inbound = rest })
]
http_receive sees_closed t = if t.done then (returns (err http_closed), t) else (blocked, t)
