-- ===== src/Device/Http/Relay.antt =====
-- One HTTP transport as a machine: the calls of `SendTransferChunk`, the device's requests for chunks
-- and its answers, in any interleaving of their steps.
pub mod Names
pub mod Vouched
pub mod Granted
pub mod Answers
pub mod Acknowledged
pub mod Single
pub mod Served
use zshell_gateway.Base.{
  ℕ, zero, suc, String, Bool, true, false, List, [], ◌∷◌, ◌++◌, Option, none, some, get_elem?, drop,
  if◌then◌else◌,
}
use zshell_gateway.Device.Http.Types.{
  Outgoing, Marshal, Progress, blocked, returns, Phase, announcing, waiting, finished,
  HttpTransport, HttpRequest, HttpReply,
}
use zshell_gateway.Device.Http.Transport.{
  SendCase, http_send, begin_chunk, announce_chunk, ChunkWake, wake_chunk,
}
use zshell_gateway.Device.Http.Sessions.{HandCase, new_transport}
use zshell_gateway.Device.Http.Chunks.{
  Acking, replied, answering, begin_ack, finish_ack, pending_chunk, write_failed,
}

-- The transport, the answers whose handlers have found the chunk and not yet handed them over, and the
-- chunks that are being written to the device.
pub record Relay : Type 0 where
  pub transport : HttpTransport
  pub answers : List (ℕ × Option String)
  pub writing : List ℕ

-- A step of a call names its chunk; a step of a waiting handler names its place in the list.
pub data RelayEvent : Type 0 where
  sends : Marshal → SendCase → Outgoing → RelayEvent
  polled : RelayEvent
  begins_chunk : String → ℕ → List ℕ → RelayEvent
  announces : Marshal → SendCase → ℕ → RelayEvent
  wakes_call : ChunkWake → ℕ → RelayEvent
  acks : String → String → HttpRequest → RelayEvent
  hands_answer : HandCase → ℕ → RelayEvent
  gets : String → ℕ → RelayEvent
  write_fails : ℕ → String → RelayEvent
  closes : RelayEvent

abbrev pub is_announcing : Phase → Bool
is_announcing announcing = true
is_announcing waiting = false
is_announcing (finished _) = false

abbrev pub is_waiting : Phase → Bool
is_waiting waiting = true
is_waiting announcing = false
is_waiting (finished _) = false

abbrev pub without {ℓ} : {A : Type ℓ} → ℕ → List A → List A
without n [] = []
without zero (x ∷ xs) = xs
without (suc n) (x ∷ xs) = x ∷ without n xs

-- an answer that the device has sent is on its way to the chunk
abbrev pub ack_arrives : Acking → Relay → Relay
ack_arrives (replied _) s = s
ack_arrives (answering c answer) s = record s { answers = (c, answer) ∷ s.answers }

unfoldable pub hand_answer : HandCase → ℕ → ℕ × Option String → Relay → Relay
unfolding finish_ack
hand_answer case n (c, answer) s =
    let (progress, t) = finish_ack case c answer s.transport in
    elim progress [
      | blocked ↦ s
      | returns _ ↦ record s { transport = t; answers = without n s.answers }
    ]

unfoldable pub relay_step : Relay → RelayEvent → Relay
unfolding http_send begin_chunk announce_chunk wake_chunk begin_ack hand_answer pending_chunk
    write_failed
relay_step s (sends marshal case value) = record s {
  transport = (http_send marshal case value s.transport).1;
}
relay_step s polled = record s {
  transport = record s.transport { outbound = drop 1 s.transport.outbound };
}
relay_step s (begins_chunk id n payload) = record s {
  transport = (begin_chunk id n payload s.transport).1;
}
relay_step s (announces marshal case c) =
    if is_announcing (s.transport.chunks c).phase
    then record s { transport = announce_chunk marshal case c s.transport }
    else s
relay_step s (wakes_call w c) =
    if is_waiting (s.transport.chunks c).phase
    then record s { transport = wake_chunk w c s.transport }
    else s
relay_step s (acks id text r) = ack_arrives (begin_ack id text r s.transport) s
relay_step s (hands_answer case n) = elim (get_elem? s.answers n) [
  | none ↦ s
  | some a ↦ hand_answer case n a s
]
relay_step s (gets id n) = elim (pending_chunk id n s.transport) [
  | none ↦ s
  | some c ↦ record s { writing = c ∷ s.writing }
]
relay_step s (write_fails n e) = elim (get_elem? s.writing n) [
  | none ↦ s
  | some c ↦ record s { transport = write_failed c e s.transport; writing = without n s.writing }
]
relay_step s closes = record s { transport = record s.transport { done = true } }

unfoldable pub relay_run : Relay → List RelayEvent → Relay
unfolding relay_step
relay_run s [] = s
relay_run s (e ∷ es) = relay_run (relay_step s e) es

-- the transport of a new session
unfoldable pub new_relay : String → Relay
unfolding new_transport
new_relay id = record { transport = new_transport id; answers = []; writing = [] }
