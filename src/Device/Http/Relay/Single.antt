-- ===== src/Device/Http/Relay/Single.antt =====
-- At most one call of `SendTransferChunk` is under way, and it holds the slot.
use mathlib.Core.Path.{subst}
use zshell_gateway.Base.{
  ℕ, String, ◌≡◌, ◌↔◌, refl, sym, inl, inr, Bool, true, false, List, [], ◌∷◌, Option, none, some,
  arith, nat_beq, nat_beq_iff, Option-cases, Bool-cases, if-elim, if◌then◌else◌, get_elem?,
}
use zshell_gateway.Device.Types.{Error}
use zshell_gateway.Device.Http.Types.{
  Marshal, Progress, blocked, returns, Phase, announcing, waiting, finished, HttpChunk,
  HttpTransport, HttpReply, transport_chunk,
}
use zshell_gateway.Device.Http.Transport.{
  SendCase, http_send, begin_chunk, announce_chunk, ChunkWake, acknowledged, timed_out,
  transport_done, wake_chunk, ack_error, set_chunk, clear_chunk, finish_chunk, post_ack,
  holds_chunk,
}
use zshell_gateway.Device.Http.Sessions.{HandCase, hands_over, hand_closed, hand_gone}
use zshell_gateway.Device.Http.Chunks.{
  Acking, replied, answering, begin_ack, finish_ack, pending_chunk,
}
use zshell_gateway.Device.Http.Relay.{
  Relay, RelayEvent, sends, polled, begins_chunk, announces, wakes_call, acks, hands_answer, gets,
  write_fails, closes, relay_step, relay_run, new_relay, without, is_announcing, is_waiting,
  ack_arrives, hand_answer,
}
use zshell_gateway.Device.Http.Relay.Names.{http_send-chunks}

abbrev pub is_finished : Phase → Bool
is_finished announcing = false
is_finished waiting = false
is_finished (finished _) = true

-- the call of the chunk has not returned
abbrev pub IsUnderWay : HttpTransport → ℕ → Type 0
IsUnderWay t c = is_finished (t.chunks c).phase ≡ false

-- The slot holds exactly the call that is under way.
abbrev pub OneCall : HttpTransport → Type 0
OneCall t = (c : ℕ) → (t.chunk ≡ some c) ↔ IsUnderWay t c

set_chunk-OneCall :
    (c : ℕ) (k : HttpChunk) (t : HttpTransport)
    → OneCall t
    → is_finished k.phase ≡ is_finished (t.chunks c).phase
    → OneCall (set_chunk c k t)
unfolding set_chunk
set_chunk-OneCall c k t inv e j =
    subst (λ (b : Bool). (t.chunk ≡ some j) ↔ (b ≡ false))
      (if-elim (λ (x : HttpChunk). is_finished (t.chunks j).phase ≡ is_finished x.phase)
        (nat_beq c j) _ _
        (λ h.
          subst (λ i. is_finished (t.chunks i).phase ≡ is_finished k.phase) ((nat_beq_iff c j).0 h)
            (sym e))
        (λ _. refl))
      (inv j)

-- the slot and the call after a return
finish_chunk-chunk :
    (c : ℕ) (result : Option Error) (t : HttpTransport)
    → (finish_chunk c result t).chunk ≡ (if holds_chunk c t.chunk then none else t.chunk)
unfolding finish_chunk set_chunk clear_chunk
finish_chunk-chunk c result t = elim (Bool-cases (holds_chunk c t.chunk)) [
  | inl h ↦ rw h refl
  | inr h ↦ rw h refl
]

finish_chunk-phase :
    (c j : ℕ) (result : Option Error) (t : HttpTransport)
    → is_finished ((finish_chunk c result t).chunks j).phase
      ≡ (if nat_beq c j then true else is_finished (t.chunks j).phase)
unfolding finish_chunk set_chunk clear_chunk
finish_chunk-phase c j result t = elim (Bool-cases (holds_chunk c t.chunk)) [
  | inl h ↦ rw h (ground arith)
  | inr h ↦ rw h (ground arith)
]

finish_chunk-OneCall :
    (c : ℕ) (result : Option Error) (t : HttpTransport)
    → OneCall t
    → OneCall (finish_chunk c result t)
finish_chunk-OneCall c result t inv j =
    rw (finish_chunk-chunk c result t, finish_chunk-phase c j result t)
      (ground (arith, (inv j).0, (inv j).1))

begin_chunk-OneCall :
    (id : String) (n : ℕ) (payload : List ℕ) (t : HttpTransport)
    → OneCall t
    → OneCall (begin_chunk id n payload t).1
unfolding begin_chunk set_chunk
begin_chunk-OneCall id n payload t inv j = elim (Option-cases t.chunk) [
  | inr (c, e) ↦ ground (arith, e, (inv j).0, (inv j).1)
  | inl e ↦ ground (arith, e, (inv j).0, (inv j).1)
]

-- a step that changes neither the slot nor the calls
same-OneCall :
    (t u : HttpTransport) → OneCall t → u.chunk ≡ t.chunk → u.chunks ≡ t.chunks → OneCall u
same-OneCall t u inv a b j =
    subst (λ (f : ℕ → HttpChunk). (u.chunk ≡ some j) ↔ (is_finished (f j).phase ≡ false)) (sym b)
      (subst (λ o. (o ≡ some j) ↔ IsUnderWay t j) (sym a) (inv j))

announced-OneCall :
    (c : ℕ) (t : HttpTransport)
    → OneCall t
    → IsUnderWay t c
    → (p : Progress (Option Error))
    → OneCall (elim p as (λ _. HttpTransport) [
      | blocked ↦ t
      | returns failure ↦ elim failure [
        | some e ↦ finish_chunk c (some e) t
        | none ↦ set_chunk c (record (t.chunks c) { phase = waiting }) t
      ]
    ])
announced-OneCall c t inv on blocked = inv
announced-OneCall c t inv on (returns none) =
    set_chunk-OneCall c (record (t.chunks c) { phase = waiting }) t inv (sym on)
announced-OneCall c t inv on (returns (some e)) = finish_chunk-OneCall c (some e) t inv

announce_chunk-OneCall :
    (marshal : Marshal) (case : SendCase) (c : ℕ) (t : HttpTransport)
    → OneCall t
    → IsUnderWay t c
    → OneCall (announce_chunk marshal case c t)
unfolding announce_chunk
announce_chunk-OneCall marshal case c t inv on =
    let k = t.chunks c in
    let v = transport_chunk k.transfer_id k.sequence in
    let same = http_send-chunks marshal case v t in
    announced-OneCall c (http_send marshal case v t).1
      (same-OneCall t (http_send marshal case v t).1 inv same.1 same.0)
      (subst (λ (f : ℕ → HttpChunk). is_finished (f c).phase ≡ false) (sym same.0) on)
      (http_send marshal case v t).0

wake_chunk-OneCall :
    (w : ChunkWake) (c : ℕ) (t : HttpTransport) → OneCall t → OneCall (wake_chunk w c t)
unfolding wake_chunk
wake_chunk-OneCall acknowledged c t inv = elim (Option-cases (t.chunks c).ack) [
  | inl e ↦ rw (e, wake_chunk) inv
  | inr (a, e) ↦
      rw (e, wake_chunk)
        (finish_chunk-OneCall c (ack_error a) (set_chunk c (record (t.chunks c) { ack = none }) t)
          (set_chunk-OneCall c (record (t.chunks c) { ack = none }) t inv refl))
]
wake_chunk-OneCall timed_out c t inv = finish_chunk-OneCall c _ t inv
wake_chunk-OneCall transport_done c t inv =
    if-elim OneCall t.done _ _ (λ _. finish_chunk-OneCall c _ t inv) (λ _. inv)

post_ack-OneCall :
    (c : ℕ) (answer : Option String) (t : HttpTransport)
    → OneCall t
    → OneCall (post_ack c answer t).1
unfolding post_ack
post_ack-OneCall c answer t inv = elim (Option-cases (t.chunks c).ack) [
  | inr (x, e) ↦ rw (e, post_ack) inv
  | inl e ↦
      rw (e, post_ack) (set_chunk-OneCall c (record (t.chunks c) { ack = some answer }) t inv refl)
]

finish_ack-OneCall :
    (case : HandCase) (c : ℕ) (answer : Option String) (t : HttpTransport)
    → OneCall t
    → OneCall (finish_ack case c answer t).1
unfolding finish_ack
finish_ack-OneCall hands_over c answer t inv = post_ack-OneCall c answer t inv
finish_ack-OneCall hand_closed c answer t inv = inv
finish_ack-OneCall hand_gone c answer t inv = inv

module _ (P : HttpTransport → Type 0) where
  handed_lem :
      (n : ℕ) (s : Relay) (t : HttpTransport)
      → P s.transport
      → P t
      → (p : Progress HttpReply)
      → P
          (elim p as (λ _. Relay) [
            | blocked ↦ s
            | returns _ ↦ record s { transport = t; answers = without n s.answers }
          ]).transport
  handed_lem n s t old new blocked = old
  handed_lem n s t old new (returns x) = new

  -- Handing over an answer leaves the transport or is a step of its handler.
  pub hand_answer_lem :
      (case : HandCase) (n c : ℕ) (answer : Option String) (s : Relay)
      → P s.transport
      → P (finish_ack case c answer s.transport).1
      → P (hand_answer case n (c, answer) s).transport
  unfolding hand_answer
  hand_answer_lem case n c answer s old new =
      handed_lem n s (finish_ack case c answer s.transport).1 old new
        (finish_ack case c answer s.transport).0

  pub ack_arrives_lem : (a : Acking) (s : Relay) → P s.transport → P (ack_arrives a s).transport
  ack_arrives_lem (replied x) s old = old
  ack_arrives_lem (answering c answer) s old = old

under_way : (p : Phase) → is_announcing p ≡ true → is_finished p ≡ false
under_way p h = ground arith

relay_step-OneCall :
    (s : Relay) (e : RelayEvent) → OneCall s.transport → OneCall (relay_step s e).transport
unfolding relay_step
relay_step-OneCall s (sends marshal case v) inv =
    let same = http_send-chunks marshal case v s.transport in
    same-OneCall s.transport (http_send marshal case v s.transport).1 inv same.1 same.0
relay_step-OneCall s polled inv = inv
relay_step-OneCall s (begins_chunk id n payload) inv =
    begin_chunk-OneCall id n payload s.transport inv
relay_step-OneCall s (announces marshal case c) inv =
    if-elim (λ (r : Relay). OneCall r.transport) (is_announcing (s.transport.chunks c).phase) _ _
      (λ h. announce_chunk-OneCall marshal case c s.transport inv (under_way _ h)) (λ _. inv)
relay_step-OneCall s (wakes_call w c) inv =
    if-elim (λ (r : Relay). OneCall r.transport) (is_waiting (s.transport.chunks c).phase) _ _
      (λ _. wake_chunk-OneCall w c s.transport inv) (λ _. inv)
relay_step-OneCall s (acks id text r) inv =
    ack_arrives_lem OneCall (begin_ack id text r s.transport) s inv
relay_step-OneCall s (hands_answer case n) inv = elim (Option-cases (get_elem? s.answers n)) [
  | inl e ↦ rw (e, relay_step) inv
  | inr ((c, answer), e) ↦
      rw (e, relay_step)
        (hand_answer_lem OneCall case n c answer s inv
          (finish_ack-OneCall case c answer s.transport inv))
]
relay_step-OneCall s (gets id n) inv = elim (Option-cases (pending_chunk id n s.transport)) [
  | inl e ↦ rw (e, relay_step) inv
  | inr (c, e) ↦ rw (e, relay_step) inv
]
relay_step-OneCall s (write_fails n x) inv = elim (Option-cases (get_elem? s.writing n)) [
  | inl e ↦ rw (e, relay_step) inv
  | inr (c, e) ↦ rw (e, relay_step) (post_ack-OneCall c (some x) s.transport inv)
]
relay_step-OneCall s closes inv = inv

relay_run-OneCall :
    (s : Relay) (es : List RelayEvent) → OneCall s.transport → OneCall (relay_run s es).transport
unfolding relay_run
relay_run-OneCall s [] inv = inv
relay_run-OneCall s (e ∷ es) inv =
    relay_run-OneCall (relay_step s e) es (relay_step-OneCall s e inv)

-- However the steps interleave on a new transport, the slot for the pending chunk holds exactly the call of
-- `SendTransferChunk` that is under way, so that there is one such call at most.
pub run-OneCall :
    (id : String) (es : List RelayEvent) (c : ℕ)
    → ((relay_run (new_relay id) es).transport.chunk ≡ some c)
      ↔ IsUnderWay (relay_run (new_relay id) es).transport c
unfolding new_relay
run-OneCall id es c =
    relay_run-OneCall (new_relay id) es (λ j. (λ h. absurd (cc h), λ h. absurd (cc h))) c
