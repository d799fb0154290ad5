-- ===== src/Device/Http/Relay/Served.antt =====
-- What the device is given when it asks for the chunk.
use mathlib.Core.Path.{subst}
use zshell_gateway.Base.{
  ℕ, suc, ◌<◌, String, ◌≡◌, refl, sym, ◌∙◌, ap, inl, inr, List, [], ◌∷◌, Option, some, arith,
  nat_beq, eq_iff, Option-cases, if-elim, get_elem?,
}
use zshell_gateway.Dict.{Dict}
use zshell_gateway.Device.Http.Types.{HttpChunk, HttpTransport, HttpBody, bytes, replies}
use zshell_gateway.Device.Http.Transport.{begin_chunk, set_chunk}
use zshell_gateway.Device.Http.Sessions.{HandCase, hands_over, hand_closed, hand_gone}
use zshell_gateway.Device.Http.Chunks.{begin_ack, finish_ack, pending_chunk, get_chunk}
use zshell_gateway.Device.Http.Relay.{
  Relay, RelayEvent, sends, polled, begins_chunk, announces, wakes_call, acks, hands_answer, gets,
  write_fails, closes, relay_step, relay_run, new_relay, is_announcing, is_waiting,
}
use zshell_gateway.Device.Http.Relay.Names.{
  SameChunks, http_send-SameChunks, announce_chunk-SameChunks, wake_chunk-SameChunks,
  post_ack-SameChunks,
}
use zshell_gateway.Device.Http.Relay.Acknowledged.{run-RelaySound}
use zshell_gateway.Device.Http.Relay.Single.{
  IsUnderWay, hand_answer_lem, ack_arrives_lem, run-OneCall,
}

module _ (Begun : String → ℕ → List ℕ → Type 0) where
  -- A call was begun for every chunk that has been allocated.
  pub AllBegun : HttpTransport → Type 0
  AllBegun t =
      (c : ℕ)
      → c < t.next_chunk
      → Begun (t.chunks c).transfer_id (t.chunks c).sequence (t.chunks c).payload

  same-AllBegun : (t u : HttpTransport) → SameChunks t u → AllBegun t → AllBegun u
  unfolding AllBegun
  same-AllBegun t u same inv c h =
      let names = same.names c in
      let old = inv c (subst (λ n. c < n) same.next h) in
      subst (λ id. Begun id (u.chunks c).sequence (u.chunks c).payload) (sym names.0)
        (subst (λ n. Begun (t.chunks c).transfer_id n (u.chunks c).payload) (sym names.1)
          (subst (Begun (t.chunks c).transfer_id (t.chunks c).sequence) (sym names.2) old))

  begin_chunk-AllBegun :
      (id : String) (n : ℕ) (payload : List ℕ) (t : HttpTransport)
      → AllBegun t
      → Begun id n payload
      → AllBegun (begin_chunk id n payload t).1
  unfolding AllBegun begin_chunk set_chunk
  begin_chunk-AllBegun id n payload t inv new j = elim (Option-cases t.chunk) [
    | inr (c, e) ↦ rw (e, begin_chunk) (inv j)
    | inl e ↦
        rw (e, begin_chunk)
          (λ h.
            if-elim (λ (k : HttpChunk). Begun k.transfer_id k.sequence k.payload)
              (nat_beq t.next_chunk j) _ _ (λ _. new) (λ b. inv j (ground (arith, h, b))))
  ]

  finish_ack-AllBegun :
      (case : HandCase) (c : ℕ) (answer : Option String) (t : HttpTransport)
      → AllBegun t
      → AllBegun (finish_ack case c answer t).1
  unfolding finish_ack
  finish_ack-AllBegun hands_over c answer t inv =
      same-AllBegun t _ (post_ack-SameChunks c answer t) inv
  finish_ack-AllBegun hand_closed c answer t inv = inv
  finish_ack-AllBegun hand_gone c answer t inv = inv

  relay_step-AllBegun :
      (s : Relay) (e : RelayEvent)
      → AllBegun s.transport
      → ((id : String) (n : ℕ) (payload : List ℕ)
          → e ≡ begins_chunk id n payload
          → Begun id n payload)
      → AllBegun (relay_step s e).transport
  unfolding relay_step AllBegun
  relay_step-AllBegun s (sends marshal case v) inv new =
      same-AllBegun s.transport _ (http_send-SameChunks marshal case v s.transport) inv
  relay_step-AllBegun s polled inv new = inv
  relay_step-AllBegun s (begins_chunk id n payload) inv new =
      begin_chunk-AllBegun id n payload s.transport inv (new id n payload refl)
  relay_step-AllBegun s (announces marshal case c) inv new =
      if-elim (λ (r : Relay). AllBegun r.transport) (is_announcing (s.transport.chunks c).phase) _ _
        (λ _.
          same-AllBegun s.transport _ (announce_chunk-SameChunks marshal case c s.transport) inv)
        (λ _. inv)
  relay_step-AllBegun s (wakes_call w c) inv new =
      if-elim (λ (r : Relay). AllBegun r.transport) (is_waiting (s.transport.chunks c).phase) _ _
        (λ _. same-AllBegun s.transport _ (wake_chunk-SameChunks w c s.transport) inv) (λ _. inv)
  relay_step-AllBegun s (acks id text r) inv new =
      ack_arrives_lem AllBegun (begin_ack id text r s.transport) s inv
  relay_step-AllBegun s (hands_answer case n) inv new =
      elim (Option-cases (get_elem? s.answers n)) [
        | inl e ↦ rw (e, relay_step) inv
        | inr ((c, answer), e) ↦
            rw (e, relay_step)
              (hand_answer_lem AllBegun case n c answer s inv
                (finish_ack-AllBegun case c answer s.transport inv))
      ]
  relay_step-AllBegun s (gets id n) inv new = elim (Option-cases (pending_chunk id n s.transport)) [
    | inl e ↦ rw (e, relay_step) inv
    | inr (c, e) ↦ rw (e, relay_step) inv
  ]
  relay_step-AllBegun s (write_fails n x) inv new = elim (Option-cases (get_elem? s.writing n)) [
    | inl e ↦ rw (e, relay_step) inv
    | inr (c, e) ↦
        rw (e, relay_step)
          (same-AllBegun s.transport _ (post_ack-SameChunks c (some x) s.transport) inv)
  ]
  relay_step-AllBegun s closes inv new = inv

  pub relay_run-AllBegun :
      (s : Relay) (es : List RelayEvent)
      → AllBegun s.transport
      → ((k : ℕ) (id : String) (n : ℕ) (payload : List ℕ)
          → get_elem? es k ≡ some (begins_chunk id n payload)
          → Begun id n payload)
      → AllBegun (relay_run s es).transport
  unfolding relay_run
  relay_run-AllBegun s [] inv new = inv
  relay_run-AllBegun s (e ∷ es) inv new =
      relay_run-AllBegun (relay_step s e) es
        (relay_step-AllBegun s e inv (λ id n payload h. new 0 id n payload (ap some h)))
        (λ k. new (suc k))

-- A reply that shows the chunk in the slot, with its payload.
record Shows (rid : String) (n : ℕ) (body : HttpBody) (t : HttpTransport) : Type 0 where
  call : ℕ
  slot : t.chunk ≡ some call
  named : (t.chunks call).transfer_id ≡ rid
  numbered : (t.chunks call).sequence ≡ n
  shown : body ≡ bytes (t.chunks call).payload

get_chunk-Shows :
    (rid : String) (n : ℕ) (headers : Dict String String) (body : HttpBody) (t : HttpTransport)
    → get_chunk rid n t ≡ replies 200 headers body
    → Shows rid n body t
unfolding get_chunk
get_chunk-Shows rid n headers body t h = elim (Option-cases t.chunk) [
  | inl e ↦ absurd (ground (arith, e))
  | inr (c, e) ↦ record {
    call = c;
    slot = e;
    named = ground (arith, e, eq_iff (t.chunks c).transfer_id rid);
    numbered = ground (arith, e);
    shown = ground (arith, e);
  }
]

-- A call of `SendTransferChunk` is under way, its payload is the reply's body, and among the events is one that
-- begins a call for the transfer with the number and this payload.
pub record IsServed (es : List RelayEvent) (rid : String) (n : ℕ) (body : HttpBody)
    (t : HttpTransport) : Type 0 where
  pub call : ℕ
  pub under_way : IsUnderWay t call
  pub shown : body ≡ bytes (t.chunks call).payload
  pub place : ℕ
  pub begun : get_elem? es place ≡ some (begins_chunk rid n (t.chunks call).payload)

IsBegun : List RelayEvent → String → ℕ → List ℕ → Type 0
IsBegun es rid n payload = (k : ℕ) × (get_elem? es k ≡ some (begins_chunk rid n payload))

new_relay-AllBegun :
    (id : String) (es : List RelayEvent) → AllBegun (IsBegun es) (new_relay id).transport
unfolding new_relay AllBegun
new_relay-AllBegun id es c h = absurd (omega (arith, h))

-- However the steps interleave on a new transport, a device that asks for a chunk and is given one (status 200)
-- is given the payload of a call of `SendTransferChunk` that is under way: the very bytes with which a call for
-- this transfer id and sequence number was begun.
pub get_chunk-IsServed :
    (id : String) (es : List RelayEvent) (rid : String) (n : ℕ) (headers : Dict String String)
    (body : HttpBody)
    → get_chunk rid n (relay_run (new_relay id) es).transport ≡ replies 200 headers body
    → IsServed es rid n body (relay_run (new_relay id) es).transport
unfolding IsBegun AllBegun
get_chunk-IsServed id es rid n headers body h =
    let t = (relay_run (new_relay id) es).transport in
    let k = get_chunk-Shows rid n headers body t h in
    let (place, at) =
      relay_run-AllBegun (IsBegun es) (new_relay id) es (new_relay-AllBegun id es)
        (λ i rid n payload at. (i, at)) k.call
        ((run-RelaySound id es).transport.bounded k.call k.slot) in
    record {
      call = k.call;
      under_way = (run-OneCall id es k.call).0 k.slot;
      shown = k.shown;
      place = place;
      begun = at ∙ cc (k.named, k.numbered);
    }
