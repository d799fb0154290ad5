-- ===== src/Device/Http/Relay/Acknowledged.antt =====
-- `SendTransferChunk` returns no error only for a chunk that the device has acknowledged.
use zshell_gateway.Base.{
  ℕ, suc, String, ◌≡◌, refl, inl, inr, true, false, List, [], ◌∷◌, none, some, str_beq, get_elem?,
  Option-cases, if-elim,
}
use zshell_gateway.Text.Split.{parse_uint}
use zshell_gateway.Device.Http.Types.{finished, HttpRequest}
use zshell_gateway.Device.Http.Transport.{post_ack}
use zshell_gateway.Device.Http.Chunks.{begin_ack, pending_chunk}
use zshell_gateway.Device.Http.Relay.{
  Relay, RelayEvent, sends, polled, begins_chunk, announces, wakes_call, acks, hands_answer, gets,
  write_fails, closes, relay_step, relay_run, new_relay, is_announcing, is_waiting,
}
use zshell_gateway.Device.Http.Relay.Names.{
  begin_chunk-SameNames, SameChunks-SameNames, http_send-SameChunks, announce_chunk-SameChunks,
  wake_chunk-SameChunks, post_ack-SameChunks,
}
use zshell_gateway.Device.Http.Relay.Vouched.{
  http_send-AllVouched, begin_chunk-AllVouched, announce_chunk-AllVouched, wake_chunk-AllVouched,
  post_ack-AllVouched,
}
use zshell_gateway.Device.Http.Relay.Answers.{
  RelaySound, moved-RelaySound, Grants, ack_arrives-RelaySound, hand_answer-RelaySound,
}

module _ (Said : String → ℕ → Type 0) where
  pub relay_step-RelaySound :
      (s : Relay) (e : RelayEvent)
      → RelaySound Said s
      → Grants Said e
      → RelaySound Said (relay_step s e)
  unfolding relay_step
  relay_step-RelaySound s (sends marshal case v) inv g =
      moved-RelaySound Said s _ inv
        (http_send-AllVouched Said marshal case v s.transport inv.transport)
        (SameChunks-SameNames _ _ (http_send-SameChunks marshal case v s.transport))
  relay_step-RelaySound s polled inv g = record {
    transport = record { vouched = inv.transport.vouched; bounded = inv.transport.bounded };
    answers = inv.answers;
  }
  relay_step-RelaySound s (begins_chunk id n payload) inv g =
      moved-RelaySound Said s _ inv
        (begin_chunk-AllVouched Said id n payload s.transport inv.transport)
        (begin_chunk-SameNames id n payload s.transport)
  relay_step-RelaySound s (announces marshal case c) inv g =
      if-elim (RelaySound Said) (is_announcing (s.transport.chunks c).phase) _ _
        (λ _.
          moved-RelaySound Said s _ inv
            (announce_chunk-AllVouched Said marshal case c s.transport inv.transport)
            (SameChunks-SameNames _ _ (announce_chunk-SameChunks marshal case c s.transport)))
        (λ _. inv)
  relay_step-RelaySound s (wakes_call w c) inv g =
      if-elim (RelaySound Said) (is_waiting (s.transport.chunks c).phase) _ _
        (λ _.
          moved-RelaySound Said s _ inv (wake_chunk-AllVouched Said w c s.transport inv.transport)
            (SameChunks-SameNames _ _ (wake_chunk-SameChunks w c s.transport)))
        (λ _. inv)
  relay_step-RelaySound s (acks id text r) inv g =
      ack_arrives-RelaySound Said id text r s inv g (begin_ack id text r s.transport) refl
  relay_step-RelaySound s (hands_answer case n) inv g =
      elim (Option-cases (get_elem? s.answers n)) [
        | inl e ↦ rw (e, relay_step) inv
        | inr ((c, answer), e) ↦
            rw (e, relay_step) (hand_answer-RelaySound Said case n c answer s inv e)
      ]
  relay_step-RelaySound s (gets id n) inv g = elim (Option-cases (pending_chunk id n s.transport)) [
    | inl e ↦ rw (e, relay_step) inv
    | inr (c, e) ↦ rw (e, relay_step) (record { transport = inv.transport; answers = inv.answers })
  ]
  relay_step-RelaySound s (write_fails n x) inv g = elim (Option-cases (get_elem? s.writing n)) [
    | inl e ↦ rw (e, relay_step) inv
    | inr (c, e) ↦
        rw (e, relay_step)
          (let moved =
              moved-RelaySound Said s (post_ack c (some x) s.transport).1 inv
                (post_ack-AllVouched Said c (some x) s.transport inv.transport (λ h. absurd (cc h)))
                (SameChunks-SameNames _ _ (post_ack-SameChunks c (some x) s.transport)) in
            record { transport = moved.transport; answers = moved.answers })
  ]
  relay_step-RelaySound s closes inv g = record {
    transport = record { vouched = inv.transport.vouched; bounded = inv.transport.bounded };
    answers = inv.answers;
  }

  relay_run-RelaySound :
      (s : Relay) (es : List RelayEvent)
      → RelaySound Said s
      → ((k : ℕ) (e : RelayEvent) → get_elem? es k ≡ some e → Grants Said e)
      → RelaySound Said (relay_run s es)
  unfolding relay_run
  relay_run-RelaySound s [] inv g = inv
  relay_run-RelaySound s (e ∷ es) inv g =
      relay_run-RelaySound (relay_step s e) es (relay_step-RelaySound s e inv (g 0 e refl))
        (λ k x h. g (suc k) x h)

-- Among the events the device has acknowledged the chunk: a `POST` for its transfer and its number, without
-- "ok=0".
pub record IsAcked (es : List RelayEvent) (id : String) (n : ℕ) : Type 0 where
  pub place : ℕ
  pub number : String
  pub request : HttpRequest
  pub at : get_elem? es place ≡ some (acks id number request)
  pub parsed : parse_uint number ≡ some n
  pub posted : str_beq request.method "POST" ≡ true
  pub fine : str_beq request.query_ok "0" ≡ false

granted_by :
    (es : List RelayEvent) (k : ℕ) (e : RelayEvent)
    → get_elem? es k ≡ some e
    → Grants (IsAcked es) e
granted_by es k (acks id text r) at = λ n p m f. record {
  place = k;
  number = text;
  request = r;
  at = at;
  parsed = p;
  posted = m;
  fine = f;
}
granted_by es k (sends a b c) at = tt
granted_by es k polled at = tt
granted_by es k (begins_chunk a b c) at = tt
granted_by es k (announces a b c) at = tt
granted_by es k (wakes_call a b) at = tt
granted_by es k (hands_answer a b) at = tt
granted_by es k (gets a b) at = tt
granted_by es k (write_fails a b) at = tt
granted_by es k closes at = tt

new_relay-RelaySound : (Said : String → ℕ → Type 0) (id : String) → RelaySound Said (new_relay id)
unfolding new_relay
new_relay-RelaySound Said id = record {
  transport = record {
    vouched = λ c. record { ended = λ h. absurd (cc h); acked = λ h. absurd (cc h) };
    bounded = λ c h. absurd (cc h);
  };
  answers = λ n c h. absurd (cc h);
}

pub run-RelaySound :
    (id : String) (es : List RelayEvent) → RelaySound (IsAcked es) (relay_run (new_relay id) es)
run-RelaySound id es =
    relay_run-RelaySound (IsAcked es) (new_relay id) es (new_relay-RelaySound (IsAcked es) id)
      (granted_by es)

-- However the steps of the calls, of the polls and of the device's requests interleave on a new transport, a
-- call of `SendTransferChunk` that has returned no error is one whose chunk the device has acknowledged: it
-- has posted to that transfer id and sequence number, and not with "ok=0".
pub success-IsAcked :
    (id : String) (es : List RelayEvent) (c : ℕ)
    → ((relay_run (new_relay id) es).transport.chunks c).phase ≡ finished none
    → IsAcked es
        ((relay_run (new_relay id) es).transport.chunks c).transfer_id
        ((relay_run (new_relay id) es).transport.chunks c).sequence
success-IsAcked id es c h = ((run-RelaySound id es).transport.vouched c).ended h
