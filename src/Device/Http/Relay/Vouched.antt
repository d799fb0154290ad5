-- ===== src/Device/Http/Relay/Vouched.antt =====
-- What the steps of the transport keep of the answers that the device has given.
use zshell_gateway.Base.{
  ℕ, suc, ◌<◌, String, ◌≡◌, refl, sym, inl, inr, ◌∙◌, List, Option, none, some, arith, nat_beq,
  Option-cases, if-elim,
}
use mathlib.Core.Path.{subst}
use zshell_gateway.Device.Types.{Error}
use zshell_gateway.Device.Http.Types.{
  Marshal, Outgoing, transport_chunk, Progress, blocked, returns, waiting, finished, HttpChunk,
  HttpTransport,
}
use zshell_gateway.Device.Http.Transport.{
  SendCase, holds_chunk, http_send, begin_chunk, announce_chunk, ChunkWake, acknowledged, timed_out,
  transport_done, wake_chunk, ack_error, set_chunk, clear_chunk, finish_chunk, post_ack,
}
use zshell_gateway.Device.Http.Relay.Names.{http_send-chunks}

-- What the chunk's call has returned, and what stands in its channel, was said by the device.
pub record Vouched (Said : String → ℕ → Type 0) (k : HttpChunk) : Type 0 where
  pub ended : k.phase ≡ finished none → Said k.transfer_id k.sequence
  pub acked : k.ack ≡ some none → Said k.transfer_id k.sequence

nothing_said :
    (o : Option (Option String)) (a : Option String)
    → o ≡ some a
    → ack_error a ≡ none
    → o ≡ some none
nothing_said o none e h = e
nothing_said o (some x) e h = absurd (cc h)

module _ (Said : String → ℕ → Type 0) where
  pub record AllVouched (t : HttpTransport) : Type 0 where
    pub vouched : (c : ℕ) → Vouched Said (t.chunks c)
    pub bounded : (c : ℕ) → t.chunk ≡ some c → c < t.next_chunk

  pub set_chunk-AllVouched :
      (c : ℕ) (k : HttpChunk) (t : HttpTransport)
      → AllVouched t
      → Vouched Said k
      → AllVouched (set_chunk c k t)
  unfolding set_chunk
  set_chunk-AllVouched c k t inv v = record {
    vouched =
        λ j. if-elim (Vouched Said) (nat_beq c j) k (t.chunks j) (λ _. v) (λ _. inv.vouched j);
    bounded = inv.bounded;
  }

  pub clear_chunk-AllVouched :
      (c : ℕ) (t : HttpTransport) → AllVouched t → AllVouched (clear_chunk c t)
  unfolding clear_chunk
  clear_chunk-AllVouched c t inv =
      if-elim AllVouched (holds_chunk c t.chunk) _ _
        (λ _. record { vouched = inv.vouched; bounded = λ j h. absurd (cc h) }) (λ _. inv)

  pub finish_chunk-AllVouched :
      (c : ℕ) (result : Option Error) (t : HttpTransport)
      → AllVouched t
      → (result ≡ none → Said (t.chunks c).transfer_id (t.chunks c).sequence)
      → AllVouched (finish_chunk c result t)
  unfolding finish_chunk
  finish_chunk-AllVouched c result t inv said = clear_chunk-AllVouched c _ (
      set_chunk-AllVouched c _ t inv
        (record { ended = λ h. said (result_of h); acked = (inv.vouched c).acked }))
    where
      result_of : finished result ≡ finished none → result ≡ none
      result_of h = cc h

  pub http_send-AllVouched :
      (marshal : Marshal) (case : SendCase) (v : Outgoing) (t : HttpTransport)
      → AllVouched t
      → AllVouched (http_send marshal case v t).1
  unfolding http_send
  http_send-AllVouched marshal case v t inv =
      let same = http_send-chunks marshal case v t in
      record {
        vouched = λ c. subst (λ f. Vouched Said (f c)) (sym same.0) (inv.vouched c);
        bounded = λ c h. subst (λ n. c < n) (sym same.2) (inv.bounded c (sym same.1 ∙ h));
      }

  pub begin_chunk-AllVouched :
      (id : String) (n : ℕ) (payload : List ℕ) (t : HttpTransport)
      → AllVouched t
      → AllVouched (begin_chunk id n payload t).1
  unfolding begin_chunk
  begin_chunk-AllVouched id n payload t inv = elim (Option-cases t.chunk) [
    | inr (c, e) ↦ rw (e, begin_chunk) inv
    | inl e ↦
        rw (e, begin_chunk)
          (record {
            vouched = λ j.
                if-elim (Vouched Said) (nat_beq t.next_chunk j) _ _
                  (λ _. record { ended = λ h. absurd (cc h); acked = λ h. absurd (cc h) })
                  (λ _. inv.vouched j);
            bounded = λ j h. next_of j h;
          })
  ]
    where
      next_of : (j : ℕ) → some t.next_chunk ≡ some j → j < suc t.next_chunk
      next_of j h = ground (arith, h)

  -- what `announce_chunk` does with the answer of the send
  pub announced-AllVouched :
      (c : ℕ) (t : HttpTransport)
      → AllVouched t
      → (p : Progress (Option Error))
      → AllVouched (elim p as (λ _. HttpTransport) [
        | blocked ↦ t
        | returns failure ↦ elim failure [
          | some e ↦ finish_chunk c (some e) t
          | none ↦ set_chunk c (record (t.chunks c) { phase = waiting }) t
        ]
      ])
  announced-AllVouched c t inv blocked = inv
  announced-AllVouched c t inv (returns none) =
      set_chunk-AllVouched c _ t inv
        (record { ended = λ h. absurd (cc h); acked = (inv.vouched c).acked })
  announced-AllVouched c t inv (returns (some e)) =
      finish_chunk-AllVouched c (some e) t inv (λ h. absurd (cc h))

  pub announce_chunk-AllVouched :
      (marshal : Marshal) (case : SendCase) (c : ℕ) (t : HttpTransport)
      → AllVouched t
      → AllVouched (announce_chunk marshal case c t)
  unfolding announce_chunk
  announce_chunk-AllVouched marshal case c t inv =
      let k = t.chunks c in
      let v = transport_chunk k.transfer_id k.sequence in
      announced-AllVouched c (http_send marshal case v t).1
        (http_send-AllVouched marshal case v t inv) (http_send marshal case v t).0

  pub wake_chunk-AllVouched :
      (w : ChunkWake) (c : ℕ) (t : HttpTransport) → AllVouched t → AllVouched (wake_chunk w c t)
  unfolding wake_chunk
  wake_chunk-AllVouched acknowledged c t inv = go (t.chunks c).ack refl
    where
      go :
          (o : Option (Option String))
          → (t.chunks c).ack ≡ o
          → AllVouched (elim o as (λ _. HttpTransport) [
            | none ↦ t
            | some answer ↦
                finish_chunk c
                  (ack_error answer)
                  (set_chunk c (record (t.chunks c) { ack = none }) t)
          ])
      go none e = inv
      go (some answer) e =
          finish_chunk-AllVouched c (ack_error answer) _
            (set_chunk-AllVouched c _ t inv
              (record { ended = (inv.vouched c).ended; acked = λ h. absurd (cc h) }))
            (λ h.
              if-elim (λ (k : HttpChunk). Said k.transfer_id k.sequence) (nat_beq c c) _ _
                (λ _. (inv.vouched c).acked (nothing_said (t.chunks c).ack answer e h))
                (λ _. (inv.vouched c).acked (nothing_said (t.chunks c).ack answer e h)))
  wake_chunk-AllVouched timed_out c t inv = finish_chunk-AllVouched c _ t inv (λ h. absurd (cc h))
  wake_chunk-AllVouched transport_done c t inv =
      if-elim AllVouched t.done _ _ (λ _. finish_chunk-AllVouched c _ t inv (λ h. absurd (cc h)))
        (λ _. inv)

  pub post_ack-AllVouched :
      (c : ℕ) (answer : Option String) (t : HttpTransport)
      → AllVouched t
      → (answer ≡ none → Said (t.chunks c).transfer_id (t.chunks c).sequence)
      → AllVouched (post_ack c answer t).1
  unfolding post_ack
  post_ack-AllVouched c answer t inv said = elim (Option-cases (t.chunks c).ack) [
    | inr (x, e) ↦ rw (e, post_ack) inv
    | inl e ↦
        rw (e, post_ack)
          (set_chunk-AllVouched c (record (t.chunks c) { ack = some answer }) t inv
            (record { ended = (inv.vouched c).ended; acked = λ h. said (answer_of h) }))
  ]
    where
      answer_of : some answer ≡ some none → answer ≡ none
      answer_of h = cc h
