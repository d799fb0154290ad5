-- ===== src/Device/Http/Relay/Names.antt =====
-- Sending leaves the chunks alone, and no step changes the name of a chunk.
use zshell_gateway.Base.{
  ℕ, ◌<◌, ◌≤◌, String, ◌≡◌, refl, sym, inl, inr, ◌∙◌, List, Option, none, some, arith, nat_beq,
  nat_beq_iff, Option-cases, if-elim,
}
use mathlib.Core.Path.{subst}
use zshell_gateway.Device.Types.{Error}
use zshell_gateway.Device.Transfer.Started.{Result-cases}
use zshell_gateway.Device.Http.Types.{
  Marshal, Outgoing, transport_chunk, Progress, blocked, returns, waiting, finished, HttpChunk,
  HttpTransport,
}
use zshell_gateway.Device.Http.Transport.{
  SendCase, enqueues, sees_done, holds_chunk, http_send, begin_chunk, announce_chunk, ChunkWake,
  acknowledged, timed_out, transport_done, wake_chunk, ack_error, set_chunk, clear_chunk,
  finish_chunk, post_ack,
}

-- Sending is no matter of chunks.
pub http_send-chunks :
    (marshal : Marshal) (case : SendCase) (v : Outgoing) (t : HttpTransport)
    → ((http_send marshal case v t).1.chunks ≡ t.chunks)
      × ((http_send marshal case v t).1.chunk ≡ t.chunk)
      × ((http_send marshal case v t).1.next_chunk ≡ t.next_chunk)
unfolding http_send
http_send-chunks marshal enqueues v t = elim (Result-cases (marshal v)) [
  | inr (x, e) ↦ rw (e, http_send) (refl, refl, refl)
  | inl (p, e) ↦ rw (e, http_send) (ground arith)
]
http_send-chunks marshal sees_done v t = elim (Result-cases (marshal v)) [
  | inr (x, e) ↦ rw (e, http_send) (refl, refl, refl)
  | inl (p, e) ↦ rw (e, http_send) (ground arith)
]

-- the same transfer, number and payload
abbrev pub SameName : HttpChunk → HttpChunk → Type 0
SameName k l = (l.transfer_id ≡ k.transfer_id) × (l.sequence ≡ k.sequence) × (l.payload ≡ k.payload)

-- No chunk is allocated, and the chunks keep their names.
pub record SameChunks (t u : HttpTransport) : Type 0 where
  pub next : u.next_chunk ≡ t.next_chunk
  pub names : (c : ℕ) → SameName (t.chunks c) (u.chunks c)

pub same_chunks : (t : HttpTransport) → SameChunks t t
same_chunks t = record { next = refl; names = λ c. (refl, refl, refl) }

pub SameChunks-trans : (t u v : HttpTransport) → SameChunks t u → SameChunks u v → SameChunks t v
SameChunks-trans t u v a b = record {
  next = b.next ∙ a.next;
  names = λ c. let x = a.names c in let y = b.names c in (y.0 ∙ x.0, y.1 ∙ x.1, y.2 ∙ x.2);
}

pub set_chunk-SameChunks :
    (c : ℕ) (k : HttpChunk) (t : HttpTransport)
    → SameName (t.chunks c) k
    → SameChunks t (set_chunk c k t)
unfolding set_chunk
set_chunk-SameChunks c k t same = record {
  next = refl;
  names = λ j.
      if-elim (λ (x : HttpChunk). SameName (t.chunks j) x) (nat_beq c j) _ _
        (λ e. subst (λ i. SameName (t.chunks i) k) ((nat_beq_iff c j).0 e) same)
        (λ _. (refl, refl, refl));
}

pub finish_chunk-SameChunks :
    (c : ℕ) (result : Option Error) (t : HttpTransport) → SameChunks t (finish_chunk c result t)
unfolding finish_chunk clear_chunk
finish_chunk-SameChunks c result t =
    let t' = set_chunk c (record (t.chunks c) { phase = finished result }) t in
    let same =
      set_chunk-SameChunks c (record (t.chunks c) { phase = finished result }) t
        (refl, refl, refl) in
    if-elim (SameChunks t) (holds_chunk c t'.chunk) _ _
      (λ _. record { next = same.next; names = same.names }) (λ _. same)

pub http_send-SameChunks :
    (marshal : Marshal) (case : SendCase) (v : Outgoing) (t : HttpTransport)
    → SameChunks t (http_send marshal case v t).1
http_send-SameChunks marshal case v t =
    let same = http_send-chunks marshal case v t in
    record {
      next = same.2;
      names = λ c.
          subst (λ (f : ℕ → HttpChunk). SameName (t.chunks c) (f c)) (sym same.0)
            (refl, refl, refl);
    }

pub announced-SameChunks :
    (c : ℕ) (t : HttpTransport) (p : Progress (Option Error))
    → SameChunks t (elim p as (λ _. HttpTransport) [
      | blocked ↦ t
      | returns failure ↦ elim failure [
        | some e ↦ finish_chunk c (some e) t
        | none ↦ set_chunk c (record (t.chunks c) { phase = waiting }) t
      ]
    ])
announced-SameChunks c t blocked = same_chunks t
announced-SameChunks c t (returns none) =
    set_chunk-SameChunks c (record (t.chunks c) { phase = waiting }) t (refl, refl, refl)
announced-SameChunks c t (returns (some e)) = finish_chunk-SameChunks c (some e) t

pub announce_chunk-SameChunks :
    (marshal : Marshal) (case : SendCase) (c : ℕ) (t : HttpTransport)
    → SameChunks t (announce_chunk marshal case c t)
unfolding announce_chunk
announce_chunk-SameChunks marshal case c t =
    let k = t.chunks c in
    let v = transport_chunk k.transfer_id k.sequence in
    let t' = (http_send marshal case v t).1 in
    SameChunks-trans t t' _ (http_send-SameChunks marshal case v t)
      (announced-SameChunks c t' (http_send marshal case v t).0)

pub wake_chunk-SameChunks :
    (w : ChunkWake) (c : ℕ) (t : HttpTransport) → SameChunks t (wake_chunk w c t)
unfolding wake_chunk
wake_chunk-SameChunks acknowledged c t = elim (Option-cases (t.chunks c).ack) [
  | inl e ↦ rw (e, wake_chunk) (same_chunks t)
  | inr (a, e) ↦
      rw (e, wake_chunk)
        (SameChunks-trans t (set_chunk c (record (t.chunks c) { ack = none }) t) _
          (set_chunk-SameChunks c (record (t.chunks c) { ack = none }) t (refl, refl, refl))
          (finish_chunk-SameChunks c (ack_error a)
            (set_chunk c (record (t.chunks c) { ack = none }) t)))
]
wake_chunk-SameChunks timed_out c t = finish_chunk-SameChunks c _ t
wake_chunk-SameChunks transport_done c t =
    if-elim (SameChunks t) t.done _ _ (λ _. finish_chunk-SameChunks c _ t) (λ _. same_chunks t)

pub post_ack-SameChunks :
    (c : ℕ) (answer : Option String) (t : HttpTransport) → SameChunks t (post_ack c answer t).1
unfolding post_ack
post_ack-SameChunks c answer t = elim (Option-cases (t.chunks c).ack) [
  | inr (x, e) ↦ rw (e, post_ack) (same_chunks t)
  | inl e ↦
      rw (e, post_ack)
        (set_chunk-SameChunks c (record (t.chunks c) { ack = some answer }) t (refl, refl, refl))
]

-- The chunks that have been allocated keep their names.
pub record SameNames (t u : HttpTransport) : Type 0 where
  pub grows : t.next_chunk ≤ u.next_chunk
  pub names : (c : ℕ) → c < t.next_chunk → SameName (t.chunks c) (u.chunks c)

pub same_names : (t : HttpTransport) → SameNames t t
same_names t = record { grows = omega arith; names = λ c h. (refl, refl, refl) }

pub SameChunks-SameNames : (t u : HttpTransport) → SameChunks t u → SameNames t u
SameChunks-SameNames t u same = record {
  grows = omega (arith, same.next);
  names = λ c _. same.names c;
}

pub begin_chunk-SameNames :
    (id : String) (n : ℕ) (payload : List ℕ) (t : HttpTransport)
    → SameNames t (begin_chunk id n payload t).1
unfolding begin_chunk set_chunk
begin_chunk-SameNames id n payload t = elim (Option-cases t.chunk) [
  | inr (c, e) ↦
      rw (e, begin_chunk) (record { grows = omega arith; names = λ _ _. (refl, refl, refl) })
  | inl e ↦
      rw (e, begin_chunk)
        (record {
          grows = omega arith;
          names = λ j h.
              if-elim (λ (x : HttpChunk). SameName (t.chunks j) x) (nat_beq t.next_chunk j) _ _
                (λ e'. absurd (omega (arith, h, (nat_beq_iff t.next_chunk j).0 e')))
                (λ _. (refl, refl, refl));
        })
]
