-- ===== src/Device/Http/Relay/Answers.antt =====
-- The answers on their way to a chunk were given for that chunk.
use zshell_gateway.Base.{
  ℕ, zero, suc, ◌<◌, String, ◌≡◌, sym, true, false, ◌∷◌, Option, none, some, arith, str_beq,
  get_elem?,
}
use mathlib.Core.Path.{subst}
use zshell_gateway.Text.Split.{parse_uint}
use zshell_gateway.Device.Http.Types.{
  HttpReply, Progress, blocked, returns, HttpTransport, HttpRequest,
}
use zshell_gateway.Device.Http.Sessions.{HandCase, hands_over, hand_closed, hand_gone}
use zshell_gateway.Device.Http.Chunks.{Acking, replied, answering, begin_ack, finish_ack}
use zshell_gateway.Device.Http.Relay.{Relay, RelayEvent, acks, without, ack_arrives, hand_answer}
use zshell_gateway.Device.Http.Relay.Names.{
  SameNames, same_names, SameChunks-SameNames, post_ack-SameChunks,
}
use zshell_gateway.Device.Http.Relay.Vouched.{AllVouched, post_ack-AllVouched}
use zshell_gateway.Device.Http.Relay.Granted.{IsGranted, begin_ack-IsGranted, get-without}

module _ (Said : String → ℕ → Type 0) where
  -- An answer on its way was given for the chunk that it goes to.
  pub record RelaySound (s : Relay) : Type 0 where
    pub transport : AllVouched Said s.transport
    pub answers :
        (n c : ℕ)
        → get_elem? s.answers n ≡ some (c, none)
        → (c < s.transport.next_chunk)
          × Said (s.transport.chunks c).transfer_id (s.transport.chunks c).sequence

  -- a step of the transport that names the chunks as before
  pub moved-RelaySound :
      (s : Relay) (t : HttpTransport)
      → RelaySound s
      → AllVouched Said t
      → SameNames s.transport t
      → RelaySound (record s { transport = t })
  moved-RelaySound s t inv all same = record {
    transport = all;
    answers = λ n c h.
        let (lt, said) = inv.answers n c h in
        let (i, q, _) = same.names c lt in
        (
          omega (arith, lt, same.grows),
          subst (λ n. Said (t.chunks c).transfer_id n) (sym q)
              (subst (λ k. Said k (s.transport.chunks c).sequence) (sym i) said),
        );
  }

  -- the device says so
  abbrev pub Grants : RelayEvent → Type 0
  Grants (acks id text r) =
      (n : ℕ)
      → parse_uint text ≡ some n
      → str_beq r.method "POST" ≡ true
      → str_beq r.query_ok "0" ≡ false
      → Said id n
  Grants _ = Unit {0}

  pub ack_arrives-RelaySound :
      (id text : String) (r : HttpRequest) (s : Relay)
      → RelaySound s
      → Grants (acks id text r)
      → (a : Acking) → begin_ack id text r s.transport ≡ a
      → RelaySound (ack_arrives a s)
  ack_arrives-RelaySound id text r s inv g (replied x) e = inv
  ack_arrives-RelaySound id text r s inv g (answering c (some x)) e = record {
    transport = inv.transport;
    answers = λ n k h. older n k h;
  }
    where
      older :
          (n k : ℕ)
          → get_elem? ((c, some x) ∷ s.answers) n ≡ some (k, none)
          → (k < s.transport.next_chunk)
            × Said (s.transport.chunks k).transfer_id (s.transport.chunks k).sequence
      older zero k h = absurd (ground (arith, h))
      older (suc n) k h = inv.answers n k h
  ack_arrives-RelaySound id text r s inv g (answering c none) e = record {
    transport = inv.transport;
    answers = λ n k h. older n k h;
  }
    where
      granted : IsGranted id text r c s.transport
      granted = begin_ack-IsGranted id text r c s.transport e

      older :
          (n k : ℕ)
          → get_elem? ((c, none) ∷ s.answers) n ≡ some (k, none)
          → (k < s.transport.next_chunk)
            × Said (s.transport.chunks k).transfer_id (s.transport.chunks k).sequence
      older zero k h =
          let p = granted.pending in
          let same : c ≡ k = ground (arith, h) in
          let said = g granted.sequence granted.parsed granted.posted granted.fine in
          subst
            (λ j.
              (j < s.transport.next_chunk)
              × Said (s.transport.chunks j).transfer_id (s.transport.chunks j).sequence)
            same
            (
              inv.transport.bounded c p.slot,
              subst (λ i. Said i (s.transport.chunks c).sequence) (sym p.named)
                  (subst (Said id) (sym p.numbered) said),
            )
      older (suc n) k h = inv.answers n k h

  pub finish_ack-AllVouched :
      (case : HandCase) (c : ℕ) (answer : Option String) (t : HttpTransport)
      → AllVouched Said t
      → (answer ≡ none → Said (t.chunks c).transfer_id (t.chunks c).sequence)
      → AllVouched Said (finish_ack case c answer t).1 × SameNames t (finish_ack case c answer t).1
  unfolding finish_ack
  finish_ack-AllVouched hands_over c answer t inv said = (
    post_ack-AllVouched Said c answer t inv said,
    SameChunks-SameNames _ _ (post_ack-SameChunks c answer t),
  )
  finish_ack-AllVouched hand_closed c answer t inv said = (inv, same_names t)
  finish_ack-AllVouched hand_gone c answer t inv said = (inv, same_names t)

  -- what `hand_answer` does where the handler has come to its end, or not
  pub handed-RelaySound :
      (n : ℕ) (s : Relay) (t : HttpTransport)
      → RelaySound s
      → AllVouched Said t
      → SameNames s.transport t
      → (p : Progress HttpReply)
      → RelaySound (elim p as (λ _. Relay) [
        | blocked ↦ s
        | returns _ ↦ record s { transport = t; answers = without n s.answers }
      ])
  handed-RelaySound n s t inv all same blocked = inv
  handed-RelaySound n s t inv all same (returns x) =
      let moved = moved-RelaySound s t inv all same in
      record {
        transport = all;
        answers =
            λ k c h. let (j, g) = get-without n k s.answers (c, none) h in moved.answers j c g;
      }

  pub hand_answer-RelaySound :
      (case : HandCase) (n c : ℕ) (answer : Option String) (s : Relay)
      → RelaySound s
      → get_elem? s.answers n ≡ some (c, answer)
      → RelaySound (hand_answer case n (c, answer) s)
  unfolding hand_answer
  hand_answer-RelaySound case n c answer s inv found =
      let done =
        finish_ack-AllVouched case c answer s.transport inv.transport
          (λ e. (inv.answers n c (subst (λ a. get_elem? s.answers n ≡ some (c, a)) e found)).1) in
      handed-RelaySound n s (finish_ack case c answer s.transport).1 inv done.0 done.1
        (finish_ack case c answer s.transport).0
