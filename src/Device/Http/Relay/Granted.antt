-- ===== src/Device/Http/Relay/Granted.antt =====
-- What a successful answer of the device goes to.
use zshell_gateway.Base.{
  ℕ, zero, suc, String, ◌≡◌, inl, inr, true, false, List, [], ◌∷◌, none, some, arith, str_beq,
  eq_iff, get_elem?, Option-cases,
}
use zshell_gateway.Text.Split.{parse_uint}
use zshell_gateway.Device.Http.Types.{HttpTransport, HttpRequest}
use zshell_gateway.Device.Http.Chunks.{answering, begin_ack, pending_chunk, ack_answer}
use zshell_gateway.Device.Http.Relay.{without}

-- What `pending_chunk` finds is the pending chunk, and has the name that is asked for.
pub record IsPending (id : String) (n c : ℕ) (t : HttpTransport) : Type 0 where
  pub slot : t.chunk ≡ some c
  pub named : (t.chunks c).transfer_id ≡ id
  pub numbered : (t.chunks c).sequence ≡ n

pub pending_chunk-IsPending :
    (id : String) (n c : ℕ) (t : HttpTransport) → pending_chunk id n t ≡ some c → IsPending id n c t
unfolding pending_chunk
pending_chunk-IsPending id n c t h = elim (Option-cases t.chunk) [
  | inl e ↦ absurd (ground (arith, e))
  | inr (k, e) ↦
      let same : k ≡ c = ground (arith, e) in
      record {
        slot = ground (arith, e);
        named = ground (arith, e, same, eq_iff (t.chunks k).transfer_id id);
        numbered = ground (arith, e, same);
      }
]

-- A successful answer that is on its way to a chunk.
pub record IsGranted (id text : String) (r : HttpRequest) (c : ℕ) (t : HttpTransport) : Type 0 where
  pub sequence : ℕ
  pub parsed : parse_uint text ≡ some sequence
  pub posted : str_beq r.method "POST" ≡ true
  pub fine : str_beq r.query_ok "0" ≡ false
  pub pending : IsPending id sequence c t

pub begin_ack-IsGranted :
    (id text : String) (r : HttpRequest) (c : ℕ) (t : HttpTransport)
    → begin_ack id text r t ≡ answering c none
    → IsGranted id text r c t
unfolding begin_ack ack_answer
begin_ack-IsGranted id text r c t h = elim (Option-cases (parse_uint text)) [
  | inl e ↦ absurd (ground (arith, e))
  | inr (n, e) ↦ elim (Option-cases (pending_chunk id n t)) [
    | inl e' ↦ absurd (ground (arith, e, e'))
    | inr (k, e') ↦ record {
      sequence = n;
      parsed = e;
      posted = ground (arith, e, e');
      fine = ground (arith, e, e');
      pending = pending_chunk-IsPending id n c t (ground (arith, e, e'));
    }
  ]
]

pub get-without :
    {A : Type 0} (n k : ℕ) (xs : List A) (a : A)
    → get_elem? (without n xs) k ≡ some a
    → (j : ℕ) × (get_elem? xs j ≡ some a)
get-without n k [] a h = absurd (cc h)
get-without zero k (x ∷ xs) a h = (suc k, h)
get-without (suc n) zero (x ∷ xs) a h = (zero, h)
get-without (suc n) (suc k) (x ∷ xs) a h = let (j, g) = get-without n k xs a h in (suc j, g)
