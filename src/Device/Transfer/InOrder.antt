-- ===== src/Device/Transfer/InOrder.antt =====
-- Which chunks reach a device: only the next one of a running transfer, from its source to its target.
use mathlib.Core.Path.{subst}
use zshell_gateway.Base.{
  ℕ, ◌+◌, ◌%◌, String, ◌≡◌, refl, sym, ap, ◌∙◌, ◌⊎◌, inl, inr, true, false, ◌&&◌, List, [], ◌∷◌,
  ◌++◌, Option, none, some, arith, nat_beq, nat_beq_iff, Option-cases, string_eq, length, if-elim,
}
use mathlib.Core.List.{append-nil}
use zshell_gateway.Dict.{get, get-put_self}
use zshell_gateway.Device.Types.{
  Message, call, ping, transfer_target_start, transfer_source_start, transfer_send, transfer_cancel,
  transfer_commit, transfer_chunk, Transfer, Session, Manager, Error, Net, uint64,
}
use zshell_gateway.Device.Session.{send, send_transfer_chunk, set_session, accepted}
use zshell_gateway.Device.Transfer.State.{
  is_final, is_transferring, store, notify, fail_transfer_relay_locked,
}
use zshell_gateway.Device.Transfer.Chunks.{
  Verdict, ignored, refused, out_of_order, too_large, relayed, judge, count_chunk, relay_chunk,
  chunk_action, handle_transfer_chunk,
}
use zshell_gateway.Device.Transfer.Relayed.{Fits, judge-Fits}

-- the chunks among the messages, in order
abbrev pub chunks : List Message → List (String × ℕ × List ℕ)
chunks [] = []
chunks (transfer_chunk id n payload ∷ ms) = (id, n, payload) ∷ chunks ms
chunks (call _ _ _ ∷ ms) = chunks ms
chunks (ping _ ∷ ms) = chunks ms
chunks (transfer_target_start _ _ _ ∷ ms) = chunks ms
chunks (transfer_source_start _ _ ∷ ms) = chunks ms
chunks (transfer_send _ ∷ ms) = chunks ms
chunks (transfer_cancel _ ∷ ms) = chunks ms
chunks (transfer_commit _ _ _ ∷ ms) = chunks ms

chunks-append : (xs ys : List Message) → chunks (xs ++ ys) ≡ chunks xs ++ chunks ys
chunks-append [] ys = refl
chunks-append (transfer_chunk id n p ∷ xs) ys = ap (λ zs. (id, n, p) ∷ zs) (chunks-append xs ys)
chunks-append (call _ _ _ ∷ xs) ys = chunks-append xs ys
chunks-append (ping _ ∷ xs) ys = chunks-append xs ys
chunks-append (transfer_target_start _ _ _ ∷ xs) ys = chunks-append xs ys
chunks-append (transfer_source_start _ _ ∷ xs) ys = chunks-append xs ys
chunks-append (transfer_send _ ∷ xs) ys = chunks-append xs ys
chunks-append (transfer_cancel _ ∷ xs) ys = chunks-append xs ys
chunks-append (transfer_commit _ _ _ ∷ xs) ys = chunks-append xs ys

-- the chunks that the transport of a session has accepted
abbrev pub relayed_to : ℕ → Manager → List (String × ℕ × List ℕ)
relayed_to k m = chunks (m.sessions k).sent

notify_cancel-chunks :
    (net : Net) (o : Option ℕ) (id : String) (m : Manager) (k : ℕ)
    → relayed_to k (notify net o (transfer_cancel id) m) ≡ relayed_to k m
unfolding notify send accepted set_session
notify_cancel-chunks net none id m k = refl
notify_cancel-chunks net (some h) id m k = ground (
  arith,
  chunks-append (m.sessions h).sent (transfer_cancel id ∷ []),
  append-nil (chunks (m.sessions h).sent),
  nat_beq_iff h k,
)

pub fail_locked-chunks :
    (net : Net) (now : ℕ) (id message : String) (m : Manager) (k : ℕ)
    → relayed_to k (fail_transfer_relay_locked net now id message m) ≡ relayed_to k m
unfolding fail_transfer_relay_locked
fail_locked-chunks net now id message m k = elim (Option-cases (get id m.transfers)) [
  | inl e ↦ rw (e, fail_transfer_relay_locked)
  | inr (t, e) ↦
      rw (e, fail_transfer_relay_locked)
        (if-elim (λ x. relayed_to k x ≡ relayed_to k m) (is_final t.state) _ _ (λ _. refl)
          (λ _.
            notify_cancel-chunks net t.target id _ k ∙ notify_cancel-chunks net t.source id _ k))
]

count_chunk-sessions :
    (now : ℕ) (id : String) (n b : ℕ) (m : Manager)
    → (count_chunk now id n b m).sessions ≡ m.sessions
unfolding count_chunk
count_chunk-sessions now id n b m = ground arith

-- A chunk is accepted by the target's transport, or it reaches nobody.
send_chunk-cases :
    (net : Net) (o : Option ℕ) (id : String) (n : ℕ) (payload : List ℕ) (m : Manager) (k : ℕ)
    → (relayed_to k (send_transfer_chunk net o id n payload m).1 ≡ relayed_to k m)
      ⊎ ((o ≡ some k)
          × (relayed_to k (send_transfer_chunk net o id n payload m).1
              ≡ relayed_to k m ++ (id, n, payload) ∷ []))
unfolding send_transfer_chunk accepted set_session
send_chunk-cases net none id n payload m k = inl refl
send_chunk-cases net (some h) id n payload m k =
    ground
      (arith, chunks-append (m.sessions h).sent (transfer_chunk id n payload ∷ []), nat_beq_iff h k)

relay_chunk-chunks :
    (net : Net) (now : ℕ) (id : String) (n : ℕ) (payload : List ℕ) (o : Option ℕ) (m : Manager)
    (k : ℕ)
    → relayed_to k (relay_chunk net now id n payload o m).1
      ≡ relayed_to k (send_transfer_chunk net o id n payload m).1
unfolding relay_chunk
relay_chunk-chunks net now id n payload o m k =
    elim (Option-cases (send_transfer_chunk net o id n payload m).0) [
      | inl e ↦
          rw (e, relay_chunk)
            (ap (λ (f : ℕ → Session). chunks (f k).sent)
              (count_chunk-sessions now id n (length payload % uint64)
                (send_transfer_chunk net o id n payload m).1))
      | inr (x, e) ↦ rw (e, relay_chunk) (fail_locked-chunks net now id _ _ k)
    ]

-- What handling a chunk sends on: nothing new to the session, or exactly this chunk.
abbrev pub SendsOn : ℕ → ℕ → String → ℕ → List ℕ → Manager → Manager → Type 0
SendsOn k session id n payload m m' =
    (relayed_to k m' ≡ relayed_to k m)
    ⊎ ((t : Transfer) × (get id m.transfers ≡ some t)
        × Fits session n (length payload % uint64) t (some k)
        × (relayed_to k m' ≡ relayed_to k m ++ (id, n, payload) ∷ []))

chunk_action-SendsOn :
    (net : Net) (now k session : ℕ) (id : String) (n : ℕ) (payload : List ℕ) (t : Transfer)
    (m : Manager)
    → get id m.transfers ≡ some t
    → (v : Verdict) → judge session n (length payload % uint64) t ≡ v
    → SendsOn k session id n payload m (chunk_action net now id n payload t m v).1
unfolding chunk_action
chunk_action-SendsOn net now k session id n payload t m at ignored e = inl refl
chunk_action-SendsOn net now k session id n payload t m at refused e = inl refl
chunk_action-SendsOn net now k session id n payload t m at out_of_order e =
    inl (fail_locked-chunks net now id _ m k)
chunk_action-SendsOn net now k session id n payload t m at too_large e =
    inl (fail_locked-chunks net now id _ m k)
chunk_action-SendsOn net now k session id n payload t m at (relayed o) e =
    elim (send_chunk-cases net o id n payload m k) [
      | inl same ↦ inl (relay_chunk-chunks net now id n payload o m k ∙ same)
      | inr (to_k, more) ↦ inr (
        t,
        at,
        subst (Fits session n (length payload % uint64) t) to_k
            (judge-Fits session n (length payload % uint64) t o e),
        relay_chunk-chunks net now id n payload o m k ∙ more,
      )
    ]

-- Handling a chunk adds no chunk to what a session has been sent, unless the transfer is running, the
-- chunk comes from the transfer's source, has the next sequence number and fits into the declared
-- size (in `uint64` arithmetic), and the session is the transfer's target: then exactly this chunk.
pub relays_in_order :
    (net : Net) (now k session : ℕ) (id : String) (n : ℕ) (payload : List ℕ) (m : Manager)
    → SendsOn k session id n payload m (handle_transfer_chunk net now session id n payload m).1
unfolding handle_transfer_chunk
relays_in_order net now k session id n payload m = elim (Option-cases (get id m.transfers)) [
  | inl e ↦ rw (e, handle_transfer_chunk) (inl refl)
  | inr (t, e) ↦
      let eq : handle_transfer_chunk net now session id n payload m
          ≡ chunk_action net now id n payload t m (judge session n (length payload % uint64) t) =
        rw (e, handle_transfer_chunk) in
      subst (λ (p : Option Error × Manager). SendsOn k session id n payload m p.1) (sym eq)
        (chunk_action-SendsOn net now k session id n payload t m e _ refl)
]

judge_of_Fits :
    (session n bytes : ℕ) (t : Transfer) (o : Option ℕ)
    → Fits session n bytes t o
    → judge session n bytes t ≡ relayed o
unfolding judge is_final
judge_of_Fits session n bytes t o f =
    ground (arith, f.running, f.from_source, f.in_order, f.room, f.to_target)

-- The next chunk of a running transfer, from its source and within the declared size, is passed on to
-- an open target whose transport accepts it, without an error, and is counted.
pub relay_counts :
    (net : Net) (now session h : ℕ) (id : String) (n : ℕ) (payload : List ℕ) (m : Manager)
    (t : Transfer)
    → get id m.transfers ≡ some t
    → Fits session n (length payload % uint64) t (some h)
    → (m.sessions h).done ≡ false
    → net h (transfer_chunk id n payload) ≡ none
    → ((handle_transfer_chunk net now session id n payload m).0 ≡ none)
      × (relayed_to h (handle_transfer_chunk net now session id n payload m).1
          ≡ relayed_to h m ++ (id, n, payload) ∷ [])
      × (get id (handle_transfer_chunk net now session id n payload m).1.transfers
          ≡ some (record t {
            next_seq = (n + 1) % uint64;
            transferred = (t.transferred + length payload % uint64) % uint64;
            updated_at = now;
          }))
relay_counts net now session h id n payload m t found f open_ accepts = (
  ap (λ (p : Option Error × Manager). p.0) whole,
  ap (λ (p : Option Error × Manager). relayed_to h p.1) whole ∙ sent_on,
  ap (λ (p : Option Error × Manager). get id p.1.transfers) whole ∙ counted,
)
  where
    m1 : Manager
    m1 = accepted h (transfer_chunk id n payload) m

    send_eq : send_transfer_chunk net (some h) id n payload m ≡ (none, m1)
    send_eq = unfold send_transfer_chunk in rw open_ (rw (accepts, send_transfer_chunk))

    whole :
        handle_transfer_chunk net now session id n payload m
        ≡ (none, count_chunk now id n (length payload % uint64) m1)
    whole =
        unfold handle_transfer_chunk in
        rw (found, handle_transfer_chunk)
          (rw (judge_of_Fits session n (length payload % uint64) t (some h) f)
            (unfold chunk_action relay_chunk in rw (send_eq, relay_chunk) (rw send_eq)))

    sent_on :
        relayed_to h (count_chunk now id n (length payload % uint64) m1)
        ≡ relayed_to h m ++ (id, n, payload) ∷ []
    sent_on =
        ap (λ (s : ℕ → Session). chunks (s h).sent)
          (count_chunk-sessions now id n (length payload % uint64) m1)
        ∙ (unfold accepted set_session in
            ground (
              arith,
              chunks-append (m.sessions h).sent (transfer_chunk id n payload ∷ []),
              nat_beq_iff h h,
            ))

    guard : (is_transferring t.state && nat_beq t.next_seq n) ≡ true
    guard = ground (arith, f.running, f.in_order)

    counted :
        get id (count_chunk now id n (length payload % uint64) m1).transfers
        ≡ some (record t {
          next_seq = (n + 1) % uint64;
          transferred = (t.transferred + length payload % uint64) % uint64;
          updated_at = now;
        })
    counted =
        unfold count_chunk accepted set_session store in
        rw (found, count_chunk)
          (rw guard (
            get-put_self id _ m.transfers
            ∙ ap
                (λ (k : ℕ). some (record t {
                  next_seq = (k + 1) % uint64;
                  transferred = (t.transferred + length payload % uint64) % uint64;
                  updated_at = now;
                }))
                (sym f.in_order)))
