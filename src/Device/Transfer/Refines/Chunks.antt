-- ===== src/Device/Transfer/Refines/Chunks.antt =====
-- The relay of a chunk and the timer take the table through moves.
use zshell_gateway.Base.{
  ap, ◌∙◌, ◌-◌, ℕ, ◌+◌, ◌%◌, ◌≤◌, String, ◌≡◌, refl, sym, inl, inr, List, Option, some, arith, ltb,
  nat_beq, Option-cases, string_eq, length, ◌&&◌,
}
use zshell_gateway.Dict.{get}
use zshell_gateway.Device.Types.{transferring, Transfer, Manager, Net, uint64}
use zshell_gateway.Device.Session.{send_transfer_chunk}
use zshell_gateway.Device.Transfer.State.{
  is_final, is_transferring, transferring_iff, idle_timeout, store,
}
use zshell_gateway.Device.Transfer.Chunks.{
  Verdict, ignored, refused, out_of_order, too_large, relayed, judge, count_chunk, relay_chunk,
  chunk_action, handle_transfer_chunk,
}
use zshell_gateway.Device.Transfer.Endings.{expire_transfer}
use zshell_gateway.Device.Transfer.Relayed.{judge-Fits, send_transfer_chunk-transfers}
use zshell_gateway.Device.Transfer.Abstract.{here, next, moves, Refines}
use zshell_gateway.Device.Transfer.Refines.{
  Refines-refl, Refines-trans, Refines-same, Refines-put, Refines-if, kept_job, fail_locked-Refines,
}

count_chunk-Refines :
    (now : ℕ) (id : String) (sequence bytes : ℕ) (m : Manager)
    → ((t : Transfer) → get id m.transfers ≡ some t → (t.transferred + bytes) % uint64 ≤ t.size)
    → Refines m.transfers (count_chunk now id sequence bytes m).transfers
unfolding count_chunk store
count_chunk-Refines now id sequence bytes m room = elim (Option-cases (get id m.transfers)) [
  | inl e ↦ rw (e, count_chunk) (Refines-refl m.transfers)
  | inr (t, e) ↦
      rw (e, count_chunk)
        (Refines-if m.transfers (is_transferring t.state && nat_beq t.next_seq sequence) _ _
          (λ g.
            let p : t.state ≡ transferring = transferring_iff t.state (ground arith) in
            Refines-put m.transfers id t _ e (kept_job t _ refl refl refl refl refl refl refl)
              (next here (moves bytes p refl (room t e))))
          (λ _. Refines-refl m.transfers))
]

relay_chunk-Refines :
    (net : Net) (now : ℕ) (id : String) (sequence : ℕ) (payload : List ℕ) (o : Option ℕ)
    (m : Manager)
    → ((t : Transfer)
        → get id m.transfers ≡ some t
        → (t.transferred + length payload % uint64) % uint64 ≤ t.size)
    → Refines m.transfers (relay_chunk net now id sequence payload o m).1.transfers
unfolding relay_chunk
relay_chunk-Refines net now id sequence payload o m room =
    let same = (send_transfer_chunk-transfers net o id sequence payload m).0 in
    let m' = (send_transfer_chunk net o id sequence payload m).1 in
    let sent = Refines-same m.transfers m'.transfers same in
    elim (Option-cases (send_transfer_chunk net o id sequence payload m).0) [
      | inl e ↦
          rw (e, relay_chunk)
            (Refines-trans m.transfers m'.transfers _ sent (
              count_chunk-Refines now id sequence _ m'
                (λ t h. room t (ap (get id) (sym same) ∙ h))))
      | inr (x, e) ↦
          rw (e, relay_chunk)
            (Refines-trans m.transfers m'.transfers _ sent (fail_locked-Refines net now id _ m'))
    ]

chunk_action-Refines :
    (net : Net) (now session : ℕ) (id : String) (sequence : ℕ) (payload : List ℕ) (t : Transfer)
    (m : Manager)
    → get id m.transfers ≡ some t
    → (v : Verdict) → judge session sequence (length payload % uint64) t ≡ v
    → Refines m.transfers (chunk_action net now id sequence payload t m v).1.transfers
unfolding chunk_action
chunk_action-Refines net now session id sequence payload t m at ignored e = Refines-refl m.transfers
chunk_action-Refines net now session id sequence payload t m at refused e = Refines-refl m.transfers
chunk_action-Refines net now session id sequence payload t m at out_of_order e =
    fail_locked-Refines net now id _ m
chunk_action-Refines net now session id sequence payload t m at too_large e =
    fail_locked-Refines net now id _ m
chunk_action-Refines net now session id sequence payload t m at (relayed o) e =
    relay_chunk-Refines net now id sequence payload o m (λ u h.
      let f = judge-Fits session sequence (length payload % uint64) t o e in
      ground (arith, at, h, f.room))

pub handle_transfer_chunk-Refines :
    (net : Net) (now session : ℕ) (id : String) (sequence : ℕ) (payload : List ℕ) (m : Manager)
    → Refines m.transfers (handle_transfer_chunk net now session id sequence payload m).1.transfers
unfolding handle_transfer_chunk
handle_transfer_chunk-Refines net now session id sequence payload m =
    elim (Option-cases (get id m.transfers)) [
      | inl e ↦ rw (e, handle_transfer_chunk) (Refines-refl m.transfers)
      | inr (t, e) ↦
          rw (e, handle_transfer_chunk)
            (chunk_action-Refines net now session id sequence payload t m e _ refl)
    ]

pub expire_transfer-Refines :
    (net : Net) (now : ℕ) (id : String) (m : Manager)
    → Refines m.transfers (expire_transfer net now id m).transfers
unfolding expire_transfer store
expire_transfer-Refines net now id m = elim (Option-cases (get id m.transfers)) [
  | inl e ↦ rw (e, expire_transfer) (Refines-refl m.transfers)
  | inr (t, e) ↦
      rw (e, expire_transfer)
        (Refines-if m.transfers (is_final t.state) _ _ (λ _. Refines-refl m.transfers)
          (λ live.
            Refines-if m.transfers (ltb (now - t.updated_at) idle_timeout) _ _
              (λ _.
                Refines-put m.transfers id t _ e (kept_job t _ refl refl refl refl refl refl refl)
                  here)
              (λ _. fail_locked-Refines net now id _ m)))
]
