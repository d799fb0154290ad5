-- ===== src/Device/Transfer/Relayed.antt =====
-- The relay of a chunk, the timer, a lost device and a shutdown keep the invariant.
use mathlib.Core.Path.{subst}
use zshell_gateway.Base.{
  ap, ◌∙◌, ◌-◌, ℕ, ◌+◌, ◌%◌, ◌≤◌, String, ◌≡◌, refl, sym, inl, inr, true, false, List, Option, none,
  some, arith, ltb, nat_beq, Option-cases, string_eq, length, ◌&&◌,
}
use zshell_gateway.Dict.{get}
use zshell_gateway.Device.Types.{
  TransferState, preparing, transferring, verifying, completed, failed, cancelled, Transfer,
  Manager, Net, uint64,
}
use zshell_gateway.Device.Session.{send_transfer_chunk, set_session, accepted}
use zshell_gateway.Device.Transfer.State.{
  is_final, is_session, is_transferring, transferring_iff, idle_timeout,
}
use zshell_gateway.Device.Transfer.Chunks.{
  Verdict, ignored, refused, out_of_order, too_large, relayed, judge, count_chunk, relay_chunk,
  chunk_action, handle_transfer_chunk,
}
use zshell_gateway.Device.Transfer.Endings.{expire_transfer}
use zshell_gateway.Device.Transfer.Invariant.{
  Counted, Connected, IsSound, Ok, put-Inv, IsSound-at, Counted-at, connected_at,
}
use zshell_gateway.Device.Transfer.Preserve.{fail_transfer_relay_locked-Ok, Ok-if}

-- A chunk that is relayed is the next one of a running transfer, from its source, and it fits.
pub record Fits (session sequence bytes : ℕ) (t : Transfer) (target : Option ℕ) : Type 0 where
  pub running : t.state ≡ transferring
  pub from_source : is_session session t.source ≡ true
  pub in_order : sequence ≡ t.next_seq
  pub room : (t.transferred + bytes) % uint64 ≤ t.size
  pub to_target : target ≡ t.target

pub judge-Fits :
    (session sequence bytes : ℕ) (t : Transfer) (target : Option ℕ)
    → judge session sequence bytes t ≡ relayed target
    → Fits session sequence bytes t target
unfolding judge is_final
judge-Fits session sequence bytes t target h = record {
  running = transferring_iff t.state (ground arith);
  from_source = ground arith;
  in_order = ground arith;
  room = ground arith;
  to_target = ground arith;
}

pub send_transfer_chunk-transfers :
    (net : Net) (o : Option ℕ) (id : String) (sequence : ℕ) (payload : List ℕ) (m : Manager)
    → ((send_transfer_chunk net o id sequence payload m).1.transfers ≡ m.transfers)
      × ((send_transfer_chunk net o id sequence payload m).1.active_transfer ≡ m.active_transfer)
unfolding send_transfer_chunk accepted set_session
send_transfer_chunk-transfers net none id sequence payload m = (refl, refl)
send_transfer_chunk-transfers net (some h) id sequence payload m = ground arith

counted-IsSound :
    (id : String) (t : Transfer) (now next moved : ℕ)
    → IsSound id t
    → t.state ≡ transferring
    → moved ≤ t.size
    → IsSound id (record t { next_seq = next; transferred = moved; updated_at = now })
unfolding is_final
counted-IsSound id t now next moved s e le =
    IsSound-at _ transferring e s.named (le, (Counted-at t transferring e s).1)
      (connected_at t transferring e s)

pub count_chunk-Ok :
    (now : ℕ) (id : String) (sequence bytes : ℕ) (m : Manager)
    → Ok m
    → ((t : Transfer) → get id m.transfers ≡ some t → (t.transferred + bytes) % uint64 ≤ t.size)
    → Ok (count_chunk now id sequence bytes m)
unfolding count_chunk
count_chunk-Ok now id sequence bytes m inv room = elim (Option-cases (get id m.transfers)) [
  | inl e ↦ rw (e, count_chunk) inv
  | inr (t, e) ↦
      rw (e, count_chunk)
        (Ok-if (is_transferring t.state && nat_beq t.next_seq sequence) _ _
          (λ g.
            let p : t.state ≡ transferring = transferring_iff t.state (ground arith) in
            put-Inv inv id t _ e (unfold is_final in ground arith)
              (counted-IsSound id t now _ _ (inv.sound id t e) p (room t e))
              (unfold is_final in ground arith) refl refl)
          (λ _. inv))
]

relay_chunk-Ok :
    (net : Net) (now : ℕ) (id : String) (sequence : ℕ) (payload : List ℕ) (o : Option ℕ)
    (m : Manager)
    → Ok m
    → ((t : Transfer)
        → get id m.transfers ≡ some t
        → (t.transferred + length payload % uint64) % uint64 ≤ t.size)
    → Ok (relay_chunk net now id sequence payload o m).1
unfolding relay_chunk
relay_chunk-Ok net now id sequence payload o m inv room =
    let same = send_transfer_chunk-transfers net o id sequence payload m in
    let inv' : Ok (send_transfer_chunk net o id sequence payload m).1 = rw (same.0, same.1) inv in
    elim (Option-cases (send_transfer_chunk net o id sequence payload m).0) [
      | inl e ↦
          rw (e, relay_chunk)
            (count_chunk-Ok now id sequence _ _ inv' (λ t h. room t (ap (get id) (sym same.0) ∙ h)))
      | inr (x, e) ↦ rw (e, relay_chunk) (fail_transfer_relay_locked-Ok net now id _ _ inv')
    ]

chunk_action-Ok :
    (net : Net) (now session : ℕ) (id : String) (sequence : ℕ) (payload : List ℕ) (t : Transfer)
    (m : Manager)
    → Ok m
    → get id m.transfers ≡ some t
    → (v : Verdict) → judge session sequence (length payload % uint64) t ≡ v
    → Ok (chunk_action net now id sequence payload t m v).1
unfolding chunk_action
chunk_action-Ok net now session id sequence payload t m inv at ignored e = inv
chunk_action-Ok net now session id sequence payload t m inv at refused e = inv
chunk_action-Ok net now session id sequence payload t m inv at out_of_order e =
    fail_transfer_relay_locked-Ok net now id _ m inv
chunk_action-Ok net now session id sequence payload t m inv at too_large e =
    fail_transfer_relay_locked-Ok net now id _ m inv
chunk_action-Ok net now session id sequence payload t m inv at (relayed o) e =
    relay_chunk-Ok net now id sequence payload o m inv (λ u h.
      let f = judge-Fits session sequence (length payload % uint64) t o e in
      ground (arith, at, h, f.room))

pub handle_transfer_chunk-Ok :
    (net : Net) (now session : ℕ) (id : String) (sequence : ℕ) (payload : List ℕ) (m : Manager)
    → Ok m
    → Ok (handle_transfer_chunk net now session id sequence payload m).1
unfolding handle_transfer_chunk
handle_transfer_chunk-Ok net now session id sequence payload m inv =
    elim (Option-cases (get id m.transfers)) [
      | inl e ↦ rw (e, handle_transfer_chunk) inv
      | inr (t, e) ↦
          rw (e, handle_transfer_chunk)
            (chunk_action-Ok net now session id sequence payload t m inv e _ refl)
    ]

Counted-timer :
    (s : TransferState) (t : Transfer) (timer : Option ℕ)
    → Counted s t
    → Counted s (record t { timer = timer })
Counted-timer preparing t timer c = c
Counted-timer transferring t timer c = c
Counted-timer verifying t timer c = c
Counted-timer completed t timer c = c
Counted-timer failed t timer c = c
Counted-timer cancelled t timer c = c

timed-IsSound :
    (id : String) (t : Transfer) (timer : Option ℕ)
    → IsSound id t
    → is_final t.state ≡ false
    → IsSound id (record t { timer = timer })
timed-IsSound id t timer s live = record {
  named = s.named;
  counted = Counted-timer t.state t timer s.counted;
  connected =
      subst (λ b. Connected b (record t { timer = timer })) (sym live)
        (subst (λ b. Connected b t) live s.connected);
}

pub expire_transfer-Ok :
    (net : Net) (now : ℕ) (id : String) (m : Manager) → Ok m → Ok (expire_transfer net now id m)
unfolding expire_transfer
expire_transfer-Ok net now id m inv = elim (Option-cases (get id m.transfers)) [
  | inl e ↦ rw (e, expire_transfer) inv
  | inr (t, e) ↦
      rw (e, expire_transfer)
        (Ok-if (is_final t.state) _ _ (λ _. inv)
          (λ live.
            Ok-if (ltb (now - t.updated_at) idle_timeout) _ _
              (λ _.
                put-Inv inv id t _ e live (timed-IsSound id t _ (inv.sound id t e) live) live refl
                  refl)
              (λ _. fail_transfer_relay_locked-Ok net now id _ m inv)))
]
