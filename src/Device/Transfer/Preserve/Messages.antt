-- ===== src/Device/Transfer/Preserve/Messages.antt =====
-- The control messages keep the invariant.
use zshell_gateway.Base.{
  ℕ, ◌||◌, not, String, ◌≡◌, refl, inl, inr, Bool, true, none, arith, str_beq, nat_beq,
  Option-cases, string_eq,
}
use zshell_gateway.Dict.{get}
use zshell_gateway.Text.Trim.{trim_space}
use zshell_gateway.Text.Hex.{to_lower}
use zshell_gateway.Device.Types.{
  transfer_send, preparing, transferring, verifying, completed, Transfer, Manager, Net,
  WireResponse,
}
use zshell_gateway.Device.Transfer.State.{
  is_final, is_session, is_preparing, is_transferring, is_verifying, is_cancelled, preparing_iff,
  transferring_iff, verifying_iff, valid_sha256,
}
use zshell_gateway.Device.Transfer.Handlers.{
  begin, transfer_source_ready, transfer_target_ready, transfer_source_finish,
  transfer_target_finish, transfer_peer_failed, transfer_source_cancelled, handle_transfer_message,
}
use zshell_gateway.Device.Transfer.Invariant.{
  IsSound, Ok, put-Inv, IsSound-at, Counted-at, connected_at,
}
use zshell_gateway.Device.Transfer.Release.{end-Inv}
use zshell_gateway.Device.Transfer.Preserve.{
  fail_transfer_relay_locked-Ok, fail_transfer-Ok, send_or_fail-Ok, Ok-if,
}

-- What the guard of a control message leaves when it passes.
module _ {id : String} (t : Transfer) (now : ℕ) (s : IsSound id t) where
  waiting-IsSound :
      (e : t.state ≡ preparing) (a b : Bool) (size : ℕ)
      → IsSound id (record t { source_ready = a; target_ready = b; size = size; updated_at = now })
        × IsSound id (
            begin now
              (record t { source_ready = a; target_ready = b; size = size; updated_at = now }))
  unfolding is_final
  waiting-IsSound e a b size =
      let c = Counted-at t preparing e s in
      let l = connected_at t preparing e s in
      (
        IsSound-at _ preparing e s.named c l,
        IsSound-at _ transferring refl s.named (omega arith, refl) l,
      )

  checked-IsSound :
      (e : t.state ≡ transferring) (sha256 : String)
      → t.transferred ≡ t.size
      → valid_sha256 sha256 ≡ true
      → IsSound id (record t { state = verifying; sha256 = sha256; updated_at = now })
  unfolding is_final
  checked-IsSound e sha256 all v =
      let c = Counted-at t transferring e s in
      IsSound-at _ verifying refl s.named (all, v, c.1) (connected_at t transferring e s)

  complete-IsSound :
      (e : t.state ≡ verifying)
      → IsSound id (record t {
        timer = none;
        state = completed;
        transferred = t.size;
        updated_at = now;
        source = none;
        target = none;
      })
  unfolding is_final
  complete-IsSound e =
      let c = Counted-at t verifying e s in
      IsSound-at _ completed refl s.named (refl, c.1, c.2) (refl, refl, refl)

module _ (net : Net) (now session : ℕ) (id : String) (m : Manager) (inv : Ok m) where
  pub transfer_source_ready-Ok : (size : ℕ) → Ok (transfer_source_ready net now session id size m)
  unfolding transfer_source_ready
  transfer_source_ready-Ok size = elim (Option-cases (get id m.transfers)) [
    | inl e ↦ rw (e, transfer_source_ready) inv
    | inr (t, e) ↦
        rw (e, transfer_source_ready)
          (Ok-if
            (is_final t.state || not (is_session session t.source) || not (is_preparing t.state)) _
            _ (λ _. inv)
            (λ g.
              let p : t.state ≡ preparing = preparing_iff t.state (ground arith) in
              let w = waiting-IsSound t now (inv.sound id t e) p true t.target_ready size in
              Ok-if t.target_ready _ _
                (λ r.
                  send_or_fail-Ok net now id _ t.source (transfer_send id) _
                    (put-Inv inv id t _ e (ground arith) w.1 refl refl refl))
                (λ r. put-Inv inv id t _ e (ground arith) w.0 (ground arith) refl refl)))
  ]

  pub transfer_target_ready-Ok : Ok (transfer_target_ready net now session id m)
  unfolding transfer_target_ready
  transfer_target_ready-Ok = elim (Option-cases (get id m.transfers)) [
    | inl e ↦ rw (e, transfer_target_ready) inv
    | inr (t, e) ↦
        rw (e, transfer_target_ready)
          (Ok-if
            (is_final t.state || not (is_session session t.target) || not (is_preparing t.state)) _
            _ (λ _. inv)
            (λ g.
              let p : t.state ≡ preparing = preparing_iff t.state (ground arith) in
              let w = waiting-IsSound t now (inv.sound id t e) p t.source_ready true t.size in
              Ok-if t.source_ready _ _
                (λ r.
                  send_or_fail-Ok net now id _ t.source (transfer_send id) _
                    (put-Inv inv id t _ e (ground arith) w.1 refl refl refl))
                (λ r. put-Inv inv id t _ e (ground arith) w.0 (ground arith) refl refl)))
  ]

  pub transfer_source_finish-Ok :
      (size : ℕ) (raw : String) → Ok (transfer_source_finish net now session id size raw m)
  unfolding transfer_source_finish
  transfer_source_finish-Ok size raw =
      Ok-if (not (valid_sha256 (to_lower (trim_space raw)))) _ _
        (λ _. fail_transfer-Ok net now id _ m inv)
        (λ v. elim (Option-cases (get id m.transfers)) [
          | inl e ↦ rw (e, transfer_source_finish) inv
          | inr (t, e) ↦
              rw (e, transfer_source_finish)
                (Ok-if
                  (is_final t.state
                    || not (is_session session t.source)
                    || not (is_transferring t.state))
                  _ _ (λ _. inv)
                  (λ g.
                    let p : t.state ≡ transferring = transferring_iff t.state (ground arith) in
                    Ok-if (not (nat_beq size t.size) || not (nat_beq t.transferred t.size)) _ _
                      (λ _. fail_transfer_relay_locked-Ok net now id _ m inv)
                      (λ q. send_or_fail-Ok net now id _ t.target _ _ (
                        put-Inv inv id t _ e (ground arith)
                          (checked-IsSound t now (inv.sound id t e) p _ (ground arith)
                            (ground arith))
                          refl refl refl))))
        ])

  pub transfer_target_finish-Ok :
      (size : ℕ) (raw : String) → Ok (transfer_target_finish net now session id size raw m)
  unfolding transfer_target_finish
  transfer_target_finish-Ok size raw = elim (Option-cases (get id m.transfers)) [
    | inl e ↦ rw (e, transfer_target_finish) inv
    | inr (t, e) ↦
        rw (e, transfer_target_finish)
          (Ok-if
            (is_final t.state || not (is_session session t.target) || not (is_verifying t.state)) _
            _ (λ _. inv)
            (λ g.
              let p : t.state ≡ verifying = verifying_iff t.state (ground arith) in
              Ok-if
                (not (nat_beq size t.size) || not (str_beq (to_lower (trim_space raw)) t.sha256)) _
                _ (λ _. fail_transfer-Ok net now id _ m inv)
                (λ _. end-Inv inv id t _ e (complete-IsSound t now (inv.sound id t e) p) refl)))
  ]

  pub transfer_peer_failed-Ok :
      (role message : String) → Ok (transfer_peer_failed net now session id role message m)
  unfolding transfer_peer_failed
  transfer_peer_failed-Ok role message = elim (Option-cases (get id m.transfers)) [
    | inl e ↦ rw (e, transfer_peer_failed) inv
    | inr (t, e) ↦
        rw (e, transfer_peer_failed)
          (Ok-if (not (is_session session t.source || is_session session t.target)) _ _ (λ _. inv)
            (λ _. fail_transfer-Ok net now id _ m inv))
  ]

  pub transfer_source_cancelled-Ok : Ok (transfer_source_cancelled net now session id m)
  unfolding transfer_source_cancelled
  transfer_source_cancelled-Ok = elim (Option-cases (get id m.transfers)) [
    | inl e ↦ rw (e, transfer_source_cancelled) inv
    | inr (t, e) ↦
        rw (e, transfer_source_cancelled)
          (Ok-if (not (is_session session t.source) || is_cancelled t.state) _ _ (λ _. inv)
            (λ _. fail_transfer-Ok net now id _ m inv))
  ]

-- Whatever message arrives, from whichever session, the invariant stays.
pub handle_transfer_message-Ok :
    (net : Net) (now session : ℕ) (r : WireResponse) (m : Manager)
    → Ok m
    → Ok (handle_transfer_message net now session r m)
unfolding handle_transfer_message
handle_transfer_message-Ok net now session r m inv =
    let id = trim_space r.transfer_id in
    Ok-if (str_beq id "") _ _ (λ _. inv)
      (λ _.
        Ok-if (str_beq r.type "transfer_source_ready") _ _
          (λ _. transfer_source_ready-Ok net now session id m inv r.size)
          (λ _.
            Ok-if (str_beq r.type "transfer_target_ready") _ _
              (λ _. transfer_target_ready-Ok net now session id m inv)
              (λ _.
                Ok-if (str_beq r.type "transfer_source_finish") _ _
                  (λ _. transfer_source_finish-Ok net now session id m inv r.size r.sha256)
                  (λ _.
                    Ok-if (str_beq r.type "transfer_target_finish") _ _
                      (λ _. transfer_target_finish-Ok net now session id m inv r.size r.sha256)
                      (λ _.
                        Ok-if (str_beq r.type "transfer_failed") _ _
                          (λ _. transfer_peer_failed-Ok net now session id m inv r.role r.error)
                          (λ _.
                            Ok-if (str_beq r.type "transfer_source_cancelled") _ _
                              (λ _. transfer_source_cancelled-Ok net now session id m inv)
                              (λ _. inv)))))))
