-- ===== src/Device/Transfer/Final.antt =====
-- A final transfer: nothing that arrives later changes anything.
use zshell_gateway.Base.{
  ℕ, String, ◌≡◌, refl, ◌||◌, not, true, List, none, some, str_beq, string_eq, if-elim,
}
use zshell_gateway.Dict.{get}
use zshell_gateway.Text.Trim.{trim_space}
use zshell_gateway.Text.Hex.{to_lower}
use zshell_gateway.Device.Types.{Transfer, Manager, ok, WireResponse, Net}
use zshell_gateway.Device.Transfer.State.{
  is_final, is_session, is_cancelled, snapshot, valid_sha256, fail_transfer_relay_locked,
  fail_transfer, cancel_transfer,
}
use zshell_gateway.Device.Transfer.Chunks.{judge, handle_transfer_chunk}
use zshell_gateway.Device.Transfer.Handlers.{
  transfer_source_ready, transfer_target_ready, transfer_source_finish, transfer_target_finish,
  transfer_peer_failed, transfer_source_cancelled, handle_transfer_message,
}
use zshell_gateway.Device.Transfer.Endings.{expire_transfer}

module _ (net : Net) (now : ℕ) (id : String) (m : Manager) (t : Transfer)
    (found : get id m.transfers ≡ some t) (final : is_final t.state ≡ true) where
  fail_locked_of_final : (message : String) → fail_transfer_relay_locked net now id message m ≡ m
  unfolding fail_transfer_relay_locked
  fail_locked_of_final message = rw (found, fail_transfer_relay_locked) (rw final)

  fail_of_final : (message : String) → fail_transfer net now id message m ≡ m
  unfolding fail_transfer
  fail_of_final message = rw (found, fail_transfer) (fail_locked_of_final message)

  source_ready_of_final : (h size : ℕ) → transfer_source_ready net now h id size m ≡ m
  unfolding transfer_source_ready
  source_ready_of_final h size = rw (found, transfer_source_ready) (rw final)

  target_ready_of_final : (h : ℕ) → transfer_target_ready net now h id m ≡ m
  unfolding transfer_target_ready
  target_ready_of_final h = rw (found, transfer_target_ready) (rw final)

  source_finish_of_final :
      (h size : ℕ) (raw : String) → transfer_source_finish net now h id size raw m ≡ m
  unfolding transfer_source_finish
  source_finish_of_final h size raw =
      if-elim (λ x. x ≡ m) (not (valid_sha256 (to_lower (trim_space raw)))) _ _
        (λ _. fail_of_final _) (λ _. rw (found, transfer_source_finish) (rw final))

  target_finish_of_final :
      (h size : ℕ) (raw : String) → transfer_target_finish net now h id size raw m ≡ m
  unfolding transfer_target_finish
  target_finish_of_final h size raw = rw (found, transfer_target_finish) (rw final)

  peer_failed_of_final :
      (h : ℕ) (role message : String) → transfer_peer_failed net now h id role message m ≡ m
  unfolding transfer_peer_failed
  peer_failed_of_final h role message =
      rw (found, transfer_peer_failed)
        (if-elim (λ x. x ≡ m) (not (is_session h t.source || is_session h t.target)) _ _ (λ _. refl)
          (λ _. fail_of_final _))

  source_cancelled_of_final : (h : ℕ) → transfer_source_cancelled net now h id m ≡ m
  unfolding transfer_source_cancelled
  source_cancelled_of_final h =
      rw (found, transfer_source_cancelled)
        (if-elim (λ x. x ≡ m) (not (is_session h t.source) || is_cancelled t.state) _ _ (λ _. refl)
          (λ _. fail_of_final _))

  message_of_final :
      (h : ℕ) (r : WireResponse)
      → trim_space r.transfer_id ≡ id
      → handle_transfer_message net now h r m ≡ m
  unfolding handle_transfer_message
  message_of_final h r e = rw e (
      if-elim (λ x. x ≡ m) (str_beq id "") _ _ (λ _. refl)
        (λ _.
          if-elim (λ x. x ≡ m) (str_beq r.type "transfer_source_ready") _ _
            (λ _. source_ready_of_final h r.size)
            (λ _.
              if-elim (λ x. x ≡ m) (str_beq r.type "transfer_target_ready") _ _
                (λ _. target_ready_of_final h)
                (λ _.
                  if-elim (λ x. x ≡ m) (str_beq r.type "transfer_source_finish") _ _
                    (λ _. source_finish_of_final h r.size r.sha256)
                    (λ _.
                      if-elim (λ x. x ≡ m) (str_beq r.type "transfer_target_finish") _ _
                        (λ _. target_finish_of_final h r.size r.sha256)
                        (λ _.
                          if-elim (λ x. x ≡ m) (str_beq r.type "transfer_failed") _ _
                            (λ _. peer_failed_of_final h r.role r.error)
                            (λ _.
                              if-elim (λ x. x ≡ m) (str_beq r.type "transfer_source_cancelled") _ _
                                (λ _. source_cancelled_of_final h) (λ _. refl))))))))

  chunk_of_final :
      (h sequence : ℕ) (payload : List ℕ)
      → handle_transfer_chunk net now h id sequence payload m ≡ (none, m)
  unfolding handle_transfer_chunk
  chunk_of_final h sequence payload = rw (found, handle_transfer_chunk) (unfold judge in rw final)

  expire_of_final : expire_transfer net now id m ≡ m
  unfolding expire_transfer
  expire_of_final = rw (found, expire_transfer) (rw final)

  cancel_of_final :
      (raw : String)
      → trim_space raw ≡ id
      → cancel_transfer net now raw m ≡ (ok (snapshot now t), m)
  unfolding cancel_transfer
  cancel_of_final raw e = rw (e, found, cancel_transfer) (rw final)

-- Once a transfer is completed, failed or cancelled, no message about it, no chunk, no timer and no
-- cancellation changes the manager or sends anything: chunks are dropped without an error, and a
-- cancellation answers with the snapshot of the final transfer.
pub final_absorbs :
    (net : Net) (now h : ℕ) (id : String) (m : Manager) (t : Transfer) (r : WireResponse)
    (sequence : ℕ) (payload : List ℕ) (raw : String)
    → get id m.transfers ≡ some t
    → is_final t.state ≡ true
    → trim_space r.transfer_id ≡ id
    → trim_space raw ≡ id
    → (handle_transfer_message net now h r m ≡ m)
      × (handle_transfer_chunk net now h id sequence payload m ≡ (none, m))
      × (expire_transfer net now id m ≡ m)
      × (cancel_transfer net now raw m ≡ (ok (snapshot now t), m))
final_absorbs net now h id m t r sequence payload raw found final e e' = (
  message_of_final net now id m t found final h r e,
  chunk_of_final net now id m t found final h sequence payload,
  expire_of_final net now id m t found final,
  cancel_of_final net now id m t found final raw e',
)
