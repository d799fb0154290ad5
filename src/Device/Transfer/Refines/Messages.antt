-- ===== src/Device/Transfer/Refines/Messages.antt =====
-- The control messages take the table through moves.
use zshell_gateway.Base.{
  ℕ, ◌||◌, not, String, ◌≡◌, refl, inl, inr, true, Option, some, arith, str_beq, nat_beq,
  Option-cases, string_eq,
}
use zshell_gateway.Dict.{get, put}
use zshell_gateway.Text.Trim.{trim_space}
use zshell_gateway.Text.Hex.{to_lower}
use zshell_gateway.Device.Types.{
  Message, transfer_send, preparing, transferring, verifying, Transfer, Manager, Net, WireResponse,
}
use zshell_gateway.Device.Transfer.State.{
  store, is_final, is_session, is_preparing, is_transferring, is_verifying, is_cancelled,
  preparing_iff, transferring_iff, verifying_iff, valid_sha256, send_or_fail,
}
use zshell_gateway.Device.Transfer.Handlers.{
  begin, transfer_source_ready, transfer_target_ready, transfer_source_finish,
  transfer_target_finish, transfer_peer_failed, transfer_source_cancelled, handle_transfer_message,
}
use zshell_gateway.Device.Transfer.Abstract.{
  view_of, Moves, here, next, declare, begins, checks, completes, SameJob, Refines,
}
use zshell_gateway.Device.Transfer.Refines.{
  Refines-refl, Refines-trans, Refines-put, Refines-if, kept_job, fail-Refines, fail_locked-Refines,
  send_or_fail-Refines,
}

module _ (net : Net) (now session : ℕ) (id : String) (m : Manager) where
  -- an entry is written, and then a message is sent, whose failure ends the transfer
  written_sent :
      (t u : Transfer)
      → get id m.transfers ≡ some t
      → Moves (view_of t) (view_of u)
      → (prefix : String) (o : Option ℕ) (v : Message) → SameJob t u
      → Refines m.transfers (send_or_fail net now id prefix o v (store id u m)).transfers
  unfolding store
  written_sent t u found a prefix o v s =
      Refines-trans m.transfers (put id u m.transfers) _ (Refines-put m.transfers id t u found s a)
        (send_or_fail-Refines net now id prefix o v (store id u m))

  pub transfer_source_ready-Refines :
      (size : ℕ) → Refines m.transfers (transfer_source_ready net now session id size m).transfers
  unfolding transfer_source_ready
  transfer_source_ready-Refines size = elim (Option-cases (get id m.transfers)) [
    | inl e ↦ rw (e, transfer_source_ready) (Refines-refl m.transfers)
    | inr (t, e) ↦
        rw (e, transfer_source_ready)
          (Refines-if m.transfers
            (is_final t.state || not (is_session session t.source) || not (is_preparing t.state)) _
            _ (λ _. Refines-refl m.transfers)
            (λ g.
              let p : t.state ≡ preparing = preparing_iff t.state (ground arith) in
              Refines-if m.transfers t.target_ready _ _
                (λ r.
                  written_sent t
                    (begin now (record t { source_ready = true; size = size; updated_at = now })) e
                    (next (next here (declare p refl)) (begins p refl)) _ t.source
                    (transfer_send id) (kept_job t _ refl refl refl refl refl refl refl))
                (λ r.
                  Refines-put m.transfers id t _ e (kept_job t _ refl refl refl refl refl refl refl)
                    (next here (declare p refl)))))
  ]

  pub transfer_target_ready-Refines :
      Refines m.transfers (transfer_target_ready net now session id m).transfers
  unfolding transfer_target_ready
  transfer_target_ready-Refines = elim (Option-cases (get id m.transfers)) [
    | inl e ↦ rw (e, transfer_target_ready) (Refines-refl m.transfers)
    | inr (t, e) ↦
        rw (e, transfer_target_ready)
          (Refines-if m.transfers
            (is_final t.state || not (is_session session t.target) || not (is_preparing t.state)) _
            _ (λ _. Refines-refl m.transfers)
            (λ g.
              let p : t.state ≡ preparing = preparing_iff t.state (ground arith) in
              Refines-if m.transfers t.source_ready _ _
                (λ r.
                  written_sent t (begin now (record t { target_ready = true; updated_at = now })) e
                    (next here (begins p refl)) _ t.source (transfer_send id)
                    (kept_job t _ refl refl refl refl refl refl refl))
                (λ r.
                  Refines-put m.transfers id t _ e (kept_job t _ refl refl refl refl refl refl refl)
                    here)))
  ]

  pub transfer_source_finish-Refines :
      (size : ℕ) (raw : String)
      → Refines m.transfers (transfer_source_finish net now session id size raw m).transfers
  unfolding transfer_source_finish
  transfer_source_finish-Refines size raw =
      Refines-if m.transfers (not (valid_sha256 (to_lower (trim_space raw)))) _ _
        (λ _. fail-Refines net now id _ m)
        (λ v. elim (Option-cases (get id m.transfers)) [
          | inl e ↦ rw (e, transfer_source_finish) (Refines-refl m.transfers)
          | inr (t, e) ↦
              rw (e, transfer_source_finish)
                (Refines-if m.transfers
                  (is_final t.state
                    || not (is_session session t.source)
                    || not (is_transferring t.state))
                  _ _ (λ _. Refines-refl m.transfers)
                  (λ g.
                    let p : t.state ≡ transferring = transferring_iff t.state (ground arith) in
                    Refines-if m.transfers
                      (not (nat_beq size t.size) || not (nat_beq t.transferred t.size)) _ _
                      (λ _. fail_locked-Refines net now id _ m)
                      (λ q.
                        written_sent t
                          (record t {
                            state = verifying;
                            sha256 = to_lower (trim_space raw);
                            updated_at = now;
                          })
                          e (next here (checks p (ground arith) refl)) _ t.target _
                          (kept_job t _ refl refl refl refl refl refl refl))))
        ])

  pub transfer_target_finish-Refines :
      (size : ℕ) (raw : String)
      → Refines m.transfers (transfer_target_finish net now session id size raw m).transfers
  unfolding transfer_target_finish
  transfer_target_finish-Refines size raw = elim (Option-cases (get id m.transfers)) [
    | inl e ↦ rw (e, transfer_target_finish) (Refines-refl m.transfers)
    | inr (t, e) ↦
        rw (e, transfer_target_finish)
          (Refines-if m.transfers
            (is_final t.state || not (is_session session t.target) || not (is_verifying t.state)) _
            _ (λ _. Refines-refl m.transfers)
            (λ g.
              let p : t.state ≡ verifying = verifying_iff t.state (ground arith) in
              Refines-if m.transfers
                (not (nat_beq size t.size) || not (str_beq (to_lower (trim_space raw)) t.sha256)) _
                _ (λ _. fail-Refines net now id _ m)
                (λ _.
                  Refines-put m.transfers id t _ e (kept_job t _ refl refl refl refl refl refl refl)
                    (next here (completes p refl)))))
  ]

  pub transfer_peer_failed-Refines :
      (role message : String)
      → Refines m.transfers (transfer_peer_failed net now session id role message m).transfers
  unfolding transfer_peer_failed
  transfer_peer_failed-Refines role message = elim (Option-cases (get id m.transfers)) [
    | inl e ↦ rw (e, transfer_peer_failed) (Refines-refl m.transfers)
    | inr (t, e) ↦
        rw (e, transfer_peer_failed)
          (Refines-if m.transfers (not (is_session session t.source || is_session session t.target))
            _ _ (λ _. Refines-refl m.transfers) (λ _. fail-Refines net now id _ m))
  ]

  pub transfer_source_cancelled-Refines :
      Refines m.transfers (transfer_source_cancelled net now session id m).transfers
  unfolding transfer_source_cancelled
  transfer_source_cancelled-Refines = elim (Option-cases (get id m.transfers)) [
    | inl e ↦ rw (e, transfer_source_cancelled) (Refines-refl m.transfers)
    | inr (t, e) ↦
        rw (e, transfer_source_cancelled)
          (Refines-if m.transfers (not (is_session session t.source) || is_cancelled t.state) _ _
            (λ _. Refines-refl m.transfers) (λ _. fail-Refines net now id _ m))
  ]

-- Whatever message arrives, from whichever session, the table goes through moves.
pub handle_transfer_message-Refines :
    (net : Net) (now session : ℕ) (r : WireResponse) (m : Manager)
    → Refines m.transfers (handle_transfer_message net now session r m).transfers
unfolding handle_transfer_message
handle_transfer_message-Refines net now session r m =
    let id = trim_space r.transfer_id in
    Refines-if m.transfers (str_beq id "") _ _ (λ _. Refines-refl m.transfers)
      (λ _.
        Refines-if m.transfers (str_beq r.type "transfer_source_ready") _ _
          (λ _. transfer_source_ready-Refines net now session id m r.size)
          (λ _.
            Refines-if m.transfers (str_beq r.type "transfer_target_ready") _ _
              (λ _. transfer_target_ready-Refines net now session id m)
              (λ _.
                Refines-if m.transfers (str_beq r.type "transfer_source_finish") _ _
                  (λ _. transfer_source_finish-Refines net now session id m r.size r.sha256)
                  (λ _.
                    Refines-if m.transfers (str_beq r.type "transfer_target_finish") _ _
                      (λ _. transfer_target_finish-Refines net now session id m r.size r.sha256)
                      (λ _.
                        Refines-if m.transfers (str_beq r.type "transfer_failed") _ _
                          (λ _. transfer_peer_failed-Refines net now session id m r.role r.error)
                          (λ _.
                            Refines-if m.transfers (str_beq r.type "transfer_source_cancelled") _ _
                              (λ _. transfer_source_cancelled-Refines net now session id m)
                              (λ _. Refines-refl m.transfers)))))))
