-- ===== src/Device/Transfer/Preserve.antt =====
-- Failure and cancellation keep the invariant.
pub mod Messages
use zshell_gateway.Base.{
  ℕ, ◌≤◌, ◌||◌, not, String, ◌≡◌, refl, inl, inr, Bool, true, false, Option, none, some, arith,
  str_beq, nat_beq, Bool-cases, Option-cases, string_eq, if◌then◌else◌,
}
use zshell_gateway.Dict.{get}
use zshell_gateway.Text.Trim.{trim_space}
use zshell_gateway.Text.Hex.{to_lower}
use zshell_gateway.Device.Types.{
  Message, transfer_cancel, transfer_send, TransferState, preparing, transferring, verifying,
  completed, failed, cancelled, Transfer, Manager, Net, WireResponse,
}
use zshell_gateway.Device.Session.{send, set_session, accepted}
use zshell_gateway.Device.Transfer.State.{
  is_final, is_session, is_preparing, is_transferring, is_verifying, is_cancelled, preparing_iff,
  transferring_iff, verifying_iff, valid_sha256, notify, fail_transfer_relay_locked, fail_transfer,
  send_or_fail, cancel_transfer,
}
use zshell_gateway.Device.Transfer.Handlers.{
  begin, transfer_source_ready, transfer_target_ready, transfer_source_finish,
  transfer_target_finish, transfer_peer_failed, transfer_source_cancelled, handle_transfer_message,
}
use zshell_gateway.Device.Transfer.Invariant.{
  Counted, IsSound, Ok, put-Inv, IsSound-at, Counted-at, connected_at,
}
use zshell_gateway.Device.Transfer.Release.{end-Inv}

pub send-Ok : (net : Net) (h : ℕ) (v : Message) (m : Manager) → Ok m → Ok (send net h v m).1
unfolding send accepted set_session
send-Ok net h v m inv = ground arith

pub notify-Ok :
    (net : Net) (o : Option ℕ) (v : Message) (m : Manager) → Ok m → Ok (notify net o v m)
unfolding notify
notify-Ok net none v m inv = inv
notify-Ok net (some h) v m inv = send-Ok net h v m inv

-- the transfer that a failure or a cancellation leaves
abbrev pub ended : TransferState → String → ℕ → Transfer → Transfer
ended s message now t = record t {
  timer = none;
  state = s;
  error = message;
  updated_at = now;
  ready = true;
  source = none;
  target = none;
}

pub Counted-le : (s : TransferState) (t : Transfer) → Counted s t → t.transferred ≤ t.size
Counted-le preparing t c = omega arith
Counted-le transferring t c = c.0
Counted-le verifying t c = omega arith
Counted-le completed t c = omega arith
Counted-le failed t c = c.0
Counted-le cancelled t c = c.0

ended-IsSound :
    (id message : String) (now : ℕ) (t : Transfer)
    → IsSound id t
    → IsSound id (ended failed message now t) × IsSound id (ended cancelled message now t)
unfolding is_final
ended-IsSound id message now t s =
    let le = Counted-le t.state t s.counted in
    (
      record { named = s.named; counted = (le, refl); connected = (refl, refl, refl) },
      record { named = s.named; counted = (le, refl); connected = (refl, refl, refl) },
    )

module _ (net : Net) (now : ℕ) (id message : String) (m : Manager) (inv : Ok m) where
  pub fail_transfer_relay_locked-Ok : Ok (fail_transfer_relay_locked net now id message m)
  unfolding fail_transfer_relay_locked
  fail_transfer_relay_locked-Ok = elim (Option-cases (get id m.transfers)) [
    | inl e ↦ rw (e, fail_transfer_relay_locked) inv
    | inr (t, e) ↦
        rw (e, fail_transfer_relay_locked)
          (elim (Bool-cases (is_final t.state)) [
            | inl f ↦ rw f inv
            | inr f ↦ rw f (
                notify-Ok net t.target (transfer_cancel id) _ (
                  notify-Ok net t.source (transfer_cancel id) _ (
                    end-Inv inv id t (ended failed message now t) e
                      (ended-IsSound id message now t (inv.sound id t e)).0 refl)))
          ])
  ]

  pub fail_transfer-Ok : Ok (fail_transfer net now id message m)
  unfolding fail_transfer
  fail_transfer-Ok = elim (Option-cases (get id m.transfers)) [
    | inl e ↦ rw (e, fail_transfer) inv
    | inr (t, e) ↦ rw (e, fail_transfer) fail_transfer_relay_locked-Ok
  ]

pub cancel_transfer-Ok :
    (net : Net) (now : ℕ) (raw_id : String) (m : Manager)
    → Ok m
    → Ok (cancel_transfer net now raw_id m).1
unfolding cancel_transfer
cancel_transfer-Ok net now raw_id m inv =
    let id = trim_space raw_id in
    elim (Option-cases (get id m.transfers)) [
      | inl e ↦ rw (e, cancel_transfer) inv
      | inr (t, e) ↦
          rw (e, cancel_transfer)
            (elim (Bool-cases (is_final t.state)) [
              | inl f ↦ rw f inv
              | inr f ↦ rw f (
                  notify-Ok net t.target (transfer_cancel id) _ (
                    notify-Ok net t.source (transfer_cancel id) _ (
                      end-Inv inv id t (ended cancelled "cancelled" now t) e
                        (ended-IsSound id "cancelled" now t (inv.sound id t e)).1 refl)))
            ])
    ]

pub send_or_fail-Ok :
    (net : Net) (now : ℕ) (id prefix : String) (o : Option ℕ) (v : Message) (m : Manager)
    → Ok m
    → Ok (send_or_fail net now id prefix o v m)
unfolding send_or_fail
send_or_fail-Ok net now id prefix none v m inv = inv
send_or_fail-Ok net now id prefix (some h) v m inv = elim (Option-cases (send net h v m).0) [
  | inl e ↦ rw (e, send_or_fail) (send-Ok net h v m inv)
  | inr (x, e) ↦
      rw (e, send_or_fail) (fail_transfer_relay_locked-Ok net now id _ _ (send-Ok net h v m inv))
]

pub Ok-if :
    (b : Bool) (x y : Manager) → (b ≡ true → Ok x) → (b ≡ false → Ok y) → Ok (if b then x else y)
Ok-if true x y p q = p refl
Ok-if false x y p q = q refl
