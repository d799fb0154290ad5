-- ===== src/Device/Transfer/Verified.antt =====
-- How a transfer ends: what the target's and the source's last messages do.
use zshell_gateway.Base.{
  ℕ, String, ◌≡◌, refl, ap, ◌∙◌, ◌||◌, ◌&&◌, not, true, false, Option, none, some, arith, str_beq,
  nat_beq, Bool-cases, string_eq, inl, inr, if◌then◌else◌,
}
use zshell_gateway.Dict.{get, get-put_self}
use zshell_gateway.Text.Trim.{trim_space}
use zshell_gateway.Text.Hex.{to_lower}
use zshell_gateway.Device.Types.{
  Message, Transfer, failed, completed, verifying, Manager, Net, transfer_cancel,
}
use zshell_gateway.Device.Session.{send, set_session, accepted}
use zshell_gateway.Device.Transfer.State.{
  is_final, is_session, is_verifying, notify, valid_sha256, fail_transfer_relay_locked,
  fail_transfer,
}
use zshell_gateway.Device.Transfer.Handlers.{transfer_source_finish, transfer_target_finish}
use zshell_gateway.Device.Transfer.Preserve.{ended}

pub send-transfers :
    (net : Net) (h : ℕ) (v : Message) (m : Manager) → (send net h v m).1.transfers ≡ m.transfers
unfolding send accepted set_session
send-transfers net h v m = ground arith

pub notify-transfers :
    (net : Net) (o : Option ℕ) (v : Message) (m : Manager)
    → (notify net o v m).transfers ≡ m.transfers
unfolding notify
notify-transfers net none v m = refl
notify-transfers net (some h) v m = send-transfers net h v m

-- A failure puts the live transfer into the state `failed`, with the message.
pub get-fail_locked :
    (net : Net) (now : ℕ) (id message : String) (m : Manager) (t : Transfer)
    → get id m.transfers ≡ some t
    → is_final t.state ≡ false
    → get id (fail_transfer_relay_locked net now id message m).transfers
      ≡ some (ended failed message now t)
unfolding fail_transfer_relay_locked
get-fail_locked net now id message m t found live =
    rw (found, fail_transfer_relay_locked)
      (rw live (
        ap (get id) (
          notify-transfers net t.target (transfer_cancel id) _
          ∙ notify-transfers net t.source (transfer_cancel id) _)
        ∙ get-put_self id (ended failed message now t) m.transfers))

pub get-fail :
    (net : Net) (now : ℕ) (id message : String) (m : Manager) (t : Transfer)
    → get id m.transfers ≡ some t
    → is_final t.state ≡ false
    → get id (fail_transfer net now id message m).transfers ≡ some (ended failed message now t)
unfolding fail_transfer
get-fail net now id message m t found live =
    rw (found, fail_transfer) (get-fail_locked net now id message m t found live)

-- While a transfer is being verified, the target's finish message completes it, with every byte
-- counted, if its size and its hash (trimmed, in lower case) are the source's, and fails it otherwise.
pub target_finish_verifies :
    (net : Net) (now session : ℕ) (id : String) (size : ℕ) (raw : String) (m : Manager)
    (t : Transfer)
    → get id m.transfers ≡ some t
    → t.state ≡ verifying
    → is_session session t.target ≡ true
    → (u : Transfer) × (get id (transfer_target_finish net now session id size raw m).transfers
        ≡ some u)
      × (if nat_beq size t.size && str_beq (to_lower (trim_space raw)) t.sha256
          then (u.state ≡ completed) × (u.transferred ≡ t.size)
          else (u.state ≡ failed))
unfolding transfer_target_finish
target_finish_verifies net now session id size raw m t found state peer =
    elim (Bool-cases (nat_beq size t.size && str_beq (to_lower (trim_space raw)) t.sha256)) [
      | inl same ↦ (
        record t {
          timer = none;
          state = completed;
          transferred = t.size;
          updated_at = now;
          source = none;
          target = none;
        },
        rw (found, transfer_target_finish)
            (rw (passed, differs same) (get-put_self id _ m.transfers)),
        rw same (refl, refl),
      )
      | inr differ ↦ (
        ended failed "target verification did not match source" now t,
        rw (found, transfer_target_finish)
            (rw (passed, agrees differ) (get-fail net now id _ m t found live)),
        rw differ refl,
      )
    ]
  where
    live : is_final t.state ≡ false
    live = unfold is_final in ground (arith, state)

    passed :
        (is_final t.state || not (is_session session t.target) || not (is_verifying t.state))
        ≡ false
    passed = ground (arith, live, peer, state)

    differs :
        (nat_beq size t.size && str_beq (to_lower (trim_space raw)) t.sha256) ≡ true
        → (not (nat_beq size t.size) || not (str_beq (to_lower (trim_space raw)) t.sha256)) ≡ false
    differs h = ground (arith, h)

    agrees :
        (nat_beq size t.size && str_beq (to_lower (trim_space raw)) t.sha256) ≡ false
        → (not (nat_beq size t.size) || not (str_beq (to_lower (trim_space raw)) t.sha256)) ≡ true
    agrees h = ground (arith, h)

-- A finish message with a hash that is no SHA-256 fails a live transfer, although the session that
-- sends it is neither the source nor the target.
pub stranger_fails :
    (net : Net) (now session : ℕ) (id : String) (size : ℕ) (raw : String) (m : Manager)
    (t : Transfer)
    → get id m.transfers ≡ some t
    → is_final t.state ≡ false
    → is_session session t.source ≡ false
    → is_session session t.target ≡ false
    → valid_sha256 (to_lower (trim_space raw)) ≡ false
    → get id (transfer_source_finish net now session id size raw m).transfers
      ≡ some (ended failed "source returned an invalid SHA-256" now t)
unfolding transfer_source_finish
stranger_fails net now session id size raw m t found live s1 s2 bad =
    rw bad (get-fail net now id "source returned an invalid SHA-256" m t found live)
