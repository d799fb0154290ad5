-- ===== src/Device/Transfer/State.antt =====
-- transfer.go: final states, failure and cancellation, and the reservation of devices.
use zshell_gateway.Base.{
  ◌≡◌, arith, ℕ, ◌-◌, ◌*◌, String, Bool, true, false, ◌&&◌, Option, none, some, nat_beq, str_beq,
  ltb, if◌then◌else◌, string_eq,
}
use zshell_gateway.Dict.{Dict, get, put, remove}
use zshell_gateway.Text.Trim.{trim_space, byte_len}
use zshell_gateway.Text.Hex.{decode}
use zshell_gateway.Text.Decimal.{concat}
use zshell_gateway.Device.Types.{
  Message, transfer_cancel, TransferState, preparing, transferring, verifying, completed, failed,
  cancelled, Transfer, Manager, Result, ok, err, transfer_not_found, Net, seconds,
}
use zshell_gateway.Device.Session.{send, error_text}

-- `transferIdleTimeout`
abbrev pub idle_timeout : ℕ
idle_timeout = seconds 120

unfoldable pub is_final : TransferState → Bool
is_final completed = true
is_final failed = true
is_final cancelled = true
is_final preparing = false
is_final transferring = false
is_final verifying = false

abbrev pub is_some : {A : Type 0} → Option A → Bool
is_some none = false
is_some (some _) = true

abbrev pub is_none : {A : Type 0} → Option A → Bool
is_none none = true
is_none (some _) = false

-- `validSHA256`
unfoldable pub valid_sha256 : String → Bool
valid_sha256 value = nat_beq (byte_len value) 64 && is_some (decode value)

-- `session == pointer`, where the pointer may be nil
abbrev pub is_session : ℕ → Option ℕ → Bool
is_session h none = false
is_session h (some k) = nat_beq k h

abbrev pub is_preparing : TransferState → Bool
is_preparing preparing = true
is_preparing _ = false

pub preparing_iff : (s : TransferState) → is_preparing s ≡ true → s ≡ preparing
preparing_iff s h = ground arith

abbrev pub is_transferring : TransferState → Bool
is_transferring transferring = true
is_transferring _ = false

pub transferring_iff : (s : TransferState) → is_transferring s ≡ true → s ≡ transferring
transferring_iff s h = ground arith

abbrev pub is_verifying : TransferState → Bool
is_verifying verifying = true
is_verifying _ = false

pub verifying_iff : (s : TransferState) → is_verifying s ≡ true → s ≡ verifying
verifying_iff s h = ground arith

abbrev pub is_cancelled : TransferState → Bool
is_cancelled cancelled = true
is_cancelled _ = false

-- a write through a transfer pointer that is in the map
unfoldable pub store : String → Transfer → Manager → Manager
store id t m = record m { transfers = put id t m.transfers }

-- `if m.activeTransfer[name] == id { delete(m.activeTransfer, name) }`
unfoldable pub release_device : String → String → Dict String String → Dict String String
release_device name id active = elim (get name active) [
  | none ↦ active
  | some holder ↦ if str_beq holder id then remove name active else active
]

-- `releaseTransferDevicesLocked`; `stop_timer` is its first statement
unfoldable pub release_devices : Transfer → Manager → Manager
unfolding release_device
release_devices t m = record m {
  active_transfer =
      release_device t.target_device t.id (release_device t.source_device t.id m.active_transfer);
}

unfoldable pub stop_timer : Transfer → Transfer
stop_timer t = record t { timer = none }

-- `_ = session.send(message)` where the session is not nil
unfoldable pub notify : Net → Option ℕ → Message → Manager → Manager
notify net none message m = m
notify net (some h) message m = (send net h message m).1

-- `failTransferRelayLocked`
unfoldable pub fail_transfer_relay_locked : Net → ℕ → String → String → Manager → Manager
unfolding is_final store release_devices stop_timer
fail_transfer_relay_locked net now id message m = elim (get id m.transfers) [
  | none ↦ m
  | some t ↦
      if is_final t.state
      then m
      else let t' = record (stop_timer t) {
        state = failed;
        error = message;
        updated_at = now;
        ready = true;
        source = none;
        target = none;
      } in
        notify net t.target (transfer_cancel id)
          (notify net t.source (transfer_cancel id) (store id t' (release_devices t m)))
]

-- A send whose failure fails the transfer; a nil session is a panic, which the model leaves inert.
unfoldable pub send_or_fail : Net → ℕ → String → String → Option ℕ → Message → Manager → Manager
unfolding error_text fail_transfer_relay_locked
send_or_fail net now id prefix none message m = m
send_or_fail net now id prefix (some h) message m =
    let (failure, m') = send net h message m in
    elim failure [
      | none ↦ m'
      | some e ↦ fail_transfer_relay_locked net now id (concat prefix (error_text e)) m'
    ]

-- `failTransfer`
unfoldable pub fail_transfer : Net → ℕ → String → String → Manager → Manager
unfolding fail_transfer_relay_locked
fail_transfer net now id message m = elim (get id m.transfers) [
  | none ↦ m
  | some t ↦ fail_transfer_relay_locked net now id message m
]

-- `Progress` is exact here, a numerator and a denominator, and `BytesPerSecond` is the bytes and the
-- nanoseconds whose quotient it is.
pub record Snapshot : Type 0 where
  pub transfer_id : String
  pub status : TransferState
  pub source_device : String
  pub source_path : String
  pub target_device : String
  pub target_path : String
  pub overwrite : Bool
  pub size : ℕ
  pub transferred : ℕ
  pub progress : ℕ × ℕ
  pub bytes_per_second : ℕ × ℕ
  pub sha256 : String
  pub error : String
  pub created_at : ℕ
  pub updated_at : ℕ

abbrev pub finished_bytes : TransferState → Bool
finished_bytes completed = true
finished_bytes verifying = true
finished_bytes _ = false

unfoldable pub progress_of : Transfer → ℕ × ℕ
progress_of t =
    if ltb 0 t.size
    then (t.transferred * 100, t.size)
    else if finished_bytes t.state
    then (100, 1)
    else (0, 1)

unfoldable pub rate_of : ℕ → Transfer → ℕ × ℕ
unfolding is_final
rate_of now t = elim t.started_at [
  | none ↦ (0, 1)
  | some started ↦
      let end = if is_final t.state then t.updated_at else now in
      if ltb 0 t.transferred && ltb 0 (end - started)
      then (t.transferred, end - started)
      else (0, 1)
]

-- `snapshotTransfer`
unfoldable pub snapshot : ℕ → Transfer → Snapshot
unfolding progress_of rate_of
snapshot now t = record {
  transfer_id = t.id;
  status = t.state;
  source_device = t.source_device;
  source_path = t.source_path;
  target_device = t.target_device;
  target_path = t.target_path;
  overwrite = t.overwrite;
  size = t.size;
  transferred = t.transferred;
  progress = progress_of t;
  bytes_per_second = rate_of now t;
  sha256 = t.sha256;
  error = t.error;
  created_at = t.created_at;
  updated_at = t.updated_at;
}

-- `TransferStatus`
unfoldable pub transfer_status : ℕ → String → Manager → Result Snapshot
transfer_status now id m = elim (get (trim_space id) m.transfers) [
  | none ↦ err transfer_not_found
  | some t ↦ ok (snapshot now t)
]

-- `CancelTransfer`
unfoldable pub cancel_transfer : Net → ℕ → String → Manager → Result Snapshot × Manager
unfolding is_final store release_devices stop_timer
cancel_transfer net now raw_id m =
    let id = trim_space raw_id in
    elim (get id m.transfers) [
      | none ↦ (err transfer_not_found, m)
      | some t ↦
          if is_final t.state
          then (ok (snapshot now t), m)
          else let t' = record (stop_timer t) {
            state = cancelled;
            error = "cancelled";
            updated_at = now;
            ready = true;
            source = none;
            target = none;
          } in
            (
              ok (snapshot now t'),
              notify net t.target (transfer_cancel id)
                  (notify net t.source (transfer_cancel id) (store id t' (release_devices t m))),
            )
    ]
