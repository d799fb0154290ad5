-- ===== src/Device/Transfer/Handlers.antt =====
-- transfer.go: what the gateway does with the control messages that the two devices send.
use zshell_gateway.Base.{
  ℕ, String, true, not, ◌||◌, none, some, nat_beq, str_beq, if◌then◌else◌, string_eq,
}
use zshell_gateway.Dict.{get}
use zshell_gateway.Text.Trim.{trim_space}
use zshell_gateway.Text.Hex.{to_lower}
use zshell_gateway.Text.Decimal.{concat, decimal}
use zshell_gateway.Device.Types.{
  transfer_send, transfer_commit, WireResponse, transferring, verifying, completed, Transfer,
  Manager, Net,
}
use zshell_gateway.Device.Transfer.State.{
  is_final, is_session, valid_sha256, store, is_preparing, is_transferring, is_verifying,
  is_cancelled, send_or_fail, release_devices, stop_timer, fail_transfer_relay_locked,
  fail_transfer,
}

-- The transfer when both ends are ready: the channel `ready` is closed.
abbrev pub begin : ℕ → Transfer → Transfer
begin now t = record t {
  state = transferring;
  started_at = some now;
  updated_at = now;
  ready = true;
}

-- `transferSourceReady`
unfoldable pub transfer_source_ready : Net → ℕ → ℕ → String → ℕ → Manager → Manager
unfolding is_final store send_or_fail
transfer_source_ready net now session id size m = elim (get id m.transfers) [
  | none ↦ m
  | some t ↦
      if is_final t.state || not (is_session session t.source) || not (is_preparing t.state)
      then m
      else let t' = record t { source_ready = true; size = size; updated_at = now } in
        if t.target_ready
        then send_or_fail net now id "failed to start source stream: " t.source (transfer_send id)
            (store id (begin now t') m)
        else store id t' m
]

-- `transferTargetReady`
unfoldable pub transfer_target_ready : Net → ℕ → ℕ → String → Manager → Manager
unfolding is_final store send_or_fail
transfer_target_ready net now session id m = elim (get id m.transfers) [
  | none ↦ m
  | some t ↦
      if is_final t.state || not (is_session session t.target) || not (is_preparing t.state)
      then m
      else let t' = record t { target_ready = true; updated_at = now } in
        if t.source_ready
        then send_or_fail net now id "failed to start source stream: " t.source (transfer_send id)
            (store id (begin now t') m)
        else store id t' m
]

abbrev size_text : ℕ → ℕ → ℕ → String
size_text declared moved expected = concat "source size mismatch: declared=" (
    concat (decimal declared)
      (concat " relayed=" (concat (decimal moved) (concat " expected=" (decimal expected)))))

-- `transferSourceFinish`
unfoldable pub transfer_source_finish : Net → ℕ → ℕ → String → ℕ → String → Manager → Manager
unfolding valid_sha256 is_final store send_or_fail fail_transfer
transfer_source_finish net now session id size raw_sha256 m =
    let sha256 = to_lower (trim_space raw_sha256) in
    if not (valid_sha256 sha256)
    then fail_transfer net now id "source returned an invalid SHA-256" m
    else elim (get id m.transfers) [
      | none ↦ m
      | some t ↦
          if is_final t.state || not (is_session session t.source) || not (is_transferring t.state)
          then m
          else if not (nat_beq size t.size) || not (nat_beq t.transferred t.size)
          then fail_transfer_relay_locked net now id (size_text size t.transferred t.size) m
          else send_or_fail net now id "failed to commit target: " t.target
              (transfer_commit id size sha256)
              (store id (record t { state = verifying; sha256 = sha256; updated_at = now }) m)
    ]

-- `transferTargetFinish`; a failure is a section of its own, here with nothing before it
unfoldable pub transfer_target_finish : Net → ℕ → ℕ → String → ℕ → String → Manager → Manager
unfolding is_final store release_devices stop_timer fail_transfer
transfer_target_finish net now session id size raw_sha256 m =
    let sha256 = to_lower (trim_space raw_sha256) in
    elim (get id m.transfers) [
      | none ↦ m
      | some t ↦
          if is_final t.state || not (is_session session t.target) || not (is_verifying t.state)
          then m
          else if not (nat_beq size t.size) || not (str_beq sha256 t.sha256)
          then fail_transfer net now id "target verification did not match source" m
          else store id
              (record (stop_timer t) {
                state = completed;
                transferred = t.size;
                updated_at = now;
                source = none;
                target = none;
              })
              (release_devices t m)
    ]

abbrev peer_text : String → String → String
peer_text role given =
    let message = if str_beq given "" then "peer reported transfer failure" else given in
    if str_beq role "" then message else concat role (concat ": " message)

-- `transferPeerFailed`, likewise
unfoldable pub transfer_peer_failed : Net → ℕ → ℕ → String → String → String → Manager → Manager
unfolding fail_transfer
transfer_peer_failed net now session id raw_role raw_message m = elim (get id m.transfers) [
  | none ↦ m
  | some t ↦
      if not (is_session session t.source || is_session session t.target)
      then m
      else fail_transfer net now id (peer_text (trim_space raw_role) (trim_space raw_message)) m
]

-- `transferSourceCancelled`, likewise
unfoldable pub transfer_source_cancelled : Net → ℕ → ℕ → String → Manager → Manager
unfolding fail_transfer
transfer_source_cancelled net now session id m = elim (get id m.transfers) [
  | none ↦ m
  | some t ↦
      if not (is_session session t.source) || is_cancelled t.state
      then m
      else fail_transfer net now id "source stream cancelled unexpectedly" m
]

-- `handleTransferMessage`
unfoldable pub handle_transfer_message : Net → ℕ → ℕ → WireResponse → Manager → Manager
handle_transfer_message net now session r m =
    let id = trim_space r.transfer_id in
    if str_beq id ""
    then m
    else if str_beq r.type "transfer_source_ready"
    then transfer_source_ready net now session id r.size m
    else if str_beq r.type "transfer_target_ready"
    then transfer_target_ready net now session id m
    else if str_beq r.type "transfer_source_finish"
    then transfer_source_finish net now session id r.size r.sha256 m
    else if str_beq r.type "transfer_target_finish"
    then transfer_target_finish net now session id r.size r.sha256 m
    else if str_beq r.type "transfer_failed"
    then transfer_peer_failed net now session id r.role r.error m
    else if str_beq r.type "transfer_source_cancelled"
    then transfer_source_cancelled net now session id m
    else m
