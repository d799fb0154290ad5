-- ===== src/Device/Transfer/Start.antt =====
-- transfer.go: `StartTransfer`, up to where it waits for the two devices.
use zshell_gateway.Base.{
  ℕ, ◌+◌, String, Bool, false, ◌||◌, List, Option, none, some, str_beq, if◌then◌else◌, string_eq,
}
use zshell_gateway.Dict.{get, put}
use zshell_gateway.Text.Trim.{trim_space}
use zshell_gateway.Text.Hex.{encode}
use zshell_gateway.Text.Decimal.{concat}
use zshell_gateway.Device.Types.{
  transfer_target_start, transfer_source_start, preparing, Transfer, Manager, Error, Result, ok,
  err, transfer_same_device, invalid_transfer_request, transfer_device_busy, context_error, Net,
}
use zshell_gateway.Device.Session.{send, error_text}
use zshell_gateway.Device.Registry.{resolve}
use zshell_gateway.Device.Transfer.State.{
  idle_timeout, is_some, fail_transfer_relay_locked, cancel_transfer, transfer_status, Snapshot,
}
use zshell_gateway.Device.Transfer.History.{prune_history}

-- The arguments of `StartTransfer`, trimmed.
pub record Request : Type 0 where
  pub source_device : String
  pub source_path : String
  pub target_device : String
  pub target_path : String
  pub overwrite : Bool

abbrev pub trim_request : Request → Request
trim_request r = record r {
  source_device = trim_space r.source_device;
  source_path = trim_space r.source_path;
  target_device = trim_space r.target_device;
  target_path = trim_space r.target_path;
}

-- `newTransferID`: the bytes that `rand.Read` gave, or its error
abbrev pub new_transfer_id : Result (List ℕ) → Result String
new_transfer_id (ok bytes) = ok (encode bytes)
new_transfer_id (err e) = err e

unfoldable pub new_transfer : String → ℕ → Request → ℕ → ℕ → Transfer
new_transfer id now r source target = record {
  id = id;
  source_device = r.source_device;
  source_path = r.source_path;
  target_device = r.target_device;
  target_path = r.target_path;
  overwrite = r.overwrite;
  source = some source;
  target = some target;
  state = preparing;
  size = 0;
  transferred = 0;
  sha256 = "";
  error = "";
  source_ready = false;
  target_ready = false;
  next_seq = 0;
  created_at = now;
  started_at = none;
  updated_at = now;
  ready = false;
  timer = some (now + idle_timeout);
}

-- the critical section that reserves both devices
unfoldable pub reserve : String → Transfer → Manager → Result Manager
unfolding prune_history
reserve id t m =
    if is_some (get t.source_device m.active_transfer)
    then err (transfer_device_busy t.source_device)
    else if is_some (get t.target_device m.active_transfer)
    then err (transfer_device_busy t.target_device)
    else ok (record m {
      transfers = put id t (prune_history m.transfers);
      active_transfer = put t.target_device id (put t.source_device id m.active_transfer);
    })

-- the two start messages, under `relayMu`
unfoldable pub announce : Net → ℕ → String → Request → ℕ → ℕ → Manager → Manager
announce net now id r source target m =
    let (failure, m1) = send net target (transfer_target_start id r.target_path r.overwrite) m in
    elim failure [
      | some e ↦
          fail_transfer_relay_locked net now id (concat "failed to prepare target: " (error_text e))
            m1
      | none ↦
          let (failure', m2) = send net source (transfer_source_start id r.source_path) m1 in
          elim failure' [
            | some e ↦
                fail_transfer_relay_locked net now id
                  (concat "failed to prepare source: " (error_text e)) m2
            | none ↦ m2
          ]
    ]

-- the checks on the trimmed arguments
unfoldable pub check_request : Request → Option Error
check_request r =
    if str_beq r.source_device ""
      || str_beq r.target_device ""
      || str_beq r.source_path ""
      || str_beq r.target_path ""
    then some invalid_transfer_request
    else if str_beq r.source_device r.target_device
    then some transfer_same_device
    else none

-- `newTransferID` and the reservation, for the sessions that were resolved; it gives the id
unfoldable pub reserve_new :
    ℕ → Result (List ℕ) → Request → ℕ → ℕ → Manager → Result String × Manager
unfolding new_transfer reserve
reserve_new now random r source target m = elim (new_transfer_id random) [
  | err e ↦ (err e, m)
  | ok id ↦ elim (reserve id (new_transfer id now r source target) m) [
    | err e ↦ (err e, m)
    | ok m' ↦ (ok id, m')
  ]
]

-- from `resolve` on, for a request that passed its checks, with nothing between the steps
unfoldable pub start_resolved :
    Net → ℕ → Result (List ℕ) → Request → Manager → Result String × Manager
unfolding reserve_new announce
start_resolved net now random r m = elim (resolve r.source_device m) [
  | err e ↦ (err e, m)
  | ok source ↦ elim (resolve r.target_device m) [
    | err e ↦ (err e, m)
    | ok target ↦
        let (reserved, m') = reserve_new now random r source target m in
        elim reserved [
          | err e ↦ (err e, m')
          | ok id ↦ (ok id, announce net now id r source target m')
        ]
  ]
]

-- `StartTransfer` until its `select`, with what `ctx.Err()` said, where nothing comes between its steps; it
-- gives the id that it waits for
unfoldable pub start_transfer :
    Net → ℕ → Option String → Result (List ℕ) → Request → Manager → Result String × Manager
unfolding check_request start_resolved
start_transfer net now ctx random raw m = elim (check_request (trim_request raw)) [
  | some e ↦ (err e, m)
  | none ↦ elim ctx [
    | some e ↦ (err (context_error e), m)
    | none ↦ start_resolved net now random (trim_request raw) m
  ]
]

-- The case of the `select` that is taken.
pub data Wake : Type 0 where
  ready_closed : Wake
  context_done : String → Wake

-- the `select` that ends `StartTransfer`
unfoldable pub finish_start : Net → ℕ → String → Wake → Manager → Result Snapshot × Manager
finish_start net now id ready_closed m = (transfer_status now id m, m)
finish_start net now id (context_done e) m =
    (err (context_error e), (cancel_transfer net now id m).1)
