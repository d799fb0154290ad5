-- ===== src/Device/Transfer/Endings.antt =====
-- transfer.go: what ends transfers from outside: the idle timer, a lost device, a shutdown.
use zshell_gateway.Base.{
  ℕ, ◌+◌, ◌-◌, String, ◌||◌, List, [], ◌∷◌, none, some, str_beq, ltb, if◌then◌else◌, string_eq,
}
use zshell_gateway.Dict.{Dict, get}
use zshell_gateway.Text.Decimal.{concat}
use zshell_gateway.Device.Types.{Transfer, Manager, Net}
use zshell_gateway.Device.Transfer.State.{
  idle_timeout, is_final, store, fail_transfer_relay_locked, fail_transfer,
}

-- `expireTransfer`: the timer fires, and is armed again if there was progress
unfoldable pub expire_transfer : Net → ℕ → String → Manager → Manager
unfolding is_final store fail_transfer_relay_locked
expire_transfer net now id m = elim (get id m.transfers) [
  | none ↦ m
  | some t ↦
      if is_final t.state
      then m
      else let idle = now - t.updated_at in
        if ltb idle idle_timeout
        then store id (record t { timer = some (now + (idle_timeout - idle)) }) m
        else fail_transfer_relay_locked net now id
            "transfer timed out after 2 minutes without progress" m
]

-- the loop of `failTransfersForDevice` and `cancelAllTransfers` over the collected ids
unfoldable pub fail_all : Net → ℕ → String → List String → Manager → Manager
fail_all net now message [] m = m
fail_all net now message (id ∷ ids) m =
    fail_all net now message ids (fail_transfer net now id message m)

unfoldable pub ids_of_device : String → Dict String Transfer → List String
unfolding is_final
ids_of_device device [] = []
ids_of_device device ((id, t) ∷ rest) =
    let later = ids_of_device device rest in
    if is_final t.state
    then later
    else if str_beq t.source_device device || str_beq t.target_device device
    then id ∷ later
    else later

-- `failTransfersForDevice`
unfoldable pub fail_transfers_for_device : Net → ℕ → String → String → Manager → Manager
unfolding fail_all ids_of_device
fail_transfers_for_device net now device reason m =
    fail_all net now (concat reason (concat ": " device)) (ids_of_device device m.transfers) m

unfoldable pub live_ids : Dict String Transfer → List String
unfolding is_final
live_ids [] = []
live_ids ((id, t) ∷ rest) =
    let later = live_ids rest in if is_final t.state then later else id ∷ later

-- `cancelAllTransfers`
unfoldable pub cancel_all_transfers : Net → ℕ → String → Manager → Manager
unfolding fail_all live_ids
cancel_all_transfers net now reason m = fail_all net now reason (live_ids m.transfers) m
