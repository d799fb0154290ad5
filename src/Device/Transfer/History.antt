-- ===== src/Device/Transfer/History.antt =====
-- transfer.go: `pruneTransferHistoryLocked`, which drops the oldest final transfers.
use zshell_gateway.Base.{
  ℕ, zero, suc, String, ◌&&◌, ◌||◌, [], ◌∷◌, str_beq, ltb, if◌then◌else◌, string_eq, length,
}
use zshell_gateway.Dict.{Dict, remove}
use zshell_gateway.Device.Types.{Transfer}
use zshell_gateway.Device.Transfer.State.{is_final}

abbrev pub max_transfer_history : ℕ
max_transfer_history = 256

-- the inner loop, over what is left of the map, `oldestID` and `oldest`
unfoldable pub oldest_final : Dict String Transfer → String → ℕ → String
unfolding is_final
oldest_final [] oldest_id oldest = oldest_id
oldest_final ((id, t) ∷ rest) oldest_id oldest =
    let newer = is_final t.state && (str_beq oldest_id "" || ltb t.updated_at oldest) in
    oldest_final rest (if newer then id else oldest_id) (if newer then t.updated_at else oldest)

-- The outer loop. Every round but the last drops an entry, so `length` of the map is fuel enough.
unfoldable pub prune_loop : ℕ → Dict String Transfer → Dict String Transfer
unfolding oldest_final
prune_loop zero ts = ts
prune_loop (suc fuel) ts =
    let oldest_id = oldest_final ts "" 0 in
    let rest = prune_loop fuel (remove oldest_id ts) in
    if ltb (length ts) max_transfer_history || str_beq oldest_id "" then ts else rest

unfoldable pub prune_history : Dict String Transfer → Dict String Transfer
unfolding prune_loop
prune_history ts = prune_loop (length ts) ts
