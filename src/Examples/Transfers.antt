-- ===== src/Examples/Transfers.antt =====
-- A manager with two devices and a transfer between them, in several states.
use zshell_gateway.Base.{
  ℕ, ◌<◌, String, ◌≡◌, refl, ◌⊎◌, true, false, if◌then◌else◌, ◌&&◌, nat_beq, str_beq, List, [], ◌∷◌,
  ◌++◌, none, some, string_eq, length, arith,
}
use zshell_gateway.Dict.{Dict, get}
use zshell_gateway.Text.Trim.{trim_space, byte_len}
use zshell_gateway.Text.Hex.{encode, IsBytes, to_lower}
use zshell_gateway.Device.Types.{
  transferring, verifying, completed, failed, Session, Transfer, Manager, ok,
}
use zshell_gateway.Device.Transfer.State.{is_final, snapshot, cancel_transfer, valid_sha256}
use zshell_gateway.Device.Transfer.History.{prune_history, max_transfer_history}
use zshell_gateway.Device.Transfer.Chunks.{handle_transfer_chunk}
use zshell_gateway.Device.Transfer.Endings.{expire_transfer}
use zshell_gateway.Device.Transfer.Handlers.{
  transfer_target_finish, transfer_source_finish, handle_transfer_message,
}
use zshell_gateway.Device.Transfer.Preserve.{ended}
use zshell_gateway.Device.Transfer.Final.{final_absorbs}
use zshell_gateway.Device.Transfer.InOrder.{SendsOn, relays_in_order, relay_counts, relayed_to}
use zshell_gateway.Device.Transfer.Pruning.{Prunes, prune_history-Prunes, prune_history_enough}
use zshell_gateway.Device.Transfer.Verified.{target_finish_verifies, stranger_fails}
use zshell_gateway.Device.Frame.{encode_transfer_frame, handle_transfer_binary}
use zshell_gateway.Device.Frame.RoundTrip.{handle-encode}
use zshell_gateway.Examples.Runs.{closed, accepting, sixteen, the_id, ready_message, started}

abbrev pub open_session : ℕ → Session
open_session _ = record closed { done = false }

abbrev pub with_transfer : Transfer → Manager
with_transfer t = record {
  devices = [];
  next_call_id = 0;
  transfers = (the_id, t) ∷ [];
  active_transfer = ("a", the_id) ∷ ("b", the_id) ∷ [];
  sessions = open_session;
  next_session = 3;
}

abbrev hash : String
hash = "e3b0c44298fc1c149afbf4c8996fb92427ae41e4649b934ca495991b7852b855"

abbrev checking : Transfer
checking = record started { state = verifying; transferred = 3; sha256 = hash }

abbrev done_transfer : Transfer
done_transfer = record checking { state = completed; source = none; target = none; timer = none }

abbrev payload : List ℕ
payload = 7 ∷ 8 ∷ 9 ∷ []

checking-found : get the_id (with_transfer checking).transfers ≡ some checking
unfolding get
checking-found = refl

target_finish_verifies_example :
    (u : Transfer) × (get the_id
        (transfer_target_finish accepting 6 1 the_id 3 hash (with_transfer checking)).transfers
      ≡ some u)
    × (if nat_beq 3 3 && str_beq (to_lower (trim_space hash)) hash
        then (u.state ≡ completed) × (u.transferred ≡ 3)
        else (u.state ≡ failed))
target_finish_verifies_example =
    target_finish_verifies accepting 6 1 the_id 3 hash (with_transfer checking) checking
      checking-found refl refl

relays_in_order_example :
    SendsOn 1 0 the_id 0 payload
      (with_transfer started)
      (handle_transfer_chunk accepting 6 0 the_id 0 payload (with_transfer started)).1
relays_in_order_example = relays_in_order accepting 6 1 0 the_id 0 payload (with_transfer started)

started-found : get the_id (with_transfer started).transfers ≡ some started
unfolding get
started-found = refl

relay_counts_example :
    ((handle_transfer_chunk accepting 6 0 the_id 0 payload (with_transfer started)).0 ≡ none)
    × (relayed_to 1 (handle_transfer_chunk accepting 6 0 the_id 0 payload (with_transfer started)).1
        ≡ relayed_to 1 (with_transfer started) ++ (the_id, 0, payload) ∷ [])
    × (get the_id
          (handle_transfer_chunk accepting 6 0 the_id 0 payload (with_transfer started)).1.transfers
        ≡ some (record started { next_seq = 1; transferred = 3; updated_at = 6 }))
relay_counts_example =
    relay_counts accepting 6 0 1 the_id 0 payload (with_transfer started) started started-found
      (record {
        running = refl;
        from_source = refl;
        in_order = refl;
        room = omega arith;
        to_target = refl;
      })
      refl refl

done-found : get the_id (with_transfer done_transfer).transfers ≡ some done_transfer
unfolding get
done-found = refl

done-is_final : is_final completed ≡ true
unfolding is_final
done-is_final = refl

trimmed_id : trim_space the_id ≡ the_id
unfolding trim_space
trimmed_id = refl

final_absorbs_example :
    (handle_transfer_message accepting 9 0
        (ready_message "transfer_source_ready")
        (with_transfer done_transfer)
      ≡ with_transfer done_transfer)
    × (handle_transfer_chunk accepting 9 0 the_id 0 payload (with_transfer done_transfer)
        ≡ (none, with_transfer done_transfer))
    × (expire_transfer accepting 9 the_id (with_transfer done_transfer)
        ≡ with_transfer done_transfer)
    × (cancel_transfer accepting 9 the_id (with_transfer done_transfer)
        ≡ (ok (snapshot 9 done_transfer), with_transfer done_transfer))
final_absorbs_example =
    final_absorbs accepting 9 0 the_id (with_transfer done_transfer) done_transfer
      (ready_message "transfer_source_ready") 0 payload the_id done-found done-is_final trimmed_id
      trimmed_id

abbrev table : Dict String Transfer
table = ("one", done_transfer) ∷ ("two", started) ∷ []

table-absent : get "" table ≡ none
unfolding get
table-absent = refl

one-absent : get {K = String} {V = Transfer} "one" (("two", started) ∷ []) ≡ none
unfolding get
one-absent = refl

two-absent : get {K = String} {V = Transfer} "two" [] ≡ none
unfolding get
two-absent = refl

prune_history-Prunes_example : Prunes table (prune_history table)
prune_history-Prunes_example = prune_history-Prunes table (one-absent, (two-absent, tt))

prune_history_enough_example :
    (length (prune_history table) < max_transfer_history)
    ⊎ ((j : String) (u : Transfer)
        → get j (prune_history table) ≡ some u
        → is_final u.state ≡ false)
prune_history_enough_example =
    prune_history_enough table (one-absent, (two-absent, tt)) table-absent

invalid_hash : valid_sha256 (to_lower (trim_space "zz")) ≡ false
unfolding valid_sha256 to_lower trim_space byte_len
invalid_hash = refl

started-live : is_final transferring ≡ false
unfolding is_final
started-live = refl

stranger_fails_example :
    get the_id
      (transfer_source_finish accepting 9 2 the_id 3 "zz" (with_transfer started)).transfers
    ≡ some (ended failed "source returned an invalid SHA-256" 9 started)
stranger_fails_example =
    stranger_fails accepting 9 2 the_id 3 "zz" (with_transfer started) started started-found
      started-live refl refl invalid_hash

sixteen-IsBytes : IsBytes sixteen
sixteen-IsBytes = ground arith

handle-encode_example :
    (frame : List ℕ) × (encode_transfer_frame (encode sixteen) 0 payload ≡ some frame)
    × (handle_transfer_binary accepting 6 0 frame (with_transfer started)
        ≡ handle_transfer_chunk accepting 6 0 (encode sixteen) 0 payload (with_transfer started))
handle-encode_example =
    handle-encode sixteen 0 payload accepting 6 0 (with_transfer started) refl sixteen-IsBytes
      (omega arith)
