-- ===== src/Examples/Runs.antt =====
-- Two devices attach, and the first sends a file to the second.
use zshell_gateway.Base.{
  ℕ, String, ◌≡◌, refl, inl, true, false, List, [], ◌∷◌, none, some, string_eq,
}
use zshell_gateway.Dict.{get, put}
use zshell_gateway.Text.Trim.{trim_space, byte_len}
use zshell_gateway.Text.Hex.{encode}
use zshell_gateway.Device.Types.{pos, Info, Session, Transfer, transferring, ok, Net, WireResponse}
use zshell_gateway.Device.Registry.{new_manager, attach, normalize_info, resolve}
use zshell_gateway.Device.Registry.Resolved.{resolve_lem, resolved_by}
use zshell_gateway.Device.Calls.Counting.{
  PendingOp, registers_call, registers_ping, takes, withdraws, counts,
}
use zshell_gateway.Device.Transfer.Invariant.{Ok}
use zshell_gateway.Device.Transfer.Start.{
  Request, trim_request, check_request, reserve_new, reserve, announce, new_transfer,
}
use zshell_gateway.Device.Lifecycle.{response, read_frame}
use zshell_gateway.Device.Session.{send, accepted}
use zshell_gateway.Device.Transfer.Handlers.{
  handle_transfer_message, transfer_target_ready, transfer_source_ready,
}
use zshell_gateway.Device.Events.{
  Event, attaches, reserves, announces, receives, run, reserve_event, Fresh,
}
use zshell_gateway.Device.Events.Invariant.{run-Ok}
use zshell_gateway.Device.Events.Implements.{Stems, run-Stems}
use zshell_gateway.Device.Events.Exclusive.{IsLive, one_live_transfer}

abbrev pub info_of : String → Info
info_of name = record { name = name; workspace = ""; os = "linux"; arch = "amd64"; version = "1" }

abbrev pub closed : Session
closed = record {
  transport = "";
  info = info_of "";
  pending = [];
  mailbox = [];
  active_calls = pos 0;
  done = true;
  sent = [];
}

abbrev pub accepting : Net
accepting _ _ = none

abbrev pub sixteen : List ℕ
sixteen = 0 ∷ 1 ∷ 2 ∷ 3 ∷ 4 ∷ 5 ∷ 6 ∷ 7 ∷ 8 ∷ 9 ∷ 10 ∷ 11 ∷ 12 ∷ 13 ∷ 14 ∷ 255 ∷ []

abbrev pub the_id : String
the_id = "000102030405060708090a0b0c0d0eff"

abbrev request : Request
request = record {
  source_device = "a";
  source_path = "/x";
  target_device = " b ";
  target_path = "/y";
  overwrite = false;
}

abbrev pub ready_message : String → WireResponse
ready_message type = record {
  type = type;
  id = 0;
  payload = "";
  transfer_id = the_id;
  size = 3;
  sha256 = "";
  role = "";
  error = "";
}

abbrev events : List Event
events =
    attaches (some "http") (info_of "a") 1
    ∷ attaches (some "websocket") (info_of "b") 2
    ∷ reserves 3 (ok sixteen) request 0 1
    ∷ announces accepting 3 the_id (trim_request request) 0 1
    ∷ receives accepting 4 0 (response (ready_message "transfer_source_ready"))
    ∷ receives accepting 5 1 (response (ready_message "transfer_target_ready"))
    ∷ []

events-Fresh : Fresh (new_manager closed) events
unfolding new_manager run get put attach normalize_info trim_space byte_len
events-Fresh = (tt, (tt, ((λ id h. refl), (tt, (tt, (tt, tt))))))

abbrev pub started : Transfer
started = record {
  id = the_id;
  source_device = "a";
  source_path = "/x";
  target_device = "b";
  target_path = "/y";
  overwrite = false;
  source = some 0;
  target = some 1;
  state = transferring;
  size = 3;
  transferred = 0;
  sha256 = "";
  error = "";
  source_ready = true;
  target_ready = true;
  next_seq = 0;
  created_at = 3;
  started_at = some 5;
  updated_at = 5;
  ready = true;
  timer = some 120000000003;
}

started-IsLive : IsLive (run (new_manager closed) events) the_id started
unfolding new_manager run get put attach normalize_info trim_space byte_len reserve_event
    check_request reserve_new reserve announce encode new_transfer read_frame
    handle_transfer_message transfer_target_ready transfer_source_ready send accepted
started-IsLive = record { found = refl; live = refl }

run-Ok_example : Ok (run (new_manager closed) events)
run-Ok_example = run-Ok closed events events-Fresh

one_live_transfer_example : the_id ≡ the_id
one_live_transfer_example =
    one_live_transfer closed events "a" the_id the_id started started events-Fresh started-IsLive
      started-IsLive (inl refl) (inl refl)

abbrev ops : List PendingOp
ops =
    registers_call 1
    ∷ registers_ping 2
    ∷ counts
    ∷ registers_call 3
    ∷ takes 1
    ∷ takes 9
    ∷ withdraws 2
    ∷ []

resolve_lem_example :
    resolve " b " (run (new_manager closed) events)
    ≡ resolved_by (trim_space " b ") (run (new_manager closed) events)
resolve_lem_example = resolve_lem " b " (run (new_manager closed) events)

run-Stems_example : Stems (new_manager closed) events the_id started
run-Stems_example = run-Stems (new_manager closed) events the_id started started-IsLive.found
