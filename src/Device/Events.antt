-- ===== src/Device/Events.antt =====
-- The device manager as a machine: every entry point of internal/device is an event, and a run is a
-- list of events in the order in which they take the locks. `StartTransfer` and `Call` are several events,
-- one for each section, with what they learnt before as arguments; what only reads is no event.
-- A handler of a message that decides to fail a transfer does so in a later section: that is `fails`, with whatever
-- it decided.
pub mod Stable
pub mod Invariant
pub mod Exclusive
pub mod Implements
use zshell_gateway.Base.{ℕ, String, ◌≡◌, List, [], ◌∷◌, Option, none, some, string_eq}
use zshell_gateway.Dict.{get}
use zshell_gateway.Device.Types.{Info, Manager, Error, Result, ok, Net}
use zshell_gateway.Device.Registry.{attach}
use zshell_gateway.Device.Transfer.State.{cancel_transfer, fail_transfer}
use zshell_gateway.Device.Transfer.Start.{
  Request, trim_request, check_request, reserve_new, announce, finish_start, new_transfer_id,
}
use zshell_gateway.Device.Transfer.Start
use zshell_gateway.Device.Transfer.Chunks.{handle_transfer_chunk}
use zshell_gateway.Device.Transfer.Endings.{expire_transfer}
use zshell_gateway.Device.Lifecycle.{Frame, detach, close_manager, read_frame}
use zshell_gateway.Device.Calls.{
  RawJson, Envelope, take_id, register_call, count_call, send_call, call_error, complete_call,
  monitor_tick,
}
use zshell_gateway.Device.Calls

pub data Event : Type 0 where
  attaches : Option String → Info → ℕ → Event
  detaches : Net → ℕ → ℕ → Event
  shuts_down : Net → ℕ → Event
  receives : Net → ℕ → ℕ → Frame → Event
  posts_chunk : Net → ℕ → ℕ → String → ℕ → List ℕ → Event
  reserves : ℕ → Result (List ℕ) → Request → ℕ → ℕ → Event
  announces : Net → ℕ → String → Request → ℕ → ℕ → Event
  fails : Net → ℕ → String → String → Event
  wakes : Net → ℕ → String → Start.Wake → Event
  cancels : Net → ℕ → String → Event
  expires : Net → ℕ → String → Event
  takes_id : Event
  call_registers : Option String → ℕ → ℕ → String → RawJson → Event
  call_counts : ℕ → Event
  call_sends : Net → ℕ → ℕ → String → RawJson → Event
  call_fails : Net → ℕ → String → ℕ → Error → Event
  call_wakes : (String → Option Envelope) → Net → ℕ → String → ℕ → ℕ → Calls.Wake → Event
  heartbeats : Net → ℕ → ℕ → Calls.Wake → ℕ → Event

-- the read loop's `return err` and the `Detach` of `Serve`
abbrev pub serve_frame : Net → ℕ → ℕ → Frame → Manager → Manager
serve_frame net now h frame m =
    let (failure, m') = read_frame net now h frame m in
    elim failure [ none ↦ m' | some _ ↦ detach net now h m' ]

-- the section of `StartTransfer` that reserves, if the arguments pass their checks. The sessions are any: they
-- were resolved before.
unfoldable pub reserve_event : ℕ → Result (List ℕ) → Request → ℕ → ℕ → Manager → Manager
unfolding check_request reserve_new
reserve_event now random raw source target m = elim (check_request (trim_request raw)) [
  | some _ ↦ m
  | none ↦ (reserve_new now random (trim_request raw) source target m).1
]

unfoldable pub step : Manager → Event → Manager
step m (attaches transport info now) = (attach transport info now m).1
step m (detaches net now h) = detach net now h m
step m (shuts_down net now) = close_manager net now m
step m (receives net now h frame) = serve_frame net now h frame m
step m (posts_chunk net now h id sequence payload) =
    (handle_transfer_chunk net now h id sequence payload m).1
step m (reserves now random raw source target) = reserve_event now random raw source target m
step m (announces net now id r source target) = announce net now id r source target m
step m (fails net now id message) = fail_transfer net now id message m
step m (wakes net now id w) = (finish_start net now id w m).1
step m (cancels net now id) = (cancel_transfer net now id m).1
step m (expires net now id) = expire_transfer net now id m
step m takes_id = take_id m
step m (call_registers ctx h id operation raw) = (register_call ctx h id operation raw m).1
step m (call_counts h) = count_call h m
step m (call_sends net h id operation raw) = (send_call net h id operation raw m).1
step m (call_fails net now name h e) = (call_error net now name h e m).1
step m (call_wakes unmarshal net now name h id w) =
    (complete_call unmarshal net now name h id w m).1
step m (heartbeats net now h w failures) = (monitor_tick net now h w failures m).1

unfoldable pub run : Manager → List Event → Manager
unfolding step
run m [] = m
run m (e ∷ es) = run (step m e) es

-- `rand.Read` gives an id that is not in use.
abbrev pub FreshAt : Manager → Event → Type 0
FreshAt m (reserves now random raw source target) =
    (id : String) → new_transfer_id random ≡ ok id → get id m.transfers ≡ none
FreshAt m _ = Unit {0}

abbrev pub Fresh : Manager → List Event → Type 0
Fresh m [] = Unit {0}
Fresh m (e ∷ es) = FreshAt m e × Fresh (step m e) es
