-- ===== src/Device/Types.antt =====
-- The data of internal/device/protocol.go, manager.go and transfer.go. A `*Session` is a handle into
-- the store `sessions`; a nil pointer is `none`. Times are nanoseconds.
use zshell_gateway.Base.{ℕ, zero, suc, ◌*◌, ◌^◌, String, Bool, List, Option}
use zshell_gateway.Dict.{Dict}

-- `activeCalls` is an `atomic.Int64`; `negsuc n` is -(n + 1).
pub data ℤ : Type 0 where
  pos : ℕ → ℤ
  negsuc : ℕ → ℤ

abbrev pub incr : ℤ → ℤ
incr (pos n) = pos (suc n)
incr (negsuc zero) = pos 0
incr (negsuc (suc n)) = negsuc n

abbrev pub decr : ℤ → ℤ
decr (pos zero) = negsuc 0
decr (pos (suc n)) = pos n
decr (negsuc n) = negsuc (suc n)

pub record Info : Type 0 where
  pub name : String
  pub workspace : String
  pub os : String
  pub arch : String
  pub version : String

-- `ProtocolVersion`
abbrev pub protocol_version : ℕ
protocol_version = 3

pub record HelloMessage : Type 0 where
  pub type : String
  pub protocol : ℕ
  pub device : Info

pub record HelloAck : Type 0 where
  pub type : String
  pub accepted : Bool
  pub message : String

-- What the gateway hands to a device's transport.
pub data Message : Type 0 where
  call : ℕ → String → String → Message
  ping : ℕ → Message
  transfer_target_start : String → String → Bool → Message
  transfer_source_start : String → String → Message
  transfer_send : String → Message
  transfer_cancel : String → Message
  transfer_commit : String → ℕ → String → Message
  transfer_chunk : String → ℕ → List ℕ → Message

pub record WireResponse : Type 0 where
  pub type : String
  pub id : ℕ
  pub payload : String
  pub transfer_id : String
  pub size : ℕ
  pub sha256 : String
  pub role : String
  pub error : String

pub data PendingKind : Type 0 where
  pending_call pending_ping : PendingKind

-- `mailbox` is what stands in the one-place channels of the waiters; `sent` is what the transport
-- has accepted, oldest first.
pub record Session : Type 0 where
  pub transport : String
  pub info : Info
  pub pending : Dict ℕ PendingKind
  pub mailbox : Dict ℕ WireResponse
  pub active_calls : ℤ
  pub done : Bool
  pub sent : List Message

pub record Device : Type 0 where
  pub info : Info
  pub session : Option ℕ
  pub last_seen : ℕ

pub data TransferState : Type 0 where
  preparing transferring verifying completed failed cancelled : TransferState

-- `ready` says whether the channel is closed; `timer` is when the armed timer fires.
pub record Transfer : Type 0 where
  pub id : String
  pub source_device : String
  pub source_path : String
  pub target_device : String
  pub target_path : String
  pub overwrite : Bool
  pub source : Option ℕ
  pub target : Option ℕ
  pub state : TransferState
  pub size : ℕ
  pub transferred : ℕ
  pub sha256 : String
  pub error : String
  pub source_ready : Bool
  pub target_ready : Bool
  pub next_seq : ℕ
  pub created_at : ℕ
  pub started_at : Option ℕ
  pub updated_at : ℕ
  pub ready : Bool
  pub timer : Option ℕ

-- `sessions` and `next_session` are the store in which `Attach` allocates.
pub record Manager : Type 0 where
  pub devices : Dict String Device
  pub next_call_id : ℕ
  pub transfers : Dict String Transfer
  pub active_transfer : Dict String String
  pub sessions : ℕ → Session
  pub next_session : ℕ

-- What `errors.Is` can tell apart; the others carry their text.
pub data Error : Type 0 where
  no_device device_required device_not_found transport_closed : Error
  transport_failed : String → Error
  transfer_not_found transfer_same_device invalid_transfer_request : Error
  transfer_device_busy : String → Error
  context_error : String → Error
  nil_pointer : Error
  other : String → Error

pub data Result {ℓ} (A : Type ℓ) : Type ℓ where
  ok : A → Result A
  err : Error → Result A

-- What a transport answers when it is given a message: nothing, or the text of its error. Transports
-- are the network's; every operation takes the answers as an argument.
abbrev pub Net : Type 0
Net = ℕ → Message → Option String

abbrev pub uint64 : ℕ
uint64 = 2 ^ 64

abbrev pub seconds : ℕ → ℕ
seconds n = n * 1000000000
