-- ===== src/Device/Transfer/Abstract.antt =====
-- What a transfer promises, without sessions, sequence numbers and times: a machine of six states.
use zshell_gateway.Base.{string_eq, ℕ, ◌+◌, ◌%◌, ◌≤◌, String, ◌≡◌, ◌⊎◌, false, some}
use zshell_gateway.Dict.{Dict, get}
use zshell_gateway.Device.Types.{
  TransferState, preparing, transferring, verifying, completed, failed, cancelled, Transfer, uint64,
}
use zshell_gateway.Device.Transfer.State.{is_final}

-- What the machine sees of a transfer.
pub record View : Type 0 where
  pub state : TransferState
  pub size : ℕ
  pub moved : ℕ

abbrev pub view_of : Transfer → View
view_of t = record { state = t.state; size = t.size; moved = t.transferred }

-- The moves. Bytes are counted while the transfer is running, in `uint64` arithmetic and never past the
-- size; it is verified only when all have been counted; a final state is left by no move.
pub data Move (v w : View) : Type 0 where
  declare : v.state ≡ preparing → w ≡ record v { size = w.size } → Move v w
  begins : v.state ≡ preparing → w ≡ record v { state = transferring } → Move v w
  moves :
      (k : ℕ)
      → v.state ≡ transferring
      → w ≡ record v { moved = (v.moved + k) % uint64 }
      → w.moved ≤ w.size
      → Move v w
  checks : v.state ≡ transferring → v.moved ≡ v.size → w ≡ record v { state = verifying } → Move v w
  completes : v.state ≡ verifying → w ≡ record v { state = completed; moved = v.size } → Move v w
  ends :
      is_final v.state ≡ false
      → (w ≡ record v { state = failed }) ⊎ (w ≡ record v { state = cancelled })
      → Move v w

pub data Moves (v : View) : View → Type 0 where
  here : Moves v v
  next : {u w : View} → Moves v u → Move u w → Moves v w

pub Moves-append : {u v w : View} → Moves u v → Moves v w → Moves u w
Moves-append a here = a
Moves-append a (next b s) = next (Moves-append a b) s

-- What no operation changes.
pub record SameJob (t u : Transfer) : Type 0 where
  pub id : u.id ≡ t.id
  pub source_device : u.source_device ≡ t.source_device
  pub source_path : u.source_path ≡ t.source_path
  pub target_device : u.target_device ≡ t.target_device
  pub target_path : u.target_path ≡ t.target_path
  pub overwrite : u.overwrite ≡ t.overwrite
  pub created_at : u.created_at ≡ t.created_at

-- An entry of a later table is what the table held under its id, for the same job, after moves.
pub data Grows (ts : Dict String Transfer) (id : String) (u : Transfer) : Type 0 where
  grown :
      (t : Transfer)
      → get id ts ≡ some t
      → SameJob t u
      → Moves (view_of t) (view_of u)
      → Grows ts id u

abbrev pub Refines : Dict String Transfer → Dict String Transfer → Type 0
Refines ts ts' = (id : String) (u : Transfer) → get id ts' ≡ some u → Grows ts id u
