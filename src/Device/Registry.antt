-- ===== src/Device/Registry.antt =====
-- internal/device/manager.go: the registry of devices by name, each with at most one live session.
pub mod Resolved
use Prim.Native.Nat.{Ordering}
use Prim.Native.String
use zshell_gateway.Base.{
  ℕ, suc, ◌+◌, String, Bool, true, false, ◌||◌, List, [], ◌∷◌, Option, none, some, nat_beq, str_beq,
  ltb, if◌then◌else◌, string_eq,
}
use zshell_gateway.Dict.{Dict, get, put}
use zshell_gateway.Text.Trim.{trim_space, byte_len}
use zshell_gateway.Device.Types.{
  pos, Info, Session, Device, Manager, Result, ok, err, no_device, device_required,
  device_not_found, nil_pointer,
}
use zshell_gateway.Device.Session.{set_session}

-- `NewManager`; `closed` is what the store holds where nothing is allocated
unfoldable pub new_manager : Session → Manager
new_manager closed = record {
  devices = [];
  next_call_id = 0;
  transfers = [];
  active_transfer = [];
  sessions = λ _. closed;
  next_session = 0;
}

-- `normalizeInfo`
unfoldable pub normalize_info : Info → Option Info
normalize_info raw =
    let info : Info = record {
      name = trim_space raw.name;
      workspace = trim_space raw.workspace;
      os = trim_space raw.os;
      arch = trim_space raw.arch;
      version = trim_space raw.version;
    } in
    if str_beq info.name "" || ltb 128 (byte_len info.name)
    then none
    else if ltb 4096 (byte_len info.workspace)
        || ltb 128 (byte_len info.os)
        || ltb 128 (byte_len info.arch)
        || ltb 128 (byte_len info.version)
    then none
    else some info

unfoldable pub new_session : String → Info → Session
new_session transport info = record {
  transport = transport;
  info = info;
  pending = [];
  mailbox = [];
  active_calls = pos 0;
  done = false;
  sent = [];
}

-- the device is bound to the session that is allocated next
unfoldable pub bind_device : String → Info → ℕ → Manager → Option ℕ × Manager
unfolding new_session set_session
bind_device transport info now m =
    let h = m.next_session in
    (
      some h,
      record (set_session h (new_session transport info) m) {
        devices =
            put info.name (record { info = info; session = some h; last_seen = now }) m.devices;
        next_session = suc h;
      },
    )

-- `device != nil && device.session != nil`
abbrev pub is_live : Option Device → Bool
is_live none = false
is_live (some d) = elim d.session [ none ↦ false | some _ ↦ true ]

-- `Attach`; a nil transport is `none`
unfoldable pub attach : Option String → Info → ℕ → Manager → Option ℕ × Manager
unfolding bind_device
attach none raw now m = (none, m)
attach (some transport) raw now m = elim (normalize_info raw) [
  | none ↦ (none, m)
  | some info ↦
      if is_live (get info.name m.devices) then (none, m) else bind_device transport info now m
]

pub record ConnectedDevice : Type 0 where
  pub name : String
  pub workspace : String
  pub os : String
  pub arch : String
  pub version : String
  pub transport : String

-- `connectedDevice`
unfoldable pub connected_device : Info → String → ConnectedDevice
connected_device info transport = record {
  name = info.name;
  workspace = info.workspace;
  os = info.os;
  arch = info.arch;
  version = info.version;
  transport = transport;
}

unfoldable pub connected : (ℕ → Session) → Dict String Device → List ConnectedDevice
unfolding connected_device
connected sessions [] = []
connected sessions ((_, d) ∷ rest) =
    let later = connected sessions rest in
    elim d.session [
      | none ↦ later
      | some h ↦ connected_device d.info (sessions h).transport ∷ later
    ]

-- `devices[i].Name < devices[j].Name`
abbrev pub name_lt : ConnectedDevice → ConnectedDevice → Bool
name_lt a b = elim (String.compare a.name b.name) [ Ordering.lt ↦ true | _ ↦ false ]

-- what `sort.Slice` gives
unfoldable pub insert_by_name : ConnectedDevice → List ConnectedDevice → List ConnectedDevice
insert_by_name d [] = d ∷ []
insert_by_name d (x ∷ xs) = if name_lt x d then x ∷ insert_by_name d xs else d ∷ x ∷ xs

unfoldable pub sort_by_name : List ConnectedDevice → List ConnectedDevice
unfolding insert_by_name
sort_by_name [] = []
sort_by_name (x ∷ xs) = insert_by_name x (sort_by_name xs)

-- `List`
unfoldable pub list_devices : Manager → List ConnectedDevice
unfolding connected sort_by_name
list_devices m = sort_by_name (connected m.sessions m.devices)

-- the loop of `resolve` over the devices that are left, with `only` and `count`
unfoldable pub resolve_loop : Dict String Device → Option ℕ → ℕ → Result ℕ
resolve_loop [] only count =
    if nat_beq count 0 then err no_device else elim only [ none ↦ err nil_pointer | some h ↦ ok h ]
resolve_loop ((_, d) ∷ rest) only count = elim d.session [
  | none ↦ resolve_loop rest only count
  | some h ↦
      if ltb 1 (count + 1) then err device_required else resolve_loop rest (some h) (count + 1)
]

-- `resolve`
unfoldable pub resolve : String → Manager → Result ℕ
unfolding resolve_loop
resolve raw_name m =
    let name = trim_space raw_name in
    if str_beq name "" then resolve_loop m.devices none 0 else elim (get name m.devices) [
      | none ↦ err device_not_found
      | some d ↦ elim d.session [ none ↦ err device_not_found | some h ↦ ok h ]
    ]

-- `device != nil && device.session == session`
abbrev pub holds : ℕ → Option Device → Bool
holds h none = false
holds h (some d) = elim d.session [ none ↦ false | some k ↦ nat_beq k h ]

-- `isAttached`
unfoldable pub is_attached : ℕ → Manager → Bool
is_attached h m = holds h (get (m.sessions h).info.name m.devices)

-- a write through the device pointer, where it still holds the session
unfoldable pub update_device : ℕ → (Device → Device) → Manager → Manager
update_device h f m =
    let name = (m.sessions h).info.name in
    elim (get name m.devices) [
      | none ↦ m
      | some d ↦ if holds h (some d) then record m { devices = put name (f d) m.devices } else m
    ]

-- `touch`
unfoldable pub touch : ℕ → ℕ → Manager → Manager
unfolding update_device
touch now h m = update_device h (λ d. record d { last_seen = now }) m
