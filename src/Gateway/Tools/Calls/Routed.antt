-- ===== src/Gateway/Tools/Calls/Routed.antt =====
-- How a tool finds its device, and what is forwarded to it.
use zshell_gateway.Base.{
  String, ◌≡◌, refl, ◌∙◌, inl, inr, none, some, arith, nat_beq, Bool-cases, Option-cases, string_eq,
}
use zshell_gateway.Dict.{Dict, get, remove, get-remove}
use zshell_gateway.Text.Trim.{trim_space, byte_len}
use zshell_gateway.Device.Types.{Error, ok, no_device, device_required, device_not_found}
use zshell_gateway.Device.Transfer.Started.{Result-cases}
use zshell_gateway.Gateway.Tools.Calls.{Codec, forward, split_device_arguments}

-- What the device gets of the arguments that a client sent.
pub data Forwarded (x : Codec) (arguments name written : String) : Type 0 where
  nothing_sent :
      byte_len arguments ≡ 0 → name ≡ "" → written ≡ "{}" → Forwarded x arguments name written
  all_sent :
      (fields : Dict String String)
      → x.read_fields arguments ≡ ok fields
      → get "device" fields ≡ none
      → name ≡ ""
      → x.write_fields fields ≡ ok written
      → Forwarded x arguments name written
  rest_sent :
      (fields : Dict String String) (raw given : String)
      → x.read_fields arguments ≡ ok fields
      → get "device" fields ≡ some raw
      → x.read_text raw ≡ some given
      → name ≡ trim_space given
      → x.write_fields (remove "device" fields) ≡ ok written
      → get "device" (remove "device" fields) ≡ none
      → Forwarded x arguments name written

forward-ok :
    (x : Codec) (given name written : String) (fields : Dict String String)
    → forward x given fields ≡ ok (name, written)
    → (name ≡ trim_space given) × (x.write_fields fields ≡ ok written)
unfolding forward
forward-ok x given name written fields h = elim (Result-cases (x.write_fields fields)) [
  | inr (e, q) ↦ absurd (ground (arith, q, h))
  | inl (w, q) ↦ (ground (arith, q, h), ground (arith, q, h))
]

device_gone : (fields : Dict String String) → get "device" (remove "device" fields) ≡ none
device_gone fields = get-remove "device" "device" fields

-- Where the arguments of a tool are accepted, the device gets them without the field "device", as an object
-- written back, and the call goes to the device which that field names, trimmed, or to none if it is absent.
pub split-Forwarded :
    (x : Codec) (arguments name written : String)
    → split_device_arguments x arguments ≡ ok (name, written)
    → Forwarded x arguments name written
unfolding split_device_arguments
split-Forwarded x arguments name written h = elim (Bool-cases (nat_beq (byte_len arguments) 0)) [
  | inl e ↦ nothing_sent (ground (arith, e)) (ground (arith, e, h)) (ground (arith, e, h))
  | inr e ↦ elim (Result-cases (x.read_fields arguments)) [
    | inr (z, r) ↦ absurd (ground (arith, e, r, h))
    | inl (fields, r) ↦ elim (Option-cases (get "device" fields)) [
      | inl g ↦
          let f = forward-ok x "" name written fields (ground (arith, e, r, g, h)) in
          all_sent fields r g (f.0 ∙ unfold trim_space in refl) f.1
      | inr (raw, g) ↦ elim (Option-cases (x.read_text raw)) [
        | inl q ↦ absurd (ground (arith, e, r, g, q, h))
        | inr (given, q) ↦
            let f =
              forward-ok x given name written (remove "device" fields)
                (ground (arith, e, r, g, q, h)) in
            rest_sent fields raw given r g q f.0 f.1 (device_gone fields)
      ]
    ]
  ]
]

-- How it is explained that no device is found.
pub data Explains : Error → String → String → Type 0 where
  none_there : Explains no_device "NoDeviceConnected" "No ShellCore device is connected."
  several_there :
      Explains device_required "DeviceRequired"
        "Multiple ShellCore devices are connected. Call device_list and pass device explicitly."
  not_there :
      Explains device_not_found "DeviceNotFound"
        "The requested ShellCore device is not connected. Call device_list for current devices."
