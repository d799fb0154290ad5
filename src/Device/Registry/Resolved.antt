-- ===== src/Device/Registry/Resolved.antt =====
-- Which session a name stands for.
use zshell_gateway.Base.{
  ℕ, String, ◌≡◌, refl, ap, inl, inr, List, [], ◌∷◌, Option, none, some, Option-cases, str_beq,
  string_eq, if◌then◌else◌,
}
use zshell_gateway.Dict.{Dict, get}
use zshell_gateway.Text.Trim.{trim_space}
use zshell_gateway.Device.Types.{
  Device, Manager, Result, ok, err, no_device, device_required, device_not_found,
}
use zshell_gateway.Device.Registry.{resolve_loop, resolve}
use zshell_gateway.Device.Lifecycle.{live_sessions}

-- The session that an empty name stands for: there is just one, or none, or a choice.
abbrev pub pick_only : List ℕ → Result ℕ
pick_only [] = err no_device
pick_only (h ∷ []) = ok h
pick_only (h ∷ k ∷ rest) = err device_required

abbrev pub session_of : Option Device → Result ℕ
session_of none = err device_not_found
session_of (some d) = elim d.session [ none ↦ err device_not_found | some h ↦ ok h ]

-- What a name is resolved to, from the live sessions and the device of the name.
abbrev pub resolved_by : String → Manager → Result ℕ
resolved_by name m =
    if str_beq name "" then pick_only (live_sessions m.devices) else session_of (get name m.devices)

one_found :
    (ds : Dict String Device) (h : ℕ)
    → resolve_loop ds (some h) 1 ≡ pick_only (h ∷ live_sessions ds)
unfolding resolve_loop live_sessions
one_found [] h = refl
one_found ((name, d) ∷ ds) h = elim (Option-cases d.session) [
  | inl e ↦ rw (e, resolve_loop, live_sessions) (one_found ds h)
  | inr (k, e) ↦ rw (e, resolve_loop, live_sessions) refl
]

none_found : (ds : Dict String Device) → resolve_loop ds none 0 ≡ pick_only (live_sessions ds)
unfolding resolve_loop live_sessions
none_found [] = refl
none_found ((name, d) ∷ ds) = elim (Option-cases d.session) [
  | inl e ↦ rw (e, resolve_loop, live_sessions) (none_found ds)
  | inr (k, e) ↦ rw (e, resolve_loop, live_sessions) (one_found ds k)
]

-- A name that is empty once it is trimmed stands for the only live session, and is refused if there is
-- none or more than one; another name stands for the live session of its device, if there is one.
pub resolve_lem : (name : String) (m : Manager) → resolve name m ≡ resolved_by (trim_space name) m
unfolding resolve
resolve_lem name m =
    ap
      (λ r.
        if str_beq (trim_space name) "" then r else session_of (get (trim_space name) m.devices))
      (none_found m.devices)
