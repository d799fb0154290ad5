-- ===== src/Device/Events/Exclusive.antt =====
-- What the invariant gives of the reservations: a device takes part in one live transfer at most.
use zshell_gateway.Base.{String, ◌≡◌, sym, ap, ◌∙◌, ◌⊎◌, inl, inr, false, List, some, string_eq}
use zshell_gateway.Dict.{get}
use zshell_gateway.Device.Types.{Session, Transfer, Manager}
use zshell_gateway.Device.Registry.{new_manager}
use zshell_gateway.Device.Transfer.State.{is_final}
use zshell_gateway.Device.Transfer.Invariant.{Ok}
use zshell_gateway.Device.Events.{Event, run, Fresh}
use zshell_gateway.Device.Events.Invariant.{run-Ok}

abbrev pub TakesPart : String → Transfer → Type 0
TakesPart name t = (t.source_device ≡ name) ⊎ (t.target_device ≡ name)

-- a live transfer in the table
pub record IsLive (m : Manager) (id : String) (t : Transfer) : Type 0 where
  pub found : get id m.transfers ≡ some t
  pub live : is_final t.state ≡ false

holder_of :
    (m : Manager) (name id : String) (t : Transfer)
    → Ok m
    → IsLive m id t
    → TakesPart name t
    → get name m.active_transfer ≡ some id
holder_of m name id t inv l (inl e) =
    ap (λ n. get n m.active_transfer) (sym e) ∙ (inv.reserved id t l.found l.live).0
holder_of m name id t inv l (inr e) =
    ap (λ n. get n m.active_transfer) (sym e) ∙ (inv.reserved id t l.found l.live).1

-- In every state that events lead to from a new manager, two live transfers in which one device takes
-- part are the same transfer, where the random ids are new.
pub one_live_transfer :
    (closed : Session) (es : List Event) (name id j : String) (t u : Transfer)
    → Fresh (new_manager closed) es
    → IsLive (run (new_manager closed) es) id t
    → IsLive (run (new_manager closed) es) j u
    → TakesPart name t
    → TakesPart name u
    → id ≡ j
one_live_transfer closed es name id j t u f l k p q =
    let inv = run-Ok closed es f in
    let m = run (new_manager closed) es in
    cc (holder_of m name id t inv l p, holder_of m name j u inv k q)
