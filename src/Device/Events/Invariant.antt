-- ===== src/Device/Events/Invariant.antt =====
-- Every event keeps the invariant of the transfer table.
use zshell_gateway.Base.{ℕ, String, ◌≡◌, none, inl, inr, Option-cases, List, [], ◌∷◌, string_eq}
use zshell_gateway.Dict.{get}
use zshell_gateway.Device.Types.{Session, Manager, Result, ok}
use zshell_gateway.Device.Registry.{new_manager}
use zshell_gateway.Device.Transfer.Preserve.Messages.{handle_transfer_message-Ok}
use zshell_gateway.Device.Transfer.Preserve.{cancel_transfer-Ok, fail_transfer-Ok}
use zshell_gateway.Device.Events.Stable.{Laws}
use zshell_gateway.Device.Events.Stable.Calls.{Starts, step-Kept}
use zshell_gateway.Device.Transfer.Invariant.{Inv, Ok}
use zshell_gateway.Device.Transfer.Relayed.{handle_transfer_chunk-Ok, expire_transfer-Ok}
use zshell_gateway.Device.Transfer.Started.{announce-Ok, reserve_new-Ok}
use zshell_gateway.Device.Transfer.Start.{Request, trim_request, new_transfer_id, check_request}
use zshell_gateway.Device.Events.{
  Event, attaches, detaches, shuts_down, receives, posts_chunk, reserves, announces, fails, wakes,
  cancels, expires, takes_id, call_registers, call_counts, call_sends, call_fails, call_wakes,
  heartbeats, step, reserve_event, run, FreshAt, Fresh,
}

laws-Inv : Laws Inv
laws-Inv = record {
  fails = fail_transfer-Ok;
  messages = handle_transfer_message-Ok;
  chunks = handle_transfer_chunk-Ok;
  announces = announce-Ok;
  cancels = cancel_transfer-Ok;
  expires = expire_transfer-Ok;
}

reserve_event-Ok :
    (now : ℕ) (random : Result (List ℕ)) (raw : Request) (source target : ℕ) (m : Manager)
    → Ok m
    → ((id : String) → new_transfer_id random ≡ ok id → get id m.transfers ≡ none)
    → Ok (reserve_event now random raw source target m)
unfolding reserve_event
reserve_event-Ok now random raw source target m inv fresh =
    elim (Option-cases (check_request (trim_request raw))) [
      | inr (x, e) ↦ rw (e, reserve_event) inv
      | inl e ↦
          rw (e, reserve_event)
            (reserve_new-Ok now random (trim_request raw) source target m inv fresh e)
    ]

Starts-Ok : (m : Manager) (e : Event) → Ok m → FreshAt m e → Starts Inv m e
Starts-Ok m (reserves now random raw source target) inv f =
    reserve_event-Ok now random raw source target m inv f
Starts-Ok m (attaches a b c) inv _ = tt
Starts-Ok m (detaches a b c) inv _ = tt
Starts-Ok m (shuts_down a b) inv _ = tt
Starts-Ok m (receives a b c d) inv _ = tt
Starts-Ok m (posts_chunk a b c d e f) inv _ = tt
Starts-Ok m (announces a b c d e f) inv _ = tt
Starts-Ok m (fails a b c d) inv _ = tt
Starts-Ok m (wakes a b c d) inv _ = tt
Starts-Ok m (cancels a b c) inv _ = tt
Starts-Ok m (expires a b c) inv _ = tt
Starts-Ok m takes_id inv _ = tt
Starts-Ok m (call_registers a b c d e) inv _ = tt
Starts-Ok m (call_counts a) inv _ = tt
Starts-Ok m (call_sends a b c d e) inv _ = tt
Starts-Ok m (call_fails a b c d e) inv _ = tt
Starts-Ok m (call_wakes a b c d e f g) inv _ = tt
Starts-Ok m (heartbeats a b c d e) inv _ = tt

-- One event keeps the invariant.
pub step-Ok : (m : Manager) (e : Event) → Ok m → FreshAt m e → Ok (step m e)
step-Ok m e inv f = step-Kept laws-Inv m e inv (Starts-Ok m e inv f)

run_from-Ok : (m : Manager) (es : List Event) → Ok m → Fresh m es → Ok (run m es)
unfolding run
run_from-Ok m [] inv f = inv
run_from-Ok m (e ∷ es) inv f = run_from-Ok (step m e) es (step-Ok m e inv f.0) f.1

new_manager-Ok : (closed : Session) → Ok (new_manager closed)
unfolding new_manager get
new_manager-Ok closed = record {
  distinct = tt;
  sound = λ id t h. absurd (cc h);
  reserved = λ id t h l. absurd (cc h);
  held = λ name id h. absurd (cc h);
}

-- Whatever events reach a new manager, where the random transfer ids are not in use, every transfer is
-- sound (its byte count, hash, sessions and timer fit its state) and the reserved devices are exactly
-- those of the live transfers, each reserved for its transfer.
pub run-Ok :
    (closed : Session) (es : List Event)
    → Fresh (new_manager closed) es
    → Ok (run (new_manager closed) es)
run-Ok closed es f = run_from-Ok _ es (new_manager-Ok closed) f
