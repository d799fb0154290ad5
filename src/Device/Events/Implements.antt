-- ===== src/Device/Events/Implements.antt =====
-- The whole device manager, seen through its transfer table, implements the abstract machine.
use mathlib.Core.Path.{subst}
use zshell_gateway.Base.{
  ℕ, zero, suc, String, ◌≡◌, ◌⊎◌, inl, inr, refl, none, Option-cases, get_elem?, take, some,
  string_eq, List, [], ◌∷◌,
}
use zshell_gateway.Dict.{Dict, get}
use zshell_gateway.Device.Types.{Transfer, Manager, Result, ok}
use zshell_gateway.Device.Transfer.Abstract.{view_of, Moves, SameJob, Grows, grown, Refines}
use zshell_gateway.Device.Transfer.Refines.{
  Refines-refl, Refines-trans, Grows-Moves, fail-Refines, cancel-Refines,
}
use zshell_gateway.Device.Transfer.Refines.Messages.{handle_transfer_message-Refines}
use zshell_gateway.Device.Transfer.Refines.Chunks.{
  handle_transfer_chunk-Refines, expire_transfer-Refines,
}
use zshell_gateway.Device.Transfer.Refines.Started.{reserve-entries, announce-Refines}
use zshell_gateway.Device.Transfer.Started.{Result-cases}
use zshell_gateway.Device.Transfer.Start.{
  Request, trim_request, new_transfer_id, new_transfer, check_request, reserve, reserve_new,
}
use zshell_gateway.Device.Events.{
  Event, attaches, detaches, shuts_down, receives, posts_chunk, reserves, announces, fails, wakes,
  cancels, expires, takes_id, call_registers, call_counts, call_sends, call_fails, call_wakes,
  heartbeats, step, reserve_event, run,
}
use zshell_gateway.Device.Events.Stable.{Laws}
use zshell_gateway.Device.Events.Stable.Calls.{Starts, step-Kept}

-- being a later table, as a property that the operations keep
abbrev After : Dict String Transfer → Dict String Transfer → Dict String String → Type 0
After ts ts' act = Refines ts ts'

laws-After : (ts : Dict String Transfer) → Laws (After ts)
laws-After ts = record {
  fails = λ net now id message m p.
      Refines-trans ts m.transfers _ p (fail-Refines net now id message m);
  messages = λ net now h r m p.
      Refines-trans ts m.transfers _ p (handle_transfer_message-Refines net now h r m);
  chunks = λ net now h id n payload m p.
      Refines-trans ts m.transfers _ p (handle_transfer_chunk-Refines net now h id n payload m);
  announces = λ net now id r source target m p.
      Refines-trans ts m.transfers _ p (announce-Refines net now id r source target m);
  cancels = λ net now id m p. Refines-trans ts m.transfers _ p (cancel-Refines net now id m);
  expires =
      λ net now id m p. Refines-trans ts m.transfers _ p (expire_transfer-Refines net now id m);
}

-- The event has reserved the devices for a new transfer, from the state that it found.
pub record IsMade (m : Manager) (e : Event) (id : String) (t : Transfer) : Type 0 where
  pub now : ℕ
  pub random : Result (List ℕ)
  pub raw : Request
  pub source : ℕ
  pub target : ℕ
  pub after : Manager
  pub event : e ≡ reserves now random raw source target
  pub checked : check_request (trim_request raw) ≡ none
  pub named : new_transfer_id random ≡ ok id
  pub entry : t ≡ new_transfer id now (trim_request raw) source target
  pub reserved : reserve id t m ≡ ok after

-- Where an entry after some events comes from: it has grown from the entry that was there, or from the new
-- transfer that one of the events made.
pub data Stems (m : Manager) (es : List Event) (id : String) (u : Transfer) : Type 0 where
  grew : Grows m.transfers id u → Stems m es id u
  born :
      (k : ℕ) (e : Event) (t : Transfer)
      → get_elem? es k ≡ some e
      → IsMade (run m (take k es)) e id t
      → SameJob t u
      → Moves (view_of t) (view_of u)
      → Stems m es id u

-- After one event an entry has grown, or the event has made it.
abbrev Steps : Manager → Event → Manager → Type 0
Steps m e m' =
    (id : String) (u : Transfer)
    → get id m'.transfers ≡ some u
    → Grows m.transfers id u ⊎ IsMade m e id u

reserve_event-Steps :
    (now : ℕ) (random : Result (List ℕ)) (raw : Request) (source target : ℕ) (m : Manager)
    → Steps m (reserves now random raw source target) (reserve_event now random raw source target m)
unfolding reserve_event reserve_new
reserve_event-Steps now random raw source target m =
    elim (Option-cases (check_request (trim_request raw))) [
      | inr (x, e) ↦ rw (e, reserve_event) (λ j u h. inl (Refines-refl m.transfers j u h))
      | inl e ↦ elim (Result-cases (new_transfer_id random)) [
        | inr (x, f) ↦
            rw (e, f, reserve_event, reserve_new) (λ j u h. inl (Refines-refl m.transfers j u h))
        | inl (id, f) ↦
            let t = new_transfer id now (trim_request raw) source target in
            elim (Result-cases (reserve id t m)) [
              | inr (x, g) ↦
                  rw (e, f, g, reserve_event, reserve_new)
                    (λ j u h. inl (Refines-refl m.transfers j u h))
              | inl (m', g) ↦
                  rw (e, f, g, reserve_event, reserve_new)
                    (λ j u h. made id m' j u e f g (reserve-entries id t m m' j u g h))
            ]
      ]
    ]
  where
    made :
        (id : String) (m' : Manager) (j : String) (u : Transfer)
        → check_request (trim_request raw) ≡ none
        → new_transfer_id random ≡ ok id
        → reserve id (new_transfer id now (trim_request raw) source target) m ≡ ok m'
        → ((id ≡ j) × (new_transfer id now (trim_request raw) source target ≡ u))
          ⊎ Grows m.transfers j u
        → Grows m.transfers j u ⊎ IsMade m (reserves now random raw source target) j u
    made id m' j u e f g (inr old) = inl old
    made id m' j u e f g (inl (same, new)) = inr (
        subst (IsMade m (reserves now random raw source target) j) new (
          subst
            (λ i.
              IsMade m (reserves now random raw source target) i
                (new_transfer id now (trim_request raw) source target))
            same
            (record {
              now = now;
              random = random;
              raw = raw;
              source = source;
              target = target;
              after = m';
              event = refl;
              checked = e;
              named = f;
              entry = refl;
              reserved = g;
            })))

kept-Steps : (m : Manager) (e : Event) → Starts (After m.transfers) m e → Steps m e (step m e)
kept-Steps m e start id u h =
    inl (step-Kept (laws-After m.transfers) m e (Refines-refl m.transfers) start id u h)

step-Steps : (m : Manager) (e : Event) → Steps m e (step m e)
step-Steps m (reserves now random raw source target) =
    unfold step in reserve_event-Steps now random raw source target m
step-Steps m (attaches a b c) = kept-Steps m (attaches a b c) tt
step-Steps m (detaches a b c) = kept-Steps m (detaches a b c) tt
step-Steps m (shuts_down a b) = kept-Steps m (shuts_down a b) tt
step-Steps m (receives a b c d) = kept-Steps m (receives a b c d) tt
step-Steps m (posts_chunk a b c d e f) = kept-Steps m (posts_chunk a b c d e f) tt
step-Steps m (announces a b c d e f) = kept-Steps m (announces a b c d e f) tt
step-Steps m (fails a b c d) = kept-Steps m (fails a b c d) tt
step-Steps m (wakes a b c d) = kept-Steps m (wakes a b c d) tt
step-Steps m (cancels a b c) = kept-Steps m (cancels a b c) tt
step-Steps m (expires a b c) = kept-Steps m (expires a b c) tt
step-Steps m takes_id = kept-Steps m takes_id tt
step-Steps m (call_registers a b c d e) = kept-Steps m (call_registers a b c d e) tt
step-Steps m (call_counts a) = kept-Steps m (call_counts a) tt
step-Steps m (call_sends a b c d e) = kept-Steps m (call_sends a b c d e) tt
step-Steps m (call_fails a b c d e) = kept-Steps m (call_fails a b c d e) tt
step-Steps m (call_wakes a b c d e f g) = kept-Steps m (call_wakes a b c d e f g) tt
step-Steps m (heartbeats a b c d e) = kept-Steps m (heartbeats a b c d e) tt

-- a transfer that the first event has left, or that a later one has made
prepend-Stems :
    (m : Manager) (e : Event) (es : List Event) (id : String) (v : Transfer)
    → Stems (step m e) es id v
    → Stems m (e ∷ es) id v
unfolding run
prepend-Stems m e es id v (born k x t at made s a) = born (suc k) x t at made s a
prepend-Stems m e es id v (grew (grown u found s a)) = elim (step-Steps m e id u found) [
  | inl old ↦ grew (Grows-Moves m.transfers id u v old s a)
  | inr made ↦ born zero e u refl made s a
]

-- Whatever events follow, from any state of the manager and with any random ids, each transfer that the
-- table then holds is what a transfer that it held before under the same id, for the same job, has become
-- through moves of the abstract machine; or it has become so, for the same job, from a new transfer, for
-- which one of the events has reserved the devices under this id in the state that it found.
pub run-Stems :
    (m : Manager) (es : List Event) (id : String) (u : Transfer)
    → get id (run m es).transfers ≡ some u
    → Stems m es id u
unfolding run
run-Stems m [] id u h = grew (Refines-refl m.transfers id u h)
run-Stems m (e ∷ es) id u h = prepend-Stems m e es id u (run-Stems (step m e) es id u h)
