-- ===== src/Device/Http/Table/Early.antt =====
-- A transport that is closed while its hello is still being answered.
use mathlib.Core.Path.{subst}
use zshell_gateway.Base.{
  suc, ◌<◌, String, ◌≢◌, sym, inl, inr, List, [], ◌∷◌, arith, nat_beq, eq_iff, Bool-cases,
  get_elem?, ℕ, ◌≡◌, refl, ap, ◌∙◌, true, false, some, nat_beq_iff, string_eq,
}
use zshell_gateway.Dict.{get, get-put, get-put_self, get-remove}
use zshell_gateway.Device.Types.{Manager, ok}
use zshell_gateway.Device.Http.Types.{HttpTransport, HttpHandler, HttpRequest}
use zshell_gateway.Device.Http.Sessions.{
  remove_session, new_http_session_id, set_transport, lookup, close_transport, register_entry,
}
use zshell_gateway.Device.Http.Route.{Meets, serve_http}
use zshell_gateway.Device.Http.Table.{SameDoor, other_entry, close-next_entry}
use zshell_gateway.Device.Http.Table.Hello.{
  admitted, admitted-sessions, admitted-old, admitted-next,
}
use zshell_gateway.Device.Http.Table.Requests.{
  HandlerEvent, serves, closes_transport, handler_run, serve_http-Kept,
}

-- What the closing and the registering of an entry leave.
module _ (e : ℕ) (h : HttpHandler) where
  entry-set_transport : (t : HttpTransport) → ((set_transport e t h).entries e).transport ≡ t
  unfolding set_transport
  entry-set_transport t = rw ((nat_beq_iff e e).1 refl) refl

  closed_before :
      (h.entries e).transport.done ≡ false
      → (h.entries e).transport.on_close ≡ false
      → close_transport e h ≡ set_transport e (record (h.entries e).transport { done = true }) h
  unfolding close_transport
  closed_before a b = rw (a, b) refl

  closed_after : (h.entries e).transport.done ≡ true → close_transport e h ≡ h
  unfolding close_transport
  closed_after a = rw a refl

-- another entry's closing leaves the entry under its id
entry_stays :
    (id : String) (e j : ℕ) (h : HttpHandler)
    → get id h.sessions ≡ some e
    → nat_beq e j ≡ false
    → get id (close_transport j h).sessions ≡ some e
unfolding close_transport set_transport remove_session
entry_stays id e j h found other = ground (
  arith,
  found,
  other,
  get-remove id (h.entries j).transport.id h.sessions,
  eq_iff (h.entries j).transport.id id,
  same_id,
)
  where
    same_id : (h.entries j).transport.id ≡ id → get (h.entries j).transport.id h.sessions ≡ some e
    same_id q = ap (λ i. get i h.sessions) q ∙ found

-- The id leads to this entry, whose transport is closed.
pub record Stuck (id : String) (e : ℕ) (h : HttpHandler) : Type 0 where
  pub stands : get id h.sessions ≡ some e
  pub shut : (h.entries e).transport.done ≡ true
  pub allocated : e < h.next_entry

closed_early-Stuck :
    (e : ℕ) (h : HttpHandler)
    → e < h.next_entry
    → (h.entries e).transport.done ≡ false
    → (h.entries e).transport.on_close ≡ false
    → Stuck (h.entries e).transport.id e (register_entry e (close_transport e h))
closed_early-Stuck e h small a b =
    rw (closed_before e h a b) (record { stands = found; shut = done2; allocated = bounded })
  where
    h1 : HttpHandler
    h1 = set_transport e (record (h.entries e).transport { done = true }) h

    h2 : HttpHandler
    h2 = register_entry e h1

    now : (h2.entries e).transport ≡ record (h1.entries e).transport { on_close = true }
    now =
        unfold register_entry in
        entry-set_transport e h1 (record (h1.entries e).transport { on_close = true })

    done2 : (h2.entries e).transport.done ≡ true
    done2 =
        ap (λ t. t.done) now
        ∙ ap (λ t. t.done)
            (entry-set_transport e h (record (h.entries e).transport { done = true }))

    found : get (h.entries e).transport.id h2.sessions ≡ some e
    found =
        unfold register_entry set_transport in
        rw ((nat_beq_iff e e).1 refl) (get-put_self (h.entries e).transport.id e h.sessions)

    bounded : e < h2.next_entry
    bounded = unfold register_entry set_transport in small

module _ (id : String) (e : ℕ) where
  set_transport-Stuck :
      (j : ℕ) (t : HttpTransport) (h : HttpHandler)
      → Stuck id e h
      → SameDoor (h.entries j).transport t
      → Stuck id e (set_transport j t h)
  unfolding set_transport
  set_transport-Stuck j t h k same = record {
    stands = k.stands;
    shut = ground (arith, k.shut, same.done, nat_beq_iff j e);
    allocated = k.allocated;
  }

  admitted-Stuck :
      (j : String) (s : ℕ) (h : HttpHandler) → j ≢ id → Stuck id e h → Stuck id e (admitted j s h)
  admitted-Stuck j s h ne k =
      let kept = admitted-old j s h e (λ q. omega (arith, q, k.allocated)) in
      record {
        stands =
            ap (get id) (admitted-sessions j s h)
            ∙ ground (arith, get-put id j h.next_entry h.sessions, k.stands, eq_iff j id, ne);
        shut = ap (λ x. x.transport.done) kept ∙ k.shut;
        allocated = subst (λ n. e < n) (sym (admitted-next j s h)) (omega (arith, k.allocated));
      }

  close_transport-Stuck :
      (j : ℕ) (h : HttpHandler) → Stuck id e h → Stuck id e (close_transport j h)
  close_transport-Stuck j h k = elim (Bool-cases (nat_beq e j)) [
    | inl same ↦
        let q = (nat_beq_iff e j).0 same in
        subst (Stuck id e)
          (sym (closed_after j h (subst (λ i. (h.entries i).transport.done ≡ true) q k.shut))) k
    | inr other ↦
        let kept = other_entry j e h (λ q. ground (arith, other, (nat_beq_iff e j).1 q)) in
        record {
          stands = still j h k other;
          shut = ap (λ x. x.transport.done) kept ∙ k.shut;
          allocated = subst (λ n. e < n) (sym (close-next_entry j h)) k.allocated;
        }
  ]
    where
      still :
          (j : ℕ) (h : HttpHandler)
          → Stuck id e h
          → nat_beq e j ≡ false
          → get id (close_transport j h).sessions ≡ some e
      still j h k other = entry_stays id e j h k.stands other

  -- no request draws the id
  abbrev pub NeverDrawn : List HandlerEvent → Type 0
  NeverDrawn es =
      (n : ℕ) (x : Meets) (r : HttpRequest) (m : Manager)
      → get_elem? es n ≡ some (serves x r m)
      → new_http_session_id x.random ≢ ok id

  handler_run-Stuck :
      (h : HttpHandler) (es : List HandlerEvent)
      → NeverDrawn es
      → Stuck id e h
      → Stuck id e (handler_run h es)
  unfolding handler_run
  handler_run-Stuck h [] never k = k
  handler_run-Stuck h (serves x r m ∷ es) never k =
      handler_run-Stuck (serve_http x r h m).1 es (λ n. never (suc n))
        (serve_http-Kept (Stuck id e) set_transport-Stuck x
          (λ j s g drawn. admitted-Stuck j s g (λ q. never 0 x r m refl (drawn ∙ ap ok q))) r h m k)
  handler_run-Stuck h (closes_transport j ∷ es) never k =
      handler_run-Stuck (close_transport j h) es (λ n. never (suc n)) (close_transport-Stuck j h k)

-- A transport that is closed after `Attach`, before its callback is set and its session is registered, stays in
-- the table, closed, whatever requests are served and transports are closed afterwards, itself included; if none
-- of the requests draws the same random session id.
pub closed_early_stays :
    (e : ℕ) (h : HttpHandler) (es : List HandlerEvent)
    → e < h.next_entry
    → (h.entries e).transport.done ≡ false
    → (h.entries e).transport.on_close ≡ false
    → NeverDrawn (h.entries e).transport.id e es
    → (lookup (h.entries e).transport.id (handler_run (register_entry e (close_transport e h)) es)
        ≡ some e)
      × (((handler_run (register_entry e (close_transport e h)) es).entries e).transport.done
          ≡ true)
unfolding lookup
closed_early_stays e h es small a b never =
    let k =
      handler_run-Stuck (h.entries e).transport.id e (register_entry e (close_transport e h)) es
        never (closed_early-Stuck e h small a b) in
    (k.stands, k.shut)
