-- ===== src/Device/Http/Table.antt =====
-- The table of HTTP sessions: an id in it leads to an open transport of that id.
pub mod Hello
pub mod Requests
pub mod Early
use mathlib.Core.Path.{subst}
use zshell_gateway.Base.{
  ℕ, suc, ◌<◌, String, ◌≡◌, ◌≢◌, refl, sym, ap, ◌∙◌, inl, inr, Bool, true, false, not, ◌||◌, List,
  [], ◌∷◌, ◌++◌, Option, none, some, arith, nat_beq, nat_beq_iff, str_beq, eq_iff, Option-cases,
  Bool-cases, if-elim, if◌then◌else◌, string_eq, ltb, length,
}
use zshell_gateway.Dict.{get, put, remove, get-put, get-put-cases, get-remove, get-put_self}
use zshell_gateway.Device.Types.{HelloMessage, protocol_version, Manager, Info, Result, ok, err}
use zshell_gateway.Device.Registry.{attach}
use zshell_gateway.Device.Transfer.Started.{Result-cases}
use zshell_gateway.Device.Http.Types.{
  Progress, returns, HttpTransport, HttpEntry, HttpHandler, HttpReply, HttpRequest,
  max_control_body_bytes, outbound_queue,
}
use zshell_gateway.Device.Http.Transport.{post_ack, set_chunk}
use zshell_gateway.Device.Http.Sessions.{
  new_http_handler, set_transport, lookup, is_entry, remove_session, close_transport, new_transport,
  allocate_entry, register_entry, accept_hello, handle_hello, new_http_session_id, read_limited,
  PollCase, takes_payload, poll_timeout, poll_closed, poll_gone, poll_select, take_outbound,
  message_select, handle_poll, HandCase, hands_over, hand_closed, hand_gone, handle_message,
}
use zshell_gateway.Device.Http.Chunks.{
  Acking, replied, answering, begin_ack, finish_ack, http_chunk_ack,
}
use zshell_gateway.Device.Http.Route.{
  Route, hello, nowhere, poll, message, chunk, chunk_ack, unknown, Meets, serve_route, route_of,
  is_authorized, serve_http,
}

-- What stands under an id: an entry that has been allocated, whose transport has the id, is open, and will
-- leave the table when it closes.
pub record IsOpen (id : String) (e : ℕ) (h : HttpHandler) : Type 0 where
  pub allocated : e < h.next_entry
  pub named : (h.entries e).transport.id ≡ id
  pub open_still : (h.entries e).transport.done ≡ false
  pub calls_back : (h.entries e).transport.on_close ≡ true

abbrev pub TableOk : HttpHandler → Type 0
TableOk h = (id : String) (e : ℕ) → get id h.sessions ≡ some e → IsOpen id e h

-- what a handler may do to a transport
pub record SameDoor (t u : HttpTransport) : Type 0 where
  pub id : u.id ≡ t.id
  pub done : u.done ≡ t.done
  pub on_close : u.on_close ≡ t.on_close

pub set_transport-TableOk :
    (e : ℕ) (t : HttpTransport) (h : HttpHandler)
    → TableOk h
    → SameDoor (h.entries e).transport t
    → TableOk (set_transport e t h)
unfolding set_transport
set_transport-TableOk e t h inv same id j found =
    let o = inv id j found in
    record {
      allocated = o.allocated;
      named = ground (arith, o.named, same.id);
      open_still = ground (arith, o.open_still, same.done);
      calls_back = ground (arith, o.calls_back, same.on_close);
    }

pub get-close :
    (id : String) (e j : ℕ) (h : HttpHandler)
    → get id (close_transport e h).sessions ≡ some j
    → get id h.sessions ≡ some j
unfolding close_transport set_transport remove_session
get-close id e j h found =
    ground (arith, found, get-remove id (h.entries e).transport.id h.sessions)

-- an open transport that is closed is not in the table any more
pub gone :
    (id : String) (e : ℕ) (h : HttpHandler)
    → IsOpen id e h
    → get id (close_transport e h).sessions ≢ some e
unfolding close_transport set_transport remove_session
gone id e h o found = ground (
  arith,
  found,
  o.named,
  o.open_still,
  o.calls_back,
  get-remove id (h.entries e).transport.id h.sessions,
  (eq_iff (h.entries e).transport.id id).1 o.named,
  nat_beq_iff e e,
)

pub other_entry :
    (e j : ℕ) (h : HttpHandler) → j ≢ e → (close_transport e h).entries j ≡ h.entries j
unfolding close_transport set_transport remove_session
other_entry e j h ne = ground (arith, nat_beq_iff e j, ne)

pub close-next_entry : (e : ℕ) (h : HttpHandler) → (close_transport e h).next_entry ≡ h.next_entry
unfolding close_transport set_transport remove_session
close-next_entry e h = ground arith

pub close_transport-TableOk : (e : ℕ) (h : HttpHandler) → TableOk h → TableOk (close_transport e h)
close_transport-TableOk e h inv id j found =
    let o = inv id j (get-close id e j h found) in
    elim (Bool-cases (nat_beq j e)) [
      | inl same ↦
          let q = (nat_beq_iff j e).0 same in
          absurd (
            gone id e h (subst (λ k. IsOpen id k h) q o)
              (subst (λ k. get id (close_transport e h).sessions ≡ some k) q found))
      | inr other ↦
          let kept = other_entry e j h (λ q. ground (arith, other, (nat_beq_iff j e).1 q)) in
          record {
            allocated = subst (λ n. j < n) (sym (close-next_entry e h)) o.allocated;
            named = ap (λ x. x.transport.id) kept ∙ o.named;
            open_still = ap (λ x. x.transport.done) kept ∙ o.open_still;
            calls_back = ap (λ x. x.transport.on_close) kept ∙ o.calls_back;
          }
    ]

pub lookup-close :
    (id j : String) (e : ℕ) (h : HttpHandler)
    → TableOk h
    → lookup id h ≡ some e
    → lookup j (close_transport e h) ≡ (if str_beq id j then none else lookup j h)
unfolding lookup close_transport set_transport remove_session
lookup-close id j e h inv found =
    let o = inv id e found in
    ground (
      arith,
      found,
      o.named,
      o.open_still,
      o.calls_back,
      get-remove j id h.sessions,
      nat_beq_iff e e,
    )

pub finish_ack-SameDoor :
    (case : HandCase) (c : ℕ) (answer : Option String) (t : HttpTransport)
    → SameDoor t (finish_ack case c answer t).1
unfolding finish_ack post_ack set_chunk
finish_ack-SameDoor hands_over c answer t = record {
  id = ground arith;
  done = ground arith;
  on_close = ground arith;
}
finish_ack-SameDoor hand_closed c answer t = record { id = refl; done = refl; on_close = refl }
finish_ack-SameDoor hand_gone c answer t = record { id = refl; done = refl; on_close = refl }

-- A property that is kept when a transport is written that stays as open as it was.
module _ (P : HttpHandler → Type 0)
    (keeps : (e : ℕ) (t : HttpTransport) (h : HttpHandler)
      → P h
      → SameDoor (h.entries e).transport t
      → P (set_transport e t h)) where
  pub poll_select-Kept :
      (case : PollCase) (e : ℕ) (h : HttpHandler) → P h → P (poll_select case e h).1
  unfolding poll_select
  poll_select-Kept takes_payload e h inv = taken (h.entries e).transport.outbound
    where
      taken : (l : List (List ℕ)) → P (take_outbound l e h).1
      taken [] = unfold take_outbound in inv
      taken (p ∷ rest) =
          unfold take_outbound in
          keeps e _ h inv (record { id = refl; done = refl; on_close = refl })
  poll_select-Kept poll_timeout e h inv = inv
  poll_select-Kept poll_closed e h inv = inv
  poll_select-Kept poll_gone e h inv = inv

  pub handle_poll-Kept :
      (case : PollCase) (e : ℕ) (r : HttpRequest) (h : HttpHandler)
      → P h
      → P (handle_poll case e r h).1
  unfolding handle_poll
  handle_poll-Kept case e r h inv =
      if-elim (λ (p : Progress HttpReply × HttpHandler). P p.1) (not (str_beq r.method "GET")) _ _
        (λ _. inv) (λ _. poll_select-Kept case e h inv)

  pub message_select-Kept :
      (case : HandCase) (body : List ℕ) (e : ℕ) (h : HttpHandler)
      → P h
      → P (message_select case body e h).1
  unfolding message_select
  message_select-Kept hands_over body e h inv =
      let t = (h.entries e).transport in
      if-elim (λ (p : Progress HttpReply × HttpHandler). P p.1)
        (ltb (length t.inbound) outbound_queue) _ _
        (λ _.
          keeps e (record t { inbound = t.inbound ++ body ∷ [] }) h inv
            (record { id = refl; done = refl; on_close = refl }))
        (λ _. inv)
  message_select-Kept hand_closed body e h inv = inv
  message_select-Kept hand_gone body e h inv = inv

  pub handle_message-Kept :
      (json_valid : List ℕ → Bool) (case : HandCase) (e : ℕ) (r : HttpRequest) (h : HttpHandler)
      → P h
      → P (handle_message json_valid case e r h).1
  unfolding handle_message
  handle_message-Kept json_valid case e r h inv =
      if-elim (λ (p : Progress HttpReply × HttpHandler). P p.1) (not (str_beq r.method "POST")) _ _
        (λ _. inv)
        (λ _. elim (Option-cases (read_limited max_control_body_bytes r.body)) [
          | inl x ↦ rw (x, handle_message) inv
          | inr (body, x) ↦
              rw (x, handle_message)
                (if-elim (λ (p : Progress HttpReply × HttpHandler). P p.1) (not (json_valid body)) _
                  _ (λ _. inv) (λ _. message_select-Kept case body e h inv))
        ])

  pub http_chunk_ack-Kept :
      (case : HandCase) (e : ℕ) (id number : String) (r : HttpRequest) (h : HttpHandler)
      → P h
      → P (http_chunk_ack case e id number r h).1
  unfolding http_chunk_ack
  http_chunk_ack-Kept case e id number r h inv = go (begin_ack id number r (h.entries e).transport)
    where
      go :
          (a : Acking)
          → P
              (elim a as (λ _. Progress HttpReply × HttpHandler) [
                | replied reply ↦ (returns reply, h)
                | answering c answer ↦
                    let (progress, t') = finish_ack case c answer (h.entries e).transport in
                    (progress, set_transport e t' h)
              ]).1
      go (replied x) = inv
      go (answering c answer) =
          keeps e (finish_ack case c answer (h.entries e).transport).1 h inv
            (finish_ack-SameDoor case c answer (h.entries e).transport)
