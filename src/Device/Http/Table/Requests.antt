-- ===== src/Device/Http/Table/Requests.antt =====
-- Whole requests, and the closing of transports, keep the table.
use zshell_gateway.Base.{
  ℕ, String, ◌≡◌, inl, inr, not, List, [], ◌∷◌, none, some, str_beq, Option-cases, if-elim,
  if◌then◌else◌, string_eq,
}
use zshell_gateway.Dict.{get}
use zshell_gateway.Device.Types.{Manager, ok}
use zshell_gateway.Device.Http.Types.{HttpEntry, HttpTransport, HttpHandler, HttpRequest}
use zshell_gateway.Device.Http.Sessions.{
  new_http_handler, set_transport, new_http_session_id, lookup, close_transport,
}
use zshell_gateway.Device.Http.Route.{
  Route, hello, nowhere, poll, message, chunk, chunk_ack, unknown, Meets, serve_route, route_of,
  is_authorized, serve_http, Served,
}
use zshell_gateway.Device.Http.Table.{
  IsOpen, TableOk, SameDoor, set_transport-TableOk, close_transport-TableOk, lookup-close,
  handle_poll-Kept, handle_message-Kept, http_chunk_ack-Kept,
}
use zshell_gateway.Device.Http.Table.Hello.{admitted, admitted-TableOk, handle_hello-Kept}

-- A property that is kept when a transport stays as open as it was, and when an entry is admitted, is kept by a
-- whole request.
module _ (P : HttpHandler → Type 0)
    (keeps : (e : ℕ) (t : HttpTransport) (h : HttpHandler)
      → P h
      → SameDoor (h.entries e).transport t
      → P (set_transport e t h))
    (x : Meets)
    (admits : (id : String) (s : ℕ) (h : HttpHandler)
      → new_http_session_id x.random ≡ ok id
      → P h
      → P (admitted id s h)) where
  serve_route-Kept :
      (r : HttpRequest) (to : Route) (h : HttpHandler) (m : Manager)
      → P h
      → P (serve_route x r to h m).1
  unfolding serve_route
  serve_route-Kept r hello h m inv = handle_hello-Kept P x.random admits x.unmarshal x.now r h m inv
  serve_route-Kept r nowhere h m inv = inv
  serve_route-Kept r (poll id) h m inv = elim (Option-cases (lookup id h)) [
    | inl e ↦ rw (e, serve_route) inv
    | inr (n, e) ↦ rw (e, serve_route) (handle_poll-Kept P keeps x.poll_case n r h inv)
  ]
  serve_route-Kept r (message id) h m inv = elim (Option-cases (lookup id h)) [
    | inl e ↦ rw (e, serve_route) inv
    | inr (n, e) ↦
        rw (e, serve_route) (handle_message-Kept P keeps x.json_valid x.hand_case n r h inv)
  ]
  serve_route-Kept r (chunk id t n) h m inv = elim (Option-cases (lookup id h)) [
    | inl e ↦ rw (e, serve_route) inv
    | inr (k, e) ↦ rw (e, serve_route) inv
  ]
  serve_route-Kept r (chunk_ack id t n) h m inv = elim (Option-cases (lookup id h)) [
    | inl e ↦ rw (e, serve_route) inv
    | inr (k, e) ↦ rw (e, serve_route) (http_chunk_ack-Kept P keeps x.hand_case k t n r h inv)
  ]
  serve_route-Kept r (unknown id) h m inv = elim (Option-cases (lookup id h)) [
    | inl e ↦ rw (e, serve_route) inv
    | inr (k, e) ↦ rw (e, serve_route) inv
  ]

  pub serve_http-Kept :
      (r : HttpRequest) (h : HttpHandler) (m : Manager) → P h → P (serve_http x r h m).1
  unfolding serve_http
  serve_http-Kept r h m inv =
      if-elim (λ (p : Served). P p.1) (not (is_authorized h.token r)) _ _ (λ _. inv)
        (λ _. serve_route-Kept r (route_of r.path) h m inv)

-- What changes the handler: whole requests, each with the manager that it finds, and closings.
pub data HandlerEvent : Type 0 where
  serves : Meets → HttpRequest → Manager → HandlerEvent
  closes_transport : ℕ → HandlerEvent

unfoldable pub handler_step : HttpHandler → HandlerEvent → HttpHandler
handler_step h (serves x r m) = (serve_http x r h m).1
handler_step h (closes_transport e) = close_transport e h

unfoldable pub handler_run : HttpHandler → List HandlerEvent → HttpHandler
unfolding handler_step
handler_run h [] = h
handler_run h (e ∷ es) = handler_run (handler_step h e) es

run_from-TableOk :
    (h : HttpHandler) (es : List HandlerEvent) → TableOk h → TableOk (handler_run h es)
unfolding handler_run
run_from-TableOk h [] inv = inv
run_from-TableOk h (serves x r m ∷ es) inv = run_from-TableOk (serve_http x r h m).1 es (
    serve_http-Kept TableOk set_transport-TableOk x (λ id s g _. admitted-TableOk id s g) r h m inv)
run_from-TableOk h (closes_transport e ∷ es) inv =
    run_from-TableOk (close_transport e h) es (close_transport-TableOk e h inv)

run-TableOk :
    (token : String) (unused : HttpEntry) (es : List HandlerEvent)
    → TableOk (handler_run (new_http_handler token unused) es)
unfolding new_http_handler get
run-TableOk token unused es =
    run_from-TableOk (new_http_handler token unused) es (λ id e h. absurd (cc h))

-- Whatever requests are served and transports closed on a new handler, each request running as a whole, an id
-- that the table has leads to a transport of that id which is open and has its callback set.
pub lookup-IsOpen :
    (token : String) (unused : HttpEntry) (es : List HandlerEvent) (id : String) (e : ℕ)
    → lookup id (handler_run (new_http_handler token unused) es) ≡ some e
    → IsOpen id e (handler_run (new_http_handler token unused) es)
unfolding lookup
lookup-IsOpen token unused es id e found = run-TableOk token unused es id e found

-- On the same runs, closing the transport of an id in the table takes that id out and no other.
pub lookup-run_close :
    (token : String) (unused : HttpEntry) (es : List HandlerEvent) (id j : String) (e : ℕ)
    → lookup id (handler_run (new_http_handler token unused) es) ≡ some e
    → lookup j (close_transport e (handler_run (new_http_handler token unused) es))
      ≡ (if str_beq id j then none else lookup j (handler_run (new_http_handler token unused) es))
lookup-run_close token unused es id j e found =
    lookup-close id j e (handler_run (new_http_handler token unused) es)
      (run-TableOk token unused es) found
