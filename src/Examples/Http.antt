-- ===== src/Examples/Http.antt =====
-- A device says hello over HTTP, takes a chunk and acknowledges it.
use zshell_gateway.Base.{
  ℕ, zero, suc, String, ◌≡◌, refl, ap, ◌∙◌, ◌↔◌, ◌⊎◌, true, List, [], ◌∷◌, none, some, string_eq,
  str_beq, if◌then◌else◌, arith, eq_iff, ◌≢◌,
}
use zshell_gateway.Dict.{get, put}
use zshell_gateway.Text.Hex.{encode, decode, to_lower}
use zshell_gateway.Text.Decimal.{decimal}
use zshell_gateway.Text.Compare.{constant_time_compare}
use zshell_gateway.Text.Split.{parse_uint, has_prefix, fields_of, trim_prefix, trim_both_slashes}
use zshell_gateway.Text.Trim.{trim_space, byte_len}
use zshell_gateway.Text.Utf8.{utf8}
use zshell_gateway.Device.Types.{Result, ok, err, no_device}
use zshell_gateway.Device.Registry.{touch, new_manager, attach, normalize_info}
use zshell_gateway.Device.Frame.{encode_transfer_frame}
use zshell_gateway.Device.WebSocket.{bearer_token, handshake, binary_frame, socket_frame}
use zshell_gateway.Device.Lifecycle.{read_frame}
use zshell_gateway.Device.Http.Types.{
  HttpRequest, HttpHandler, HttpEntry, returns, http_error, bytes,
}
use zshell_gateway.Device.Http.Transport.{enqueues, acknowledged}
use zshell_gateway.Device.Http.Sessions.{
  new_http_handler, new_http_session_id, new_transport, allocate_entry, register_entry,
  close_transport, lookup, takes_payload, hands_over, handle_hello,
}
use zshell_gateway.Device.Http.Chunks.{get_chunk, http_transfer_chunk}
use zshell_gateway.Device.Http.Route.{Meets, route_of, serve_route, serve_http}
use zshell_gateway.Device.Http.Relay.{
  RelayEvent, begins_chunk, announces, acks, hands_answer, wakes_call, relay_run, new_relay,
}
use zshell_gateway.Device.Http.Relay.Acknowledged.{IsAcked, success-IsAcked}
use zshell_gateway.Device.Http.Relay.Single.{IsUnderWay, run-OneCall}
use zshell_gateway.Device.Http.Relay.Served.{IsServed, get_chunk-IsServed}
use zshell_gateway.Device.Http.Table.{IsOpen}
use zshell_gateway.Device.Http.Table.Requests.{
  HandlerEvent, serves, closes_transport, handler_run, lookup-IsOpen, lookup-run_close,
}
use zshell_gateway.Device.Http.Table.Early.{NeverDrawn, closed_early_stays}
use zshell_gateway.Device.Http.Authenticated.{Presents, serve_http-authorized, handshake_iff}
use zshell_gateway.Device.Http.Posted.{post-binary}
use zshell_gateway.Examples.Runs.{info_of, closed, accepting, sixteen, the_id}

abbrev post : String → String → HttpRequest
post path authorization = record {
  method = "POST";
  path = path;
  authorization = authorization;
  content_type = "application/octet-stream";
  error_header = "";
  query_ok = "1";
  body = some (1 ∷ 2 ∷ []);
}

abbrev meets : Meets
meets = record {
  net = accepting;
  now = 1;
  random = ok sixteen;
  unmarshal = λ _. some (record { type = "hello"; protocol = 3; device = info_of "a" });
  json_valid = λ _. true;
  poll_case = takes_payload;
  hand_case = hands_over;
}

abbrev chunk_events : List RelayEvent
chunk_events =
    begins_chunk the_id 0 (1 ∷ 2 ∷ [])
    ∷ announces (λ _. ok []) enqueues 0
    ∷ acks the_id "0" (post "" "")
    ∷ hands_answer hands_over 0
    ∷ wakes_call acknowledged 0
    ∷ []

success-IsAcked_example : IsAcked chunk_events the_id 0
unfolding relay_run new_relay parse_uint decode byte_len
success-IsAcked_example = success-IsAcked "x" chunk_events 0 refl

run-OneCall_example :
    ((relay_run (new_relay "x") chunk_events).transport.chunk ≡ some 0)
    ↔ IsUnderWay (relay_run (new_relay "x") chunk_events).transport 0
run-OneCall_example = run-OneCall "x" chunk_events 0

abbrev started_chunk : List RelayEvent
started_chunk = begins_chunk the_id 0 (1 ∷ 2 ∷ []) ∷ announces (λ _. ok []) enqueues 0 ∷ []

get_chunk-IsServed_example :
    IsServed started_chunk the_id 0
      (bytes (1 ∷ 2 ∷ []))
      (relay_run (new_relay "x") started_chunk).transport
unfolding relay_run new_relay get_chunk decimal
get_chunk-IsServed_example =
    get_chunk-IsServed "x" started_chunk the_id 0
      (("Content-Type", "application/octet-stream")
        ∷ ("X-Zshell-Transfer-ID", the_id)
        ∷ ("X-Zshell-Sequence", "0")
        ∷ [])
      (bytes (1 ∷ 2 ∷ [])) refl

abbrev unused : HttpEntry
unused = record { transport = new_transport ""; session = 0 }

abbrev hello_events : List HandlerEvent
hello_events = serves meets (post "/device/http" "bearer secret") (new_manager closed) ∷ []

abbrev after_hello : HttpHandler
after_hello = handler_run (new_http_handler "secret" unused) hello_events

hello_found : lookup the_id after_hello ≡ some 0
unfolding handler_run new_http_handler lookup serve_http bearer_token trim_prefix trim_both_slashes
    utf8 constant_time_compare attach normalize_info trim_space byte_len get put new_manager encode
    to_lower fields_of handle_hello
hello_found = refl

lookup-IsOpen_example : IsOpen the_id 0 after_hello
lookup-IsOpen_example = lookup-IsOpen "secret" unused hello_events the_id 0 hello_found

lookup-run_close_example :
    lookup the_id (close_transport 0 after_hello)
    ≡ (if str_beq the_id the_id then none else lookup the_id after_hello)
lookup-run_close_example = lookup-run_close "secret" unused hello_events the_id the_id 0 hello_found

abbrev attached : HttpHandler
attached = allocate_entry (new_transport "x") 0 (new_http_handler "secret" unused)

abbrev later_events : List HandlerEvent
later_events =
    closes_transport 0
    ∷ serves meets (post "/device/http/x/poll" "Bearer secret") (new_manager closed)
    ∷ []

abbrev id_of : Result String → String
id_of (ok id) = id
id_of (err e) = ""

not_drawn : new_http_session_id (ok sixteen) ≢ ok "x"
unfolding encode
not_drawn e = ground (arith, (eq_iff the_id "x").1 (ok_of e))
  where
    ok_of : new_http_session_id (ok sixteen) ≡ ok "x" → the_id ≡ "x"
    ok_of e = ap id_of e

never_drawn : NeverDrawn "x" 0 later_events
never_drawn zero x r m at drawn = absurd (ground (arith, at))
never_drawn (suc zero) x r m at drawn =
    let them : meets ≡ x = ground (arith, at) in
    absurd (not_drawn (ap (λ (y : Meets). new_http_session_id y.random) them ∙ drawn))
never_drawn (suc (suc n)) x r m at drawn = absurd (ground (arith, at))

closed_early_stays_example :
    (lookup "x" (handler_run (register_entry 0 (close_transport 0 attached)) later_events) ≡ some 0)
    × (((handler_run (register_entry 0 (close_transport 0 attached)) later_events).entries
          0).transport.done
        ≡ true)
unfolding allocate_entry new_transport new_http_handler
closed_early_stays_example =
    closed_early_stays 0 attached later_events (omega arith) refl refl never_drawn

abbrev fresh : HttpHandler
fresh = new_http_handler "secret" unused

serve_http-authorized_example :
    (Presents fresh.token (post "/device/http" "Bearer other").authorization
      × (serve_http meets (post "/device/http" "Bearer other") fresh (new_manager closed)
          ≡ serve_route meets
              (post "/device/http" "Bearer other")
              (route_of "/device/http")
              fresh
              (new_manager closed)))
    ⊎ (¬ Presents fresh.token (post "/device/http" "Bearer other").authorization
        × (serve_http meets (post "/device/http" "Bearer other") fresh (new_manager closed)
            ≡ (returns (http_error "device authentication failed" 401), fresh, new_manager closed)))
serve_http-authorized_example =
    serve_http-authorized meets (post "/device/http" "Bearer other") fresh (new_manager closed)

handshake_iff_example :
    (handshake "secret" "GET" "BEARER secret" ≡ none)
    ↔ (◌≡◌ {A = String} "GET" "GET" × Presents "secret" "BEARER secret")
handshake_iff_example = handshake_iff "secret" "GET" "BEARER secret"

post-binary_example :
    (frame : List ℕ) × (encode_transfer_frame (encode sixteen) 7 (1 ∷ 2 ∷ []) ≡ some frame)
    × (read_frame accepting 1
          (after_hello.entries 0).session
          (socket_frame (λ _. err no_device) (λ _. "") (ok (binary_frame, frame)))
          (new_manager closed)
        ≡ (
          none,
          (http_transfer_chunk accepting 1 0
              (encode sixteen)
              "7"
              (post "" "")
              after_hello
              (touch 1 (after_hello.entries 0).session (new_manager closed))).1,
        ))
unfolding parse_uint has_prefix to_lower
post-binary_example =
    post-binary sixteen 7 (1 ∷ 2 ∷ []) "7" accepting 1 0 (post "" "") after_hello
      (new_manager closed) (λ _. err no_device) (λ _. "") refl (omega arith) (omega arith) refl refl
      refl refl (omega arith)
