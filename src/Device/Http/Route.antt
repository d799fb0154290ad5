-- ===== src/Device/Http/Route.antt =====
-- http.go: `ServeHTTP`, which authenticates a request and finds its handler.
use zshell_gateway.Base.{
  ℕ, String, Bool, false, not, ◌&&◌, List, [], ◌∷◌, Option, none, some, str_beq, if◌then◌else◌,
}
use zshell_gateway.Text.Compare.{constant_time_compare}
use zshell_gateway.Text.Split.{trim_prefix, trim_both_slashes, split_slashes}
use zshell_gateway.Text.Utf8.{utf8}
use zshell_gateway.Device.Types.{HelloMessage, Manager, Result, Net}
use zshell_gateway.Device.WebSocket.{bearer_token}
use zshell_gateway.Device.Http.Types.{
  Progress, returns, HttpHandler, HttpRequest, HttpReply, http_error, not_found,
}
use zshell_gateway.Device.Http.Sessions.{
  lookup, handle_hello, PollCase, handle_poll, HandCase, handle_message,
}
use zshell_gateway.Device.Http.Chunks.{http_transfer_chunk, http_chunk_ack}

-- What a path asks for.
pub data Route : Type 0 where
  hello nowhere : Route
  poll message : String → Route
  chunk chunk_ack : String → String → String → Route
  unknown : String → Route

-- the `switch` over the parts behind the session's id
unfoldable pub route_session : String → List String → Route
route_session id (a ∷ []) =
    if str_beq a "poll" then poll id else if str_beq a "message" then message id else unknown id
route_session id (a ∷ b ∷ c ∷ d ∷ []) =
    if str_beq a "transfer" && str_beq c "chunk" then chunk id b d else unknown id
route_session id (a ∷ b ∷ c ∷ d ∷ e ∷ []) =
    if str_beq a "transfer" && str_beq c "chunk" && str_beq e "ack"
    then chunk_ack id b d
    else unknown id
route_session id _ = unknown id

unfoldable pub route_parts : List String → Route
unfolding route_session
route_parts [] = nowhere
route_parts (id ∷ []) = nowhere
route_parts (id ∷ a ∷ rest) = route_session id (a ∷ rest)

-- the path without the prefix "/device/http", split at the slashes
unfoldable pub route_of : String → Route
unfolding route_parts
route_of url_path =
    let path = trim_both_slashes (trim_prefix "/device/http" url_path) in
    if str_beq path "" then hello else route_parts (split_slashes path)

-- what the request presents is the token
unfoldable pub is_authorized : String → HttpRequest → Bool
is_authorized token r = elim (bearer_token r.authorization) [
  | none ↦ false
  | some presented ↦ constant_time_compare (utf8 presented) (utf8 token)
]

-- What a request meets: the time, the random bytes, the transports' answers, JSON, and the cases of the
-- `select` that its handler comes to.
pub record Meets : Type 0 where
  pub net : Net
  pub now : ℕ
  pub random : Result (List ℕ)
  pub unmarshal : List ℕ → Option HelloMessage
  pub json_valid : List ℕ → Bool
  pub poll_case : PollCase
  pub hand_case : HandCase

abbrev pub Served : Type 0
Served = Progress HttpReply × HttpHandler × Manager

abbrev session_gone : HttpHandler → Manager → Served
session_gone h m = (returns (http_error "device session not found" 410), h, m)

-- the handler of a route, where the session of the path is in the table
unfoldable pub serve_route : Meets → HttpRequest → Route → HttpHandler → Manager → Served
serve_route x r hello h m =
    let (reply, h', m') = handle_hello x.unmarshal x.now x.random r h m in (returns reply, h', m')
serve_route x r nowhere h m = (returns not_found, h, m)
serve_route x r (poll id) h m = elim (lookup id h) [
  | none ↦ session_gone h m
  | some e ↦ let (reply, h') = handle_poll x.poll_case e r h in (reply, h', m)
]
serve_route x r (message id) h m = elim (lookup id h) [
  | none ↦ session_gone h m
  | some e ↦ let (reply, h') = handle_message x.json_valid x.hand_case e r h in (reply, h', m)
]
serve_route x r (chunk id transfer sequence) h m = elim (lookup id h) [
  | none ↦ session_gone h m
  | some e ↦
      let (reply, m') = http_transfer_chunk x.net x.now e transfer sequence r h m in
      (returns reply, h, m')
]
serve_route x r (chunk_ack id transfer sequence) h m = elim (lookup id h) [
  | none ↦ session_gone h m
  | some e ↦ let (reply, h') = http_chunk_ack x.hand_case e transfer sequence r h in (reply, h', m)
]
serve_route x r (unknown id) h m = elim (lookup id h) [
  | none ↦ session_gone h m
  | some e ↦ (returns not_found, h, m)
]

-- `ServeHTTP`
unfoldable pub serve_http : Meets → HttpRequest → HttpHandler → Manager → Served
unfolding is_authorized route_of serve_route
serve_http x r h m =
    if not (is_authorized h.token r)
    then (returns (http_error "device authentication failed" 401), h, m)
    else serve_route x r (route_of r.path) h m
