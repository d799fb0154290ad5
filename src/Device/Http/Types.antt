-- ===== src/Device/Http/Types.antt =====
-- The data of internal/device/http.go.
use zshell_gateway.Base.{ℕ, String, Bool, List, [], ◌∷◌, Option}
use zshell_gateway.Dict.{Dict}
use zshell_gateway.Device.Types.{Message, Error, Result, HelloAck}

-- What is marshalled for the device's next poll: a message, or the announcement of a chunk.
pub data Outgoing : Type 0 where
  control : Message → Outgoing
  transport_chunk : String → ℕ → Outgoing

-- `json.Marshal`
abbrev pub Marshal : Type 0
Marshal = Outgoing → Result (List ℕ)

-- How far a call that may wait has come.
pub data Progress {ℓ} (A : Type ℓ) : Type ℓ where
  blocked : Progress A
  returns : A → Progress A

-- Where a call of `SendTransferChunk` stands after it has taken the slot.
pub data Phase : Type 0 where
  announcing waiting : Phase
  finished : Option Error → Phase

-- `httpTransferChunk`; `ack` is what stands in the one-place channel, where `some none` is a nil error
pub record HttpChunk : Type 0 where
  pub transfer_id : String
  pub sequence : ℕ
  pub payload : List ℕ
  pub ack : Option (Option String)
  pub phase : Phase

-- `httpTransport`; a `*httpTransferChunk` is a handle into the store `chunks`, and `on_close` says
-- whether the callback is set
pub record HttpTransport : Type 0 where
  pub id : String
  pub outbound : List (List ℕ)
  pub inbound : List (List ℕ)
  pub done : Bool
  pub on_close : Bool
  pub chunk : Option ℕ
  pub chunks : ℕ → HttpChunk
  pub next_chunk : ℕ

-- `httpDeviceSession`
pub record HttpEntry : Type 0 where
  pub transport : HttpTransport
  pub session : ℕ

-- `httpHandler`; a `*httpDeviceSession` is a handle into the store `entries`
pub record HttpHandler : Type 0 where
  pub token : String
  pub sessions : Dict String ℕ
  pub entries : ℕ → HttpEntry
  pub next_entry : ℕ

-- What the handlers read off a request. `body` is what the whole body is, or that reading it fails;
-- `query_ok` is the query's value of "ok".
pub record HttpRequest : Type 0 where
  pub method : String
  pub path : String
  pub authorization : String
  pub content_type : String
  pub error_header : String
  pub query_ok : String
  pub body : Option (List ℕ)

pub data HttpBody : Type 0 where
  text : String → HttpBody
  bytes : List ℕ → HttpBody
  json_ack : HelloAck → HttpBody
  no_body : HttpBody

-- The status, the headers and the body that are written, if any.
pub data HttpReply : Type 0 where
  replies : ℕ → Dict String String → HttpBody → HttpReply
  no_reply : HttpReply

-- `http.Error`
abbrev pub http_error : String → ℕ → HttpReply
http_error message status = replies status [] (text message)

abbrev pub not_allowed : String → HttpReply
not_allowed allow = replies 405 (("Allow", allow) ∷ []) (text "method not allowed")

abbrev pub no_content : HttpReply
no_content = replies 204 [] no_body

-- `http.NotFound`
abbrev pub not_found : HttpReply
not_found = http_error "404 page not found" 404

abbrev pub max_control_body_bytes : ℕ
max_control_body_bytes = 8388608

abbrev pub max_chunk_bytes : ℕ
max_chunk_bytes = 4194304

abbrev pub outbound_queue : ℕ
outbound_queue = 32
