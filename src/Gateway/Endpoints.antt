-- ===== src/Gateway/Endpoints.antt =====
-- internal/gateway/oauth.go: the endpoints of the OAuth server. A request carries what the standard
-- library's decoders answer for its body, which is limited to 64 KiB.
pub mod Registered
pub mod Authorized
pub mod Earned
pub mod Survives
use zshell_gateway.Base.{
  ℕ, String, Bool, true, false, not, ◌||◌, ◌&&◌, List, [], ◌∷◌, ◌++◌, Option, none, some, str_beq,
  nat_beq, leb, ltb, if◌then◌else◌, length, every, string_eq,
}
use zshell_gateway.Dict.{Dict, put, remove}
use zshell_gateway.Text.Trim.{byte_len}
use zshell_gateway.Gateway.Types.{
  OauthClient, OauthProvider, AuthorizeParams, Outcome, done, fail, Services,
}
use zshell_gateway.Gateway.Jwt.{execute_scope}
use zshell_gateway.Gateway.Checks.{
  Values, singleton, parse_authorize_values, valid_redirect_uri, valid_pkce_verifier,
  constant_time_pin_equal, is_media_type, resource_uri, validate_authorize,
}
use zshell_gateway.Gateway.Codes.{random_id, issue_authorization_code, exchange_authorization_code}
use zshell_gateway.Gateway.ClientsFile.{
  Disk, Faults, max_clients, max_redirect_uris, max_client_name, save_clients_locked,
}

pub data Response : Type 0 where
  oauth_error : ℕ → String → String → Response
  http_error : ℕ → String → Response
  authorize_page : AuthorizeParams → String → Response
  redirect : String → Response
  created : OauthClient → String → Response
  token : String → String → Response
  resource_metadata : String → String → Response
  server_metadata : String → Response
  not_allowed : Response

pub record Registration : Type 0 where
  pub redirect_uris : List String
  pub client_name : String

pub record Request {ℓ} (A : Type ℓ) : Type ℓ where
  pub method : String
  pub content_type : String
  pub body : Option A

-- `HandleProtectedResource`
unfoldable pub handle_protected_resource : String → OauthProvider → Response
handle_protected_resource method p =
    if not (str_beq method "GET")
    then not_allowed
    else resource_metadata (resource_uri p) p.public_base

-- `HandleAuthorizationServer`; every endpoint is named from the public base
unfoldable pub handle_authorization_server : String → OauthProvider → Response
handle_authorization_server method p =
    if not (str_beq method "GET") then not_allowed else server_metadata p.public_base

-- the checks of a registration, with the answer to a bad one
unfoldable pub check_registration : Services → Registration → Option Response
check_registration x input =
    if nat_beq (length input.redirect_uris) 0 || ltb max_redirect_uris (length input.redirect_uris)
    then some (oauth_error 400 "invalid_redirect_uri" "Provide between 1 and 10 redirect_uris")
    else if not (every (valid_redirect_uri x) input.redirect_uris)
    then some (
        oauth_error 400 "invalid_redirect_uri"
          "redirect_uri must use HTTPS, except loopback HTTP callbacks")
    else if ltb max_client_name (byte_len input.client_name)
    then some (oauth_error 400 "invalid_client_metadata" "client_name is too long")
    else none

abbrev pub client_of : String → Registration → OauthClient
client_of id input = record {
  id = id;
  name = input.client_name;
  redirect_uris = input.redirect_uris;
}

-- the answer to a registration that was saved
abbrev pub name_shown : String → String
name_shown name = if str_beq name "" then "ChatGPT" else name

-- the part of `HandleRegister` under the lock
unfoldable pub register_client :
    Faults → String → Registration → OauthProvider → Disk → Response × OauthProvider × Disk
register_client f id input p d =
    if leb max_clients (length p.clients)
    then (oauth_error 503 "temporarily_unavailable" "OAuth client registry is full", p, d)
    else let q = record p { clients = put id (client_of id input) p.clients } in
      let w = save_clients_locked f q d in
      elim w.error [
        | some _ ↦ (
          http_error 500 "failed to persist OAuth client registration",
          record q { clients = remove id q.clients },
          w.final,
        )
        | none ↦ (created (client_of id input) (name_shown input.client_name), q, w.final)
      ]

-- `HandleRegister`
unfoldable pub handle_register :
    Services
    → Faults
    → Option (List ℕ)
    → Request Registration
    → OauthProvider
    → Disk
    → Response × OauthProvider × Disk
unfolding register_client check_registration
handle_register x f random r p d =
    if not (str_beq r.method "POST")
    then (not_allowed, p, d)
    else if not (is_media_type x r.content_type "application/json")
    then (oauth_error 400 "invalid_client_metadata" "Request body must be JSON", p, d)
    else elim r.body [
      | none ↦ (
        oauth_error 400 "invalid_client_metadata" "Request body must contain valid client metadata",
        p,
        d,
      )
      | some input ↦ elim (check_registration x input) [
        | some response ↦ (response, p, d)
        | none ↦ elim random [
          | none ↦ (http_error 500 "internal server error", p, d)
          | some bytes ↦ register_client f (random_id "zshell-" bytes) input p d
        ]
      ]
    ]

abbrev pub state_query : String → List (String × String)
state_query state = if str_beq state "" then [] else ("state", state) ∷ []

-- where the browser goes with its code; the code stays issued if the URL cannot be parsed again
unfoldable pub redirect_with :
    Services → AuthorizeParams → Outcome String × OauthProvider → Response × OauthProvider
redirect_with x params (fail _, p) = (http_error 500 "internal server error", p)
redirect_with x params (done code, p) =
    elim (x.set_query params.redirect_uri
      (("code", code) ∷ (state_query params.state ++ ("iss", p.public_base) ∷ []))) [
        | none ↦ (http_error 500 "internal server error", p)
        | some location ↦ (redirect location, p)
      ]

-- a POST whose parameters are valid
unfoldable pub check_pin :
    Services
    → Option (List ℕ)
    → ℕ
    → AuthorizeParams
    → Outcome String
    → OauthProvider
    → Response × OauthProvider
unfolding redirect_with
check_pin x random now params (fail _) p = (authorize_page params "Missing admin PIN", p)
check_pin x random now params (done pin) p =
    if not (constant_time_pin_equal p.admin_pin pin)
    then (authorize_page params "Invalid admin PIN", p)
    else redirect_with x params (issue_authorization_code random now params p)

abbrev pub text_or_empty : Option String → String
text_or_empty none = ""
text_or_empty (some text) = text

-- `r.URL.Query()` never fails
abbrev pub query_of : Option Values → Values
query_of none = []
query_of (some query) = query

unfoldable pub authorize_post :
    Services
    → Option (List ℕ)
    → ℕ
    → Values
    → AuthorizeParams
    → OauthProvider
    → Response × OauthProvider
unfolding check_pin
authorize_post x random now form params p = elim (validate_authorize params p) [
  | some text ↦ (authorize_page params text, p)
  | none ↦ check_pin x random now params (singleton form "pin" true) p
]

-- `HandleAuthorize`, where the body is the query of a GET and the form of a POST
unfoldable pub handle_authorize :
    Services → Option (List ℕ) → ℕ → Request Values → OauthProvider → Response × OauthProvider
unfolding authorize_post
handle_authorize x random now r p =
    if str_beq r.method "GET"
    then elim (parse_authorize_values (query_of r.body)) [
      | fail text ↦ (oauth_error 400 "invalid_request" text, p)
      | done params ↦ (authorize_page params (text_or_empty (validate_authorize params p)), p)
    ]
    else if str_beq r.method "POST"
    then if not (is_media_type x r.content_type "application/x-www-form-urlencoded")
      then (http_error 415 "content-type must be application/x-www-form-urlencoded", p)
      else elim r.body [
        | none ↦ (oauth_error 400 "invalid_request" "Authorization form is invalid", p)
        | some form ↦ elim (parse_authorize_values form) [
          | fail text ↦ (oauth_error 400 "invalid_request" text, p)
          | done params ↦ authorize_post x random now form params p
        ]
      ]
    else (not_allowed, p)

pub record TokenParams : Type 0 where
  pub code : String
  pub client_id : String
  pub redirect_uri : String
  pub verifier : String
  pub resource : String

-- the parameters after `grant_type`
unfoldable pub token_params : Values → Outcome TokenParams
token_params form = elim (singleton form "code" true) [
  | fail text ↦ fail text
  | done code ↦ elim (singleton form "client_id" true) [
    | fail text ↦ fail text
    | done client_id ↦ elim (singleton form "redirect_uri" true) [
      | fail text ↦ fail text
      | done redirect_uri ↦ elim (singleton form "code_verifier" true) [
        | fail text ↦ fail text
        | done verifier ↦ elim (singleton form "resource" false) [
          | fail text ↦ fail text
          | done resource ↦ done (record {
            code = code;
            client_id = client_id;
            redirect_uri = redirect_uri;
            verifier = verifier;
            resource = resource;
          })
        ]
      ]
    ]
  ]
]

abbrev pub bad_grant : Response
bad_grant = oauth_error 400 "invalid_grant" "Authorization code or PKCE verifier is invalid"

abbrev pub token_response : Outcome String × OauthProvider → Response × OauthProvider
token_response (fail _, p) = (bad_grant, p)
token_response (done text, p) = (token text execute_scope, p)

unfoldable pub grant : Services → ℕ → TokenParams → OauthProvider → Response × OauthProvider
grant x now t p =
    if not (valid_pkce_verifier t.verifier)
    then (bad_grant, p)
    else if not (str_beq t.resource "") && not (str_beq t.resource (resource_uri p))
    then (oauth_error 400 "invalid_target" "OAuth resource does not match this zshell server", p)
    else token_response
        (exchange_authorization_code x now t.code t.client_id t.redirect_uri t.verifier p)

abbrev missing_token_parameter : Response
missing_token_parameter = oauth_error 400 "invalid_request" "Missing required OAuth token parameter"

-- `HandleToken`
unfoldable pub handle_token :
    Services → ℕ → Request Values → OauthProvider → Response × OauthProvider
unfolding token_params grant
handle_token x now r p =
    if not (str_beq r.method "POST")
    then (not_allowed, p)
    else if not (is_media_type x r.content_type "application/x-www-form-urlencoded")
    then (oauth_error 400 "invalid_request" "Token request must be form encoded", p)
    else elim r.body [
      | none ↦ (oauth_error 400 "invalid_request" "Token request is invalid", p)
      | some form ↦ elim (singleton form "grant_type" true) [
        | fail _ ↦ (missing_token_parameter, p)
        | done grant_type ↦
            if not (str_beq grant_type "authorization_code")
            then (
              oauth_error 400 "unsupported_grant_type" "Only authorization_code is supported",
              p,
            )
            else elim (token_params form) [
              | fail _ ↦ (missing_token_parameter, p)
              | done t ↦ grant x now t p
            ]
      ]
    ]
