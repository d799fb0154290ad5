-- ===== src/Gateway/Types.antt =====
-- The data of internal/gateway/oauth.go, oauth_clients.go and jwt.go, and what they take from
-- packages outside the repository. A Go string that only the wire sees is a text.
use zshell_gateway.Base.{ℕ, String, Bool, List, Option}
use zshell_gateway.Dict.{Dict}
use zshell_gateway.Text.Hex.{IsBytes}

pub record OauthClient : Type 0 where
  pub id : String
  pub name : String
  pub redirect_uris : List String

pub record AuthorizationCode : Type 0 where
  pub code : String
  pub client_id : String
  pub redirect_uri : String
  pub code_challenge : String
  pub scope : String
  pub resource : String
  pub created_at : ℕ

pub record OauthProvider : Type 0 where
  pub public_base : String
  pub admin_pin : String
  pub jwt_secret : String
  pub clients : Dict String OauthClient
  pub codes : Dict String AuthorizationCode
  pub clients_file : String

pub record AuthorizeParams : Type 0 where
  pub response_type : String
  pub client_id : String
  pub redirect_uri : String
  pub code_challenge : String
  pub code_challenge_method : String
  pub scope : String
  pub resource : String
  pub state : String

pub record AccessClaims : Type 0 where
  pub issuer : String
  pub subject : String
  pub audience : String
  pub client_id : String
  pub scope : String

-- `oauthClientsState`; `none` is a nil map
pub record OauthClientsState : Type 0 where
  pub version : ℕ
  pub issuer : String
  pub clients : Option (Dict String OauthClient)

-- What `url.Parse` gives.
pub record Url : Type 0 where
  pub scheme : String
  pub host : String
  pub hostname : String
  pub has_user : Bool
  pub path : String
  pub raw_query : String
  pub fragment : String

-- A value or the text of an error.
pub data Outcome {ℓ} (A : Type ℓ) : Type ℓ where
  done : A → Outcome A
  fail : String → Outcome A

-- The packages of the standard library that the code calls: SHA-256, HMAC-SHA256 (key, message),
-- JSON of the claims, `url.Parse`, `net.ParseIP(host).IsLoopback()`, the media type that
-- `mime.ParseMediaType` finds, and a URL with query parameters set, encoded again.
pub record Services : Type 0 where
  pub sha256 : List ℕ → List ℕ
  pub hmac : List ℕ → List ℕ → List ℕ
  pub marshal : AccessClaims → List ℕ
  pub unmarshal : List ℕ → Option AccessClaims
  pub parse_url : String → Option Url
  pub is_loopback_ip : String → Bool
  pub media_type : String → Option String
  pub set_query : String → List (String × String) → Option String

-- What is documented of them: a MAC and JSON are bytes.
pub record Documented (x : Services) : Type 0 where
  pub hmac-IsBytes : (key message : List ℕ) → IsBytes (x.hmac key message)
  pub marshal-IsBytes : (c : AccessClaims) → IsBytes (x.marshal c)
