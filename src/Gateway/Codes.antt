-- ===== src/Gateway/Codes.antt =====
-- internal/gateway/oauth.go: authorization codes, each good for one exchange within five minutes.
pub mod Exchange
pub mod Issue
use zshell_gateway.Base.{
  ℕ, ◌+◌, String, Bool, true, false, not, ◌||◌, List, [], ◌∷◌, Option, none, some, str_beq, ltb,
  leb, if◌then◌else◌, length, string_eq,
}
use zshell_gateway.Dict.{Dict, get, put, remove}
use zshell_gateway.Text.Base64.{encode}
use zshell_gateway.Text.Decimal.{concat}
use zshell_gateway.Device.Types.{seconds}
use zshell_gateway.Gateway.Types.{
  AuthorizationCode, OauthProvider, AuthorizeParams, AccessClaims, Outcome, done, fail, Services,
}
use zshell_gateway.Gateway.Jwt.{execute_scope, sign_token}
use zshell_gateway.Gateway.Checks.{resource_uri, verify_pkce}

abbrev pub max_codes : ℕ
max_codes = 2048

abbrev pub code_ttl : ℕ
code_ttl = seconds 300

-- `randomID`, of the bytes that were read
abbrev pub random_id : String → List ℕ → String
random_id prefix bytes = concat prefix (encode bytes)

-- `entry.CreatedAt.Before(now.Add(-codeTTL))`
abbrev pub is_expired : ℕ → AuthorizationCode → Bool
is_expired now entry = ltb (entry.created_at + code_ttl) now

-- `pruneCodesLocked`
unfoldable pub prune_codes : ℕ → Dict String AuthorizationCode → Dict String AuthorizationCode
prune_codes now [] = []
prune_codes now ((code, entry) ∷ codes) =
    let rest = prune_codes now codes in if is_expired now entry then rest else (code, entry) ∷ rest

unfoldable pub new_entry : String → ℕ → AuthorizeParams → OauthProvider → AuthorizationCode
new_entry code now params p = record {
  code = code;
  client_id = params.client_id;
  redirect_uri = params.redirect_uri;
  code_challenge = params.code_challenge;
  scope = execute_scope;
  resource = resource_uri p;
  created_at = now;
}

-- `issueAuthorizationCode`; `none` is a failure of the random source
unfoldable pub issue_authorization_code :
    Option (List ℕ) → ℕ → AuthorizeParams → OauthProvider → Outcome String × OauthProvider
unfolding prune_codes new_entry
issue_authorization_code none now params p = (fail "random source failed", p)
issue_authorization_code (some bytes) now params p =
    let code = random_id "" bytes in
    let kept = prune_codes now p.codes in
    if leb max_codes (length kept)
    then (fail "authorization code registry is full", record p { codes = kept })
    else (done code, record p { codes = put code (new_entry code now params p) kept })

-- `!ok || entry.ClientID != clientID || …`
abbrev pub refuses : Services → String → String → String → Option AuthorizationCode → Bool
refuses x client_id redirect_uri verifier none = true
refuses x client_id redirect_uri verifier (some entry) =
    not (str_beq entry.client_id client_id)
    || not (str_beq entry.redirect_uri redirect_uri)
    || not (verify_pkce x entry.code_challenge verifier)

abbrev pub claims_of : OauthProvider → AuthorizationCode → AccessClaims
claims_of p entry = record {
  issuer = p.public_base;
  subject = "zshell-user";
  audience = entry.resource;
  client_id = entry.client_id;
  scope = entry.scope;
}

-- the rest of `exchangeAuthorizationCode`, on the entry under the code
unfoldable pub exchange_entry :
    Services
    → String
    → String
    → String
    → String
    → Option AuthorizationCode
    → OauthProvider
    → Outcome String × OauthProvider
exchange_entry x code client_id redirect_uri verifier none p = (fail "invalid grant", p)
exchange_entry x code client_id redirect_uri verifier (some entry) p =
    if refuses x client_id redirect_uri verifier (some entry) then (fail "invalid grant", p) else (
      done (sign_token x (claims_of p entry) p.jwt_secret),
      record p { codes = remove code p.codes },
    )

-- `exchangeAuthorizationCode`
unfoldable pub exchange_authorization_code :
    Services
    → ℕ
    → String
    → String
    → String
    → String
    → OauthProvider
    → Outcome String × OauthProvider
unfolding prune_codes exchange_entry
exchange_authorization_code x now code client_id redirect_uri verifier p =
    let kept = prune_codes now p.codes in
    exchange_entry x code client_id redirect_uri verifier (get code kept)
      (record p { codes = kept })
