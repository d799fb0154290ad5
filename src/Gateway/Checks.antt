-- ===== src/Gateway/Checks.antt =====
-- internal/gateway/oauth.go: the checks on what a client presents.
pub mod Pin
use Prim.Native.Char.{code}
use Prim.Native.String
use zshell_gateway.Base.{
  ℕ, zero, suc, ◌%◌, ◌^◌, String, Bool, true, false, not, ◌||◌, ◌&&◌, List, [], ◌∷◌, Option, none,
  some, str_beq, nat_beq, ltb, leb, if◌then◌else◌, length, string_eq, ◌≡◌, refl,
}
use zshell_gateway.Dict.{Dict, get}
use zshell_gateway.Text.Base64.{encode}
use zshell_gateway.Text.Decimal.{concat}
use zshell_gateway.Text.Hex.{to_lower}
use zshell_gateway.Text.Trim.{byte_len, is_space}
use zshell_gateway.Text.Utf8.{utf8}
use zshell_gateway.Gateway.Types.{
  OauthClient, OauthProvider, AuthorizeParams, Url, Outcome, done, fail, Services,
}
use zshell_gateway.Text.Compare.{constant_time_compare}
use zshell_gateway.Gateway.Jwt.{execute_scope}

-- `url.Values`
abbrev pub Values : Type 0
Values = Dict String (List String)

-- `singleton`
unfoldable pub single : String → Bool → Option (List String) → Outcome String
single key required none = if required then fail (concat "missing " key) else done ""
single key required (some []) = if required then fail (concat "missing " key) else done ""
single key required (some (item ∷ [])) =
    if str_beq item ""
    then (if required then fail (concat "missing " key) else done "")
    else done item
single key required (some (item ∷ other ∷ items)) = fail (concat "duplicate " key)

unfoldable pub singleton : Values → String → Bool → Outcome String
unfolding single
singleton values key required = single key required (get key values)

-- `value, err := …; if err != nil { return …, message }`
abbrev pub take_or {ℓ κ} :
    {A : Type ℓ} {B : Type κ} → Outcome A → String → (A → Outcome B) → Outcome B
take_or (done a) message next = next a
take_or (fail _) message next = fail message

abbrev missing : String
missing = "Missing required OAuth authorization parameter"

abbrev duplicates : String
duplicates = "Authorization request contains duplicate parameters"

-- `parseAuthorizeValues`
unfoldable pub parse_authorize_values : Values → Outcome AuthorizeParams
unfolding singleton
parse_authorize_values values =
    take_or (singleton values "response_type" true) missing (λ response_type.
      take_or (singleton values "client_id" true) missing (λ client_id.
        take_or (singleton values "redirect_uri" true) missing (λ redirect_uri.
          take_or (singleton values "code_challenge" true) missing (λ challenge.
            take_or (singleton values "code_challenge_method" true) missing (λ method.
              take_or (singleton values "scope" false) duplicates (λ scope.
                take_or (singleton values "resource" false) duplicates (λ resource.
                  take_or (singleton values "state" false) duplicates (λ state. done (record {
                    response_type = response_type;
                    client_id = client_id;
                    redirect_uri = redirect_uri;
                    code_challenge = challenge;
                    code_challenge_method = method;
                    scope = scope;
                    resource = resource;
                    state = state;
                  })))))))))

-- `unicode.IsControl`
abbrev pub is_control : ℕ → Bool
is_control c = ltb c 32 || (leb 0x7F c && ltb c 0xA0)

-- no `#`, no space and no control character
unfoldable pub plain : String → Bool
plain String.[] = true
plain (String.◌∷◌ c s) =
    not (nat_beq (code c) b'#') && not (is_space (code c)) && not (is_control (code c)) && plain s

-- `parsed.IsAbs()` says that there is a scheme
abbrev pub valid_url : (String → Bool) → Option Url → Bool
valid_url is_loopback_ip none = false
valid_url is_loopback_ip (some u) =
    if str_beq u.scheme "" || str_beq u.host "" || u.has_user || not (str_beq u.fragment "")
    then false
    else if str_beq (to_lower u.scheme) "https"
    then true
    else if str_beq (to_lower u.scheme) "http"
    then str_beq (to_lower u.hostname) "localhost" || is_loopback_ip (to_lower u.hostname)
    else false

-- `validRedirectURI`
unfoldable pub valid_redirect_uri : Services → String → Bool
unfolding plain
valid_redirect_uri x raw =
    if str_beq raw "" || ltb 2048 (byte_len raw) || not (plain raw)
    then false
    else valid_url x.is_loopback_ip (x.parse_url raw)

abbrev pub is_alphanumeric : ℕ → Bool
is_alphanumeric c =
    (leb b'a' c && leb c b'z') || (leb b'A' c && leb c b'Z') || (leb b'0' c && leb c b'9')

unfoldable pub all_chars : (ℕ → Bool) → String → Bool
all_chars p String.[] = true
all_chars p (String.◌∷◌ c s) = p (code c) && all_chars p s

-- `validPKCEChallenge`
unfoldable pub valid_pkce_challenge : String → Bool
unfolding all_chars
valid_pkce_challenge value =
    if not (nat_beq (byte_len value) 43)
    then false
    else all_chars (λ c. is_alphanumeric c || nat_beq c b'-' || nat_beq c b'_') value

-- `validPKCEVerifier`
unfoldable pub valid_pkce_verifier : String → Bool
unfolding all_chars
valid_pkce_verifier value =
    if ltb (byte_len value) 43 || ltb 128 (byte_len value)
    then false
    else all_chars
        (λ c.
          is_alphanumeric c || nat_beq c b'-' || nat_beq c b'.' || nat_beq c b'_' || nat_beq c b'~')
        value

-- `verifyPKCE`
unfoldable pub verify_pkce : Services → String → String → Bool
verify_pkce x expected verifier =
    constant_time_compare (utf8 expected) (utf8 (encode (x.sha256 (utf8 verifier))))

-- `copy` into an array of zeros
unfoldable pub fill : ℕ → List ℕ → List ℕ
fill zero bytes = []
fill (suc n) [] = 0 ∷ fill n []
fill (suc n) (b ∷ bytes) = b ∷ fill n bytes

-- `constantTimePINEqual`
unfoldable pub constant_time_pin_equal : String → String → Bool
unfolding fill
constant_time_pin_equal expected presented =
    let same_bytes = constant_time_compare (fill 512 (utf8 expected)) (fill 512 (utf8 presented)) in
    let same_length =
      nat_beq (length (utf8 expected) % 2 ^ 32) (length (utf8 presented) % 2 ^ 32) in
    same_bytes && same_length

-- `isMediaType`; the media type that is found is an ASCII token
unfoldable pub is_media_type : Services → String → String → Bool
is_media_type x header expected = elim (x.media_type header) [
  | none ↦ false
  | some media_type ↦ str_beq (to_lower media_type) (to_lower expected)
]

-- `resourceURI`
abbrev pub resource_uri : OauthProvider → String
resource_uri p = concat p.public_base "/mcp"

unfoldable pub registered : String → List String → Bool
registered uri [] = false
registered uri (redirect_uri ∷ rest) = str_beq redirect_uri uri || registered uri rest

-- `validateAuthorize`, with the text of its error
unfoldable pub validate_authorize : AuthorizeParams → OauthProvider → Option String
unfolding registered
validate_authorize params p =
    if not (str_beq params.response_type "code")
    then some "Unsupported OAuth response_type"
    else if not (valid_pkce_challenge params.code_challenge)
        || not (str_beq params.code_challenge_method "S256")
    then some "PKCE S256 is required"
    else if not (str_beq params.scope "") && not (str_beq params.scope execute_scope)
    then some "Unsupported OAuth scope"
    else if not (str_beq params.resource "") && not (str_beq params.resource (resource_uri p))
    then some "OAuth resource does not match this zshell server"
    else elim (get params.client_id p.clients) [
      | none ↦ some "Unknown OAuth client"
      | some client ↦
          if registered params.redirect_uri client.redirect_uris
          then none
          else some "OAuth redirect_uri does not match registered client"
    ]
