-- ===== src/Examples/Oauth.antt =====
-- A server with a client, its codes, its tokens and its files; hashes and JSON are toy functions.
use zshell_gateway.Base.{
  ◌≤◌, ◌<◌, ◌+◌, ◌^◌, String, ◌≡◌, refl, ◌↔◌, ◌≢◌, true, false, [], ◌∷◌, none, some, string_eq,
  length, arith, eq_iff,
}
use zshell_gateway.Dict.{get, put, remove}
use zshell_gateway.Text.Base64.{encode, decode}
use zshell_gateway.Text.Utf8.{utf8, split_dots}
use zshell_gateway.Text.Compare.{constant_time_compare}
use zshell_gateway.Gateway.Types.{
  OauthClient, AuthorizationCode, OauthProvider, AuthorizeParams, AccessClaims, done, fail,
  Services, Documented,
}
use zshell_gateway.Gateway.Jwt.{
  sign_token, verify_token, check_claims, execute_scope, new_token_verifier,
}
use zshell_gateway.Gateway.Jwt.Scoped.{Scoped, new_token_verifier-Scoped}
use zshell_gateway.Text.Split.{fields_of}
use zshell_gateway.Gateway.Jwt.Signed.{verify-sign, verify_token-IsSigned, IsSigned, IsGranted}
use zshell_gateway.Gateway.Checks.{verify_pkce, constant_time_pin_equal}
use zshell_gateway.Gateway.Checks.Pin.{constant_time_pin_equal_iff}
use zshell_gateway.Gateway.Codes.{
  max_codes, code_ttl, claims_of, new_entry, issue_authorization_code, exchange_authorization_code,
}
use zshell_gateway.Gateway.Codes.Exchange.{exchange_sound, exchange_once}
use zshell_gateway.Gateway.Codes.Issue.{issue-bounded, issue-exchange-verify}
use zshell_gateway.Gateway.ClientsFile.{
  Disk, Faults, stored, state_of, read_oauth_clients_state, write_oauth_clients_atomic,
}
use zshell_gateway.Gateway.ClientsFile.CrashSafe.{Safe, write-Safe}
use zshell_gateway.Gateway.Endpoints.{Registration, client_of, register_client}
use zshell_gateway.Gateway.Endpoints.Registered.{Answered, register_client-Answered}

abbrev claims : AccessClaims
claims = record {
  issuer = "https://z";
  subject = "zshell-user";
  audience = "https://z/mcp";
  client_id = "c";
  scope = execute_scope;
}

-- these know one answer each, and JSON one set of claims
abbrev pub services : Services
services = record {
  sha256 = λ _. 0 ∷ [];
  hmac = λ _ _. 1 ∷ 2 ∷ 3 ∷ [];
  marshal = λ _. 5 ∷ [];
  unmarshal = λ _. some claims;
  parse_url = λ _. none;
  is_loopback_ip = λ _. false;
  media_type = λ _. none;
  set_query = λ _ _. none;
}

services-Documented : Documented services
services-Documented = record {
  hmac-IsBytes = λ _ _. ground arith;
  marshal-IsBytes = λ _. ground arith;
}

abbrev client : OauthClient
client = record { id = "c"; name = "app"; redirect_uris = "https://r" ∷ [] }

abbrev pub provider : OauthProvider
provider = record {
  public_base = "https://z";
  admin_pin = "abcdefghijklmnopqrstuvwxyz";
  jwt_secret = "secret";
  clients = ("c", client) ∷ [];
  codes = [];
  clients_file = "/clients.json";
}

abbrev params : AuthorizeParams
params = record {
  response_type = "code";
  client_id = "c";
  redirect_uri = "https://r";
  code_challenge = "AA";
  code_challenge_method = "S256";
  scope = "";
  resource = "";
  state = "";
}

-- the code of the bytes 0, 16, 131
abbrev pub the_code : String
the_code = "ABCD"

abbrev entry : AuthorizationCode
entry = record {
  code = the_code;
  client_id = "c";
  redirect_uri = "https://r";
  code_challenge = "AA";
  scope = execute_scope;
  resource = "https://z/mcp";
  created_at = 100;
}

abbrev pub issued : OauthProvider
issued = record provider { codes = (the_code, entry) ∷ [] }

abbrev pub the_token : String
the_token = sign_token services (claims_of issued entry) "secret"

issues :
    issue_authorization_code (some (0 ∷ 16 ∷ 131 ∷ [])) 100 params provider
    ≡ (done the_code, issued)
unfolding issue_authorization_code encode put
issues = refl

meets : verify_pkce services "AA" "v" ≡ true
unfolding verify_pkce constant_time_compare encode utf8
meets = refl

exchanges :
    exchange_authorization_code services 200 the_code "c" "https://r" "v" issued
    ≡ (done the_token, record issued { codes = [] })
unfolding exchange_authorization_code get remove verify_pkce constant_time_compare encode utf8
exchanges = refl

pub the_code-absent : get {K = String} {V = AuthorizationCode} the_code [] ≡ none
unfolding get
the_code-absent = refl

named : ◌≢◌ {A = String} "c" ""
named e = ground (arith, (eq_iff "c" "").1 e)

named_file : ◌≢◌ {A = String} "/clients.json" ""
named_file e = ground (arith, (eq_iff "/clients.json" "").1 e)

issue-bounded_example :
    length (issue_authorization_code (some (0 ∷ 16 ∷ 131 ∷ [])) 100 params provider).1.codes
    ≤ max_codes
issue-bounded_example = issue-bounded (some (0 ∷ 16 ∷ 131 ∷ [])) 100 params provider (omega arith)

issue-exchange-verify_example :
    (token : String) × ((exchange_authorization_code services 200 the_code "c" "https://r" "v"
        issued).0
      ≡ done token)
    × (verify_token services token "https://z" "secret"
        ≡ done (claims_of provider (new_entry the_code 100 params provider)))
unfolding new_entry
issue-exchange-verify_example =
    issue-exchange-verify services services-Documented (0 ∷ 16 ∷ 131 ∷ []) 100 200 params "v"
      the_code provider issued issues (omega arith) meets named refl

exchange_sound_example :
    (entry : AuthorizationCode) × (get the_code issued.codes ≡ some entry)
    × (200 ≤ entry.created_at + code_ttl)
    × (entry.client_id ≡ "c")
    × (entry.redirect_uri ≡ "https://r")
    × (verify_pkce services entry.code_challenge "v" ≡ true)
    × (the_token ≡ sign_token services (claims_of issued entry) "secret")
exchange_sound_example =
    exchange_sound services 200 the_code "c" "https://r" "v" issued (record issued { codes = [] })
      the_token (the_code-absent, tt) exchanges

exchange_once_example :
    (exchange_authorization_code services 201 the_code "c" "https://r" "v"
      (record issued { codes = [] })).0
    ≡ fail "invalid grant"
exchange_once_example =
    exchange_once services 200 201 the_code "c" "https://r" "v" "c" "https://r" "v" issued
      (record issued { codes = [] }) the_token exchanges

reads_claims : services.unmarshal (services.marshal claims) ≡ some claims
reads_claims = refl

verify-sign_example :
    verify_token services (sign_token services claims "secret") "https://z" "secret"
    ≡ check_claims services "https://z" claims
verify-sign_example =
    verify-sign services services-Documented claims "https://z" "secret" reads_claims

verifies : verify_token services the_token "https://z" "secret" ≡ done claims
unfolding verify_token sign_token split_dots encode decode constant_time_compare check_claims
verifies = refl

verify_token-IsSigned_example : IsSigned services the_token "secret" × IsGranted "https://z" claims
verify_token-IsSigned_example =
    verify_token-IsSigned services the_token "https://z" "secret" claims verifies

new_token_verifier-Scoped_example : Scoped services "https://z" "secret" the_token (record {
  scopes = execute_scope ∷ [];
  user_id = claims.subject;
  client_id = claims.client_id;
  issuer = "https://z";
})
unfolding new_token_verifier verify_token sign_token split_dots encode decode constant_time_compare
    check_claims fields_of
new_token_verifier-Scoped_example =
    new_token_verifier-Scoped services "https://z" "secret" the_token
      (record {
        scopes = execute_scope ∷ [];
        user_id = claims.subject;
        client_id = claims.client_id;
        issuer = "https://z";
      })
      refl

abbrev disk : Disk
disk = record { primary = some (stored (state_of provider)); backup = none }

-- the new file cannot be put into place, nor the old one be put back
abbrev faults : Faults
faults = record {
  make_dir = none;
  create_temp = none;
  write_temp = none;
  stat = none;
  keeps_old_backup = false;
  to_backup = none;
  install = some "no space";
  restore_fails = true;
  keeps_backup = false;
}

write-Safe_example :
    Safe
      (read_oauth_clients_state disk)
      (state_of issued)
      (write_oauth_clients_atomic faults (state_of issued) disk)
write-Safe_example = write-Safe faults (state_of issued) disk tt

abbrev input : Registration
input = record { redirect_uris = "https://q" ∷ []; client_name = "new" }

d-absent : get "d" provider.clients ≡ none
unfolding get
d-absent = refl

register_client-Answered_example :
    Answered "d"
      (client_of "d" input)
      provider
      disk
      (register_client faults "d" input provider disk)
register_client-Answered_example =
    register_client-Answered faults "d" input provider disk named_file tt d-absent

pin_fits : length (utf8 "abcdefghijklmnopqrstuvwxyz") ≤ 512
unfolding utf8
pin_fits = omega arith

presented_fits : length (utf8 "abc") < 2 ^ 32
unfolding utf8
presented_fits = omega arith

constant_time_pin_equal_iff_example :
    (constant_time_pin_equal "abcdefghijklmnopqrstuvwxyz" "abc" ≡ true)
    ↔ (utf8 "abcdefghijklmnopqrstuvwxyz" ≡ utf8 "abc")
constant_time_pin_equal_iff_example =
    constant_time_pin_equal_iff "abcdefghijklmnopqrstuvwxyz" "abc" pin_fits presented_fits
