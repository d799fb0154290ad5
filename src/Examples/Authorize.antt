-- ===== src/Examples/Authorize.antt =====
-- A form with the PIN at the authorization endpoint.
use mathlib.Core.Path.{subst}
use zshell_gateway.Base.{◌<◌, ◌^◌, String, true, length, arith, ◌≡◌, refl, [], ◌∷◌, some, string_eq}
use zshell_gateway.Dict.{get, put, remove}
use zshell_gateway.Text.Base64.{encode}
use zshell_gateway.Text.Hex.{to_lower}
use zshell_gateway.Text.Trim.{byte_len}
use zshell_gateway.Text.Utf8.{utf8}
use zshell_gateway.Gateway.Types.{OauthProvider, AuthorizeParams, Services, done}
use zshell_gateway.Text.Compare.{constant_time_compare}
use zshell_gateway.Gateway.Checks.{
  Values, is_media_type, parse_authorize_values, validate_authorize, valid_pkce_challenge,
  constant_time_pin_equal, valid_pkce_verifier, verify_pkce, singleton,
}
use zshell_gateway.Gateway.Codes.{new_entry, issue_authorization_code, exchange_authorization_code}
use zshell_gateway.Gateway.Endpoints.{redirect, token, Request, handle_authorize, handle_token}
use zshell_gateway.Gateway.Endpoints.Earned.{IsEarned, handle_token-IsEarned}
use zshell_gateway.Gateway.Jwt.{sign_token, execute_scope}
use zshell_gateway.Gateway.Endpoints.Authorized.{IsApproved, handle_authorize-IsApproved}
use zshell_gateway.Examples.Oauth.{services, provider, issued, the_token, the_code, the_code-absent}

abbrev the_form : Values
the_form =
    ("response_type", "code" ∷ [])
    ∷ ("client_id", "c" ∷ [])
    ∷ ("redirect_uri", "https://r" ∷ [])
    ∷ ("code_challenge", "abcdefghijklmnopqrstuvwxyzABCDEFGHIJKLMNOPQ" ∷ [])
    ∷ ("code_challenge_method", "S256" ∷ [])
    ∷ ("pin", "abcdefghijklmnopqrstuvwxyz" ∷ [])
    ∷ []

abbrev the_params : AuthorizeParams
the_params = record {
  response_type = "code";
  client_id = "c";
  redirect_uri = "https://r";
  code_challenge = "abcdefghijklmnopqrstuvwxyzABCDEFGHIJKLMNOPQ";
  code_challenge_method = "S256";
  scope = "";
  resource = "";
  state = "";
}

abbrev posted_issued : OauthProvider
posted_issued = record provider {
  codes = (the_code, new_entry the_code 100 the_params provider) ∷ [];
}

abbrev posted : Request Values
posted = record {
  method = "POST";
  content_type = "application/x-www-form-urlencoded";
  body = some the_form;
}

abbrev form_services : Services
form_services = record services {
  media_type = λ header. some header;
  set_query = λ uri _. some uri;
}

redirects :
    handle_authorize form_services (some (0 ∷ 16 ∷ 131 ∷ [])) 100 posted provider
    ≡ (redirect "https://r", posted_issued)
unfolding handle_authorize is_media_type to_lower parse_authorize_values get validate_authorize
    valid_pkce_challenge byte_len constant_time_pin_equal constant_time_compare utf8
    issue_authorization_code encode put
redirects = refl

short_pin :
    (form : Values) (pin : String)
    → posted.body ≡ some form
    → singleton form "pin" true ≡ done pin
    → length (utf8 pin) < 2 ^ 32
unfolding singleton get utf8
short_pin form pin h e =
    let entered : done provider.admin_pin ≡ done pin =
      subst (λ f. singleton f "pin" true ≡ done pin) (of_some h) e in
    subst (λ t. length (utf8 t) < 2 ^ 32) (of_done entered) (omega arith)
  where
    of_some : posted.body ≡ some form → form ≡ the_form
    of_some h = cc h

    of_done : done provider.admin_pin ≡ done pin → provider.admin_pin ≡ pin
    of_done h = ground (arith, h)

handle_authorize-IsApproved_example :
    IsApproved form_services
      (some (0 ∷ 16 ∷ 131 ∷ []))
      100
      posted
      provider
      posted_issued
      "https://r"
unfolding utf8
handle_authorize-IsApproved_example =
    handle_authorize-IsApproved form_services (some (0 ∷ 16 ∷ 131 ∷ [])) 100 provider posted_issued
      "https://r" posted (omega arith) short_pin redirects

abbrev redeems : Request Values
redeems = record {
  method = "POST";
  content_type = "application/x-www-form-urlencoded";
  body = some (
      ("grant_type", "authorization_code" ∷ [])
      ∷ ("code", the_code ∷ [])
      ∷ ("client_id", "c" ∷ [])
      ∷ ("redirect_uri", "https://r" ∷ [])
      ∷ ("code_verifier", "abcdefghijklmnopqrstuvwxyzABCDEFGHIJKLMNOPQ" ∷ [])
      ∷ []);
}

answers :
    handle_token form_services 200 redeems issued
    ≡ (token the_token execute_scope, record issued { codes = [] })
unfolding handle_token is_media_type to_lower get valid_pkce_verifier byte_len
    exchange_authorization_code remove verify_pkce constant_time_compare encode utf8 sign_token
    singleton
answers = refl

handle_token-IsEarned_example :
    IsEarned form_services 200 redeems issued the_token × (execute_scope ≡ execute_scope)
handle_token-IsEarned_example =
    handle_token-IsEarned form_services 200 issued (record issued { codes = [] }) the_token
      execute_scope redeems (the_code-absent, tt) answers
