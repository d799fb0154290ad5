-- ===== src/Gateway/Endpoints/Authorized.antt =====
-- Who is sent back with a code.
use zshell_gateway.Base.{
  ℕ, suc, ◌≤◌, ◌<◌, ◌^◌, String, ◌≡◌, refl, sym, ap, ◌∙◌, inl, inr, true, ◌||◌, List, [], ◌∷◌, ◌++◌,
  Option, none, some, str_beq, eq_iff, arith, Bool-cases, Option-cases, string_eq, length,
  get_elem?,
}
use zshell_gateway.Dict.{get}
use zshell_gateway.Text.Utf8.{utf8}
use zshell_gateway.Gateway.Types.{
  OauthClient, OauthProvider, AuthorizeParams, Outcome, done, fail, Services,
}
use zshell_gateway.Gateway.Checks.{
  Values, singleton, parse_authorize_values, constant_time_pin_equal, is_media_type,
  validate_authorize, valid_pkce_challenge, registered, resource_uri,
}
use zshell_gateway.Gateway.Checks.Pin.{constant_time_pin_equal_iff}
use zshell_gateway.Gateway.Jwt.{execute_scope}
use zshell_gateway.Gateway.Codes.{issue_authorization_code}
use zshell_gateway.Gateway.Endpoints.{
  redirect, Request, query_of, state_query, redirect_with, check_pin, authorize_post,
  handle_authorize,
}
use zshell_gateway.Gateway.Endpoints.Earned.{Outcome-cases}

-- The redirect URI is one that the client registered, and the rest asks for what this server gives.
pub record IsValid (params : AuthorizeParams) (p : OauthProvider) : Type 0 where
  pub client : OauthClient
  pub place : ℕ
  pub known : get params.client_id p.clients ≡ some client
  pub listed : get_elem? client.redirect_uris place ≡ some params.redirect_uri
  pub kind : params.response_type ≡ "code"
  pub challenge : valid_pkce_challenge params.code_challenge ≡ true
  pub method : params.code_challenge_method ≡ "S256"
  pub scope : (str_beq params.scope "" || str_beq params.scope execute_scope) ≡ true
  pub resource : (str_beq params.resource "" || str_beq params.resource (resource_uri p)) ≡ true

-- What a request shows that is answered by a redirection to the location: a posted form with valid parameters
-- and the administrator's PIN. The code is issued for these, and the location is their redirect URI.
pub record IsApproved (x : Services) (random : Option (List ℕ)) (now : ℕ) (r : Request Values)
    (p q : OauthProvider) (location : String) : Type 0 where
  pub form : Values
  pub params : AuthorizeParams
  pub pin : String
  pub code : String
  pub method : r.method ≡ "POST"
  pub body : r.body ≡ some form
  pub parsed : parse_authorize_values form ≡ done params
  pub valid : IsValid params p
  pub entered : singleton form "pin" true ≡ done pin
  pub correct : utf8 p.admin_pin ≡ utf8 pin
  pub issued : issue_authorization_code random now params p ≡ (done code, q)
  pub sent :
      x.set_query params.redirect_uri
        (("code", code) ∷ (state_query params.state ++ ("iss", q.public_base) ∷ []))
      ≡ some location

registered-listed :
    (uri : String) (uris : List String)
    → registered uri uris ≡ true
    → (k : ℕ) × (get_elem? uris k ≡ some uri)
unfolding registered
registered-listed uri [] h = absurd (cc h)
registered-listed uri (first ∷ rest) h = elim (Bool-cases (str_beq first uri)) [
  | inl same ↦ (0, ap some ((eq_iff first uri).0 same))
  | inr differs ↦
      let (k, at) = registered-listed uri rest (ground (arith, differs, h)) in (suc k, at)
]

validate_authorize-IsValid :
    (params : AuthorizeParams) (p : OauthProvider)
    → validate_authorize params p ≡ none
    → IsValid params p
unfolding validate_authorize
validate_authorize-IsValid params p h = elim (Option-cases (get params.client_id p.clients)) [
  | inl e ↦ absurd (ground (arith, e, h))
  | inr (client, e) ↦
      let (k, at) =
        registered-listed params.redirect_uri client.redirect_uris (ground (arith, e, h)) in
      record {
        client = client;
        place = k;
        known = e;
        listed = at;
        kind = ground (arith, e, h, eq_iff params.response_type "code");
        challenge = ground (arith, e, h);
        method = ground (arith, e, h, eq_iff params.code_challenge_method "S256");
        scope = ground (arith, e, h);
        resource = ground (arith, e, h);
      }
]

module _ (x : Services) (random : Option (List ℕ)) (now : ℕ) (p q : OauthProvider)
    (location : String) where
  -- the code and the location of a redirection
  redirected :
      (params : AuthorizeParams) (o : Outcome String × OauthProvider)
      → redirect_with x params o ≡ (redirect location, q)
      → (code : String) × (o ≡ (done code, q))
        × (x.set_query params.redirect_uri
              (("code", code) ∷ (state_query params.state ++ ("iss", q.public_base) ∷ []))
            ≡ some location)
  unfolding redirect_with
  redirected params (fail e, p') h = absurd (ground (arith, h))
  redirected params (done code, p') h =
      elim (Option-cases (
        x.set_query params.redirect_uri
          (("code", code) ∷ (state_query params.state ++ ("iss", p'.public_base) ∷ [])))) [
            | inl e ↦ absurd (ground (arith, e, h))
            | inr (l, e) ↦
                let same : p' ≡ q = ground (arith, e, h) in
                let there : l ≡ location = ground (arith, e, h) in
                (
                  code,
                  ap (λ y. (done code, y)) same,
                  ap
                        (λ (y : OauthProvider). x.set_query params.redirect_uri (
                          ("code", code)
                          ∷ (state_query params.state ++ ("iss", y.public_base) ∷ [])))
                        (sym same)
                      ∙ e
                      ∙ ap some there,
                )
          ]

  pinned :
      (params : AuthorizeParams) (o : Outcome String)
      → check_pin x random now params o p ≡ (redirect location, q)
      → (pin : String) × (o ≡ done pin)
        × (constant_time_pin_equal p.admin_pin pin ≡ true)
        × (redirect_with x params (issue_authorization_code random now params p)
            ≡ (redirect location, q))
  unfolding check_pin
  pinned params (fail e) h = absurd (ground (arith, h))
  pinned params (done pin) h = elim (Bool-cases (constant_time_pin_equal p.admin_pin pin)) [
    | inr e ↦ absurd (ground (arith, e, h))
    | inl e ↦ (pin, refl, e, ground (arith, e, h))
  ]

  approved :
      (r : Request Values) (form : Values) (params : AuthorizeParams)
      → r.method ≡ "POST"
      → r.body ≡ some form
      → parse_authorize_values form ≡ done params
      → length (utf8 p.admin_pin) ≤ 512
      → ((pin : String) → singleton form "pin" true ≡ done pin → length (utf8 pin) < 2 ^ 32)
      → authorize_post x random now form params p ≡ (redirect location, q)
      → IsApproved x random now r p q location
  unfolding authorize_post
  approved r form params method body parsed short fits h =
      elim (Option-cases (validate_authorize params p)) [
        | inr (text, e) ↦ absurd (ground (arith, e, h))
        | inl e ↦
            let (pin, entered, correct, went) =
              pinned params (singleton form "pin" true) (ground (arith, e, h)) in
            let (code, issued, sent) = redirected params _ went in
            record {
              form = form;
              params = params;
              pin = pin;
              code = code;
              method = method;
              body = body;
              parsed = parsed;
              valid = validate_authorize-IsValid params p e;
              entered = entered;
              correct =
                  (constant_time_pin_equal_iff p.admin_pin pin short (fits pin entered)).0 correct;
              issued = issued;
              sent = sent;
            }
      ]

  -- The authorization endpoint answers with a redirection only when a form was posted that names a registered
  -- client and one of the redirect URIs which that client registered, asks for a code with a PKCE S256
  -- challenge, this server's scope and resource or none, and holds the administrator's PIN, byte for byte. A code is
  -- then issued for these parameters, and the redirection goes to their redirect URI with the code. (The
  -- administrator's PIN has at most 512 bytes, and the one in the form fewer than 2^32.)
  pub handle_authorize-IsApproved :
      (r : Request Values)
      → length (utf8 p.admin_pin) ≤ 512
      → ((form : Values) (pin : String)
          → r.body ≡ some form
          → singleton form "pin" true ≡ done pin
          → length (utf8 pin) < 2 ^ 32)
      → handle_authorize x random now r p ≡ (redirect location, q)
      → IsApproved x random now r p q location
  unfolding handle_authorize
  handle_authorize-IsApproved r short fits h = elim (Bool-cases (str_beq r.method "GET")) [
    | inl a ↦ elim (Outcome-cases (parse_authorize_values (query_of r.body))) [
      | inl (e, k) ↦ absurd (ground (arith, a, k, h))
      | inr (params, k) ↦ absurd (ground (arith, a, k, h))
    ]
    | inr a ↦ elim (Bool-cases (str_beq r.method "POST")) [
      | inr b ↦ absurd (ground (arith, a, b, h))
      | inl b ↦
          elim (Bool-cases (is_media_type x r.content_type "application/x-www-form-urlencoded")) [
            | inr c ↦ absurd (ground (arith, a, b, c, h))
            | inl c ↦ elim (Option-cases r.body) [
              | inl d ↦ absurd (ground (arith, a, b, c, d, h))
              | inr (form, d) ↦ elim (Outcome-cases (parse_authorize_values form)) [
                | inl (e, k) ↦ absurd (ground (arith, a, b, c, d, k, h))
                | inr (params, k) ↦
                    approved r form params ((eq_iff r.method "POST").0 b) d k short
                      (λ pin. fits form pin d) (ground (arith, a, b, c, d, k, h))
              ]
            ]
          ]
    ]
  ]
