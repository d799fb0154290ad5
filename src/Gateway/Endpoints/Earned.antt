-- ===== src/Gateway/Endpoints/Earned.antt =====
-- What the token endpoint gives a token for.
use zshell_gateway.Base.{
  ℕ, ◌+◌, ◌≤◌, String, ◌≡◌, refl, ap, ◌∙◌, inl, inr, true, ◌||◌, ◌⊎◌, some, str_beq, string_eq,
  Bool-cases, Option-cases, eq_iff, arith,
}
use zshell_gateway.Dict.{get, Distinct}
use zshell_gateway.Gateway.Types.{AuthorizationCode, OauthProvider, Outcome, done, fail, Services}
use zshell_gateway.Gateway.Jwt.{sign_token, execute_scope}
use zshell_gateway.Gateway.Checks.{
  Values, singleton, valid_pkce_verifier, verify_pkce, is_media_type, resource_uri,
}
use zshell_gateway.Gateway.Codes.{code_ttl, claims_of, exchange_authorization_code}
use zshell_gateway.Gateway.Codes.Exchange.{exchange_sound}
use zshell_gateway.Gateway.Endpoints.{
  token, Request, TokenParams, token_params, token_response, grant, handle_token,
}

pub Outcome-cases :
    {A : Type 0} (o : Outcome A) → ((e : String) × (o ≡ fail e)) ⊎ ((a : A) × (o ≡ done a))
Outcome-cases (fail e) = inl (e, refl)
Outcome-cases (done a) = inr (a, refl)

-- The code stands in the registry, is not older than five minutes, was issued to the client for the redirect
-- URI, and its challenge is met; the token is signed for it.
pub record IsRedeemed (x : Services) (now : ℕ) (t : TokenParams) (p : OauthProvider) (text : String)
    : Type 0 where
  pub entry : AuthorizationCode
  pub found : get t.code p.codes ≡ some entry
  pub fresh : now ≤ entry.created_at + code_ttl
  pub client : entry.client_id ≡ t.client_id
  pub redirect : entry.redirect_uri ≡ t.redirect_uri
  pub met : verify_pkce x entry.code_challenge t.verifier ≡ true
  pub signed : text ≡ sign_token x (claims_of p entry) p.jwt_secret

-- A form for an authorization code was posted, for this server's resource or none, and redeems its code.
pub record IsEarned (x : Services) (now : ℕ) (r : Request Values) (p : OauthProvider)
    (text : String) : Type 0 where
  pub form : Values
  pub params : TokenParams
  pub method : r.method ≡ "POST"
  pub body : r.body ≡ some form
  pub kind : singleton form "grant_type" true ≡ done "authorization_code"
  pub parsed : token_params form ≡ done params
  pub resource : (str_beq params.resource "" || str_beq params.resource (resource_uri p)) ≡ true
  pub redeemed : IsRedeemed x now params p text

answered :
    (o : Outcome String × OauthProvider) (text scope : String) (q : OauthProvider)
    → token_response o ≡ (token text scope, q)
    → (o ≡ (done text, q)) × (scope ≡ execute_scope)
answered (fail e, p) text scope q h = absurd (ground (arith, h))
answered (done u, p) text scope q h = (cc h, ground (arith, h))

module _ (x : Services) (now : ℕ) (p q : OauthProvider) (text scope : String) where
  granted :
      (t : TokenParams)
      → grant x now t p ≡ (token text scope, q)
      → ((str_beq t.resource "" || str_beq t.resource (resource_uri p)) ≡ true)
        × (token_response
              (exchange_authorization_code x now t.code t.client_id t.redirect_uri t.verifier p)
            ≡ (token text scope, q))
  unfolding grant
  granted t h = elim (Bool-cases (valid_pkce_verifier t.verifier)) [
    | inr e ↦ absurd (ground (arith, e, h))
    | inl e ↦ elim (Bool-cases (str_beq t.resource "" || str_beq t.resource (resource_uri p))) [
      | inr b ↦ absurd (ground (arith, e, b, h))
      | inl b ↦ (b, ground (arith, e, b, h))
    ]
  ]

  redeemed :
      (t : TokenParams)
      → Distinct p.codes
      → exchange_authorization_code x now t.code t.client_id t.redirect_uri t.verifier p
        ≡ (done text, q)
      → IsRedeemed x now t p text
  redeemed t d h =
      let (entry, found, fresh, client, redirect, met, signed) =
        exchange_sound x now t.code t.client_id t.redirect_uri t.verifier p q text d h in
      record {
        entry = entry;
        found = found;
        fresh = fresh;
        client = client;
        redirect = redirect;
        met = met;
        signed = signed;
      }

  -- The token endpoint answers with a token only where a form for an authorization code was posted, for this
  -- server's resource or none, with a code that stands in the registry, is not older than five minutes, was issued
  -- to the form's client for the form's redirect URI, and whose challenge the form's verifier meets. The token is
  -- signed for the client of the code, and its scope is the scope to execute. (No code has two entries.)
  pub handle_token-IsEarned :
      (r : Request Values)
      → Distinct p.codes
      → handle_token x now r p ≡ (token text scope, q)
      → IsEarned x now r p text × (scope ≡ execute_scope)
  unfolding handle_token
  handle_token-IsEarned r d h = elim (Bool-cases (str_beq r.method "POST")) [
    | inr a ↦ absurd (ground (arith, a, h))
    | inl a ↦
        elim (Bool-cases (is_media_type x r.content_type "application/x-www-form-urlencoded")) [
          | inr b ↦ absurd (ground (arith, a, b, h))
          | inl b ↦ elim (Option-cases r.body) [
            | inl c ↦ absurd (ground (arith, a, b, c, h))
            | inr (form, c) ↦ elim (Outcome-cases (singleton form "grant_type" true)) [
              | inl (e, k) ↦ absurd (ground (arith, a, b, c, k, h))
              | inr (kind, k) ↦ elim (Bool-cases (str_beq kind "authorization_code")) [
                | inr g ↦ absurd (ground (arith, a, b, c, k, g, h))
                | inl g ↦ elim (Outcome-cases (token_params form)) [
                  | inl (e, t) ↦ absurd (ground (arith, a, b, c, k, g, t, h))
                  | inr (params, t) ↦
                      let (fine, exchanged) =
                        granted params (ground (arith, a, b, c, k, g, t, h)) in
                      let (done_with, right) = answered _ text scope q exchanged in
                      (
                        record {
                          form = form;
                          params = params;
                          method = (eq_iff r.method "POST").0 a;
                          body = c;
                          kind = k ∙ ap done ((eq_iff kind "authorization_code").0 g);
                          parsed = t;
                          resource = fine;
                          redeemed = redeemed params d done_with;
                        },
                        right,
                      )
                ]
              ]
            ]
          ]
        ]
  ]
