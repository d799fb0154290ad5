-- ===== src/Gateway/Codes/Issue.antt =====
-- From the code that is issued to the token that is accepted.
use zshell_gateway.Base.{
  ℕ, ◌+◌, ◌≤◌, ◌<◌, String, ◌≡◌, refl, ap, ◌∙◌, sym, ◌≢◌, Bool, true, false, List, Option, none,
  some, leb, if◌then◌else◌, length, string_eq, eq_refl, arith, if-elim, str_ne,
}
use zshell_gateway.Dict.{get, put, get-put_self, length-put-le}
use zshell_gateway.Text.Decimal.{concat}
use zshell_gateway.Gateway.Types.{
  AuthorizationCode, OauthProvider, AuthorizeParams, Outcome, done, fail, Services, Documented,
}
use zshell_gateway.Gateway.Jwt.{sign_token, verify_token, check_claims}
use zshell_gateway.Gateway.Jwt.Signed.{verify-sign}
use zshell_gateway.Gateway.Checks.{verify_pkce}
use zshell_gateway.Gateway.Codes.{
  max_codes, code_ttl, is_expired, prune_codes, issue_authorization_code, new_entry, refuses,
  claims_of, exchange_entry, exchange_authorization_code, random_id,
}
use zshell_gateway.Gateway.Codes.Exchange.{get-prune_live, length-prune_codes}

-- Issuing a code leaves at most 2048 codes in the registry, if there were no more before.
pub issue-bounded :
    (random : Option (List ℕ)) (now : ℕ) (params : AuthorizeParams) (p : OauthProvider)
    → length p.codes ≤ max_codes
    → length ((issue_authorization_code random now params p).1.codes) ≤ max_codes
unfolding issue_authorization_code
issue-bounded none now params p h = h
issue-bounded (some bytes) now params p h =
    if-elim {A = Outcome String × OauthProvider} (λ r. length (r.1.codes) ≤ max_codes)
      (leb max_codes (length (prune_codes now p.codes)))
      (fail "authorization code registry is full", record p { codes = prune_codes now p.codes })
      (
        done (random_id "" bytes),
        record p {
          codes =
              put (random_id "" bytes) (new_entry (random_id "" bytes) now params p)
                (prune_codes now p.codes);
        },
      )
      (λ full. omega (arith, length-prune_codes now p.codes))
      (λ room. omega (
        arith,
        not_full room,
        length-put-le (random_id "" bytes) (new_entry (random_id "" bytes) now params p)
            (prune_codes now p.codes),
      ))
  where
    not_full :
        leb max_codes (length (prune_codes now p.codes)) ≡ false
        → length (prune_codes now p.codes) < max_codes
    not_full room = ground (arith, room)

-- what a code that was issued leaves in the registry
issued :
    (bytes : List ℕ) (now : ℕ) (params : AuthorizeParams) (p q : OauthProvider) (code : String)
    → issue_authorization_code (some bytes) now params p ≡ (done code, q)
    → q ≡ record p { codes = put code (new_entry code now params p) (prune_codes now p.codes) }
unfolding issue_authorization_code
issued bytes now params p q code h =
    inverted (leb max_codes (length (prune_codes now p.codes))) (random_id "" bytes) h
  where
    inverted :
        (b : Bool) (c : String)
        → ◌≡◌ {A = Outcome String × OauthProvider}
            (if b
              then (
                fail "authorization code registry is full",
                record p { codes = prune_codes now p.codes },
              )
              else (
                done c,
                record p { codes = put c (new_entry c now params p) (prune_codes now p.codes) },
              ))
            (done code, q)
        → q ≡ record p { codes = put code (new_entry code now params p) (prune_codes now p.codes) }
    inverted true c e = absurd (impossible (ap (λ z. z.0) e))
      where
        impossible : fail "authorization code registry is full" ≢ done code
        impossible e = ground (arith, e)
    inverted false c e =
        sym (ap (λ z. z.1) e)
        ∙ ap (λ y. record p { codes = put y (new_entry y now params p) (prune_codes now p.codes) })
            (text_of (ap (λ z. z.0) e))
      where
        text_of : {a b : String} → done a ≡ done b → a ≡ b
        text_of e = ground (arith, e)

-- the entry of a code is accepted from the client it was issued to
accepted-new :
    (x : Services) (code verifier : String) (now : ℕ) (params : AuthorizeParams) (p : OauthProvider)
    → verify_pkce x params.code_challenge verifier ≡ true
    → refuses x params.client_id params.redirect_uri verifier (some (new_entry code now params p))
      ≡ false
unfolding new_entry
accepted-new x code verifier now params p h =
    ground (arith, h, eq_refl params.client_id, eq_refl params.redirect_uri)

granted :
    (x : Services) (code client_id redirect_uri verifier : String) (entry : AuthorizationCode)
    (p : OauthProvider)
    → refuses x client_id redirect_uri verifier (some entry) ≡ false
    → (exchange_entry x code client_id redirect_uri verifier (some entry) p).0
      ≡ done (sign_token x (claims_of p entry) p.jwt_secret)
unfolding exchange_entry
granted x code client_id redirect_uri verifier entry p h = rw h refl

new-live :
    (code : String) (now later : ℕ) (params : AuthorizeParams) (p : OauthProvider)
    → later ≤ now + code_ttl
    → is_expired later (new_entry code now params p) ≡ false
unfolding new_entry
new-live code now later params p soon = ground (arith, soon)

issued-exchange :
    (x : Services) (bytes : List ℕ) (now later : ℕ) (params : AuthorizeParams)
    (verifier code : String) (p q : OauthProvider)
    → issue_authorization_code (some bytes) now params p ≡ (done code, q)
    → later ≤ now + code_ttl
    → verify_pkce x params.code_challenge verifier ≡ true
    → (exchange_authorization_code x later code params.client_id params.redirect_uri verifier q).0
      ≡ done (sign_token x (claims_of p (new_entry code now params p)) p.jwt_secret)
unfolding exchange_authorization_code
issued-exchange x bytes now later params verifier code p q h soon meets =
    ap
      (λ o.
        (exchange_entry x code params.client_id params.redirect_uri verifier o
          (record q { codes = prune_codes later q.codes })).0)
      kept
    ∙ granted x code params.client_id params.redirect_uri verifier entry
        (record q { codes = prune_codes later q.codes })
        (accepted-new x code verifier now params p meets)
    ∙ ap (λ z. done (sign_token x (claims_of z entry) z.jwt_secret)) stored
  where
    entry : AuthorizationCode
    entry = new_entry code now params p

    stored : q ≡ record p { codes = put code entry (prune_codes now p.codes) }
    stored = issued bytes now params p q code h

    kept : get code (prune_codes later q.codes) ≡ some entry
    kept =
        get-prune_live later code q.codes entry
          (ap (λ z. get code z.codes) stored ∙ get-put_self code entry (prune_codes now p.codes))
          (new-live code now later params p soon)

-- the claims of an issued code pass the checks of this server
own-claims :
    (x : Services) (code : String) (now : ℕ) (params : AuthorizeParams) (p : OauthProvider)
    → params.client_id ≢ ""
    → check_claims x p.public_base (claims_of p (new_entry code now params p))
      ≡ done (claims_of p (new_entry code now params p))
unfolding check_claims new_entry
own-claims x code now params p named =
    rw
      (
        eq_refl p.public_base,
        eq_refl (concat p.public_base "/mcp"),
        str_ne params.client_id "" named,
      )
      refl

-- A code that was issued gives, within five minutes and to a client that shows the same redirect URI
-- and a verifier that meets the challenge, a token that this server accepts, with the claims of the
-- client, if the client's id is not empty, a MAC and JSON are bytes, and JSON reads the claims back as
-- they were written.
pub issue-exchange-verify :
    (x : Services) (doc : Documented x) (bytes : List ℕ) (now later : ℕ) (params : AuthorizeParams)
    (verifier code : String) (p q : OauthProvider)
    → issue_authorization_code (some bytes) now params p ≡ (done code, q)
    → later ≤ now + code_ttl
    → verify_pkce x params.code_challenge verifier ≡ true
    → params.client_id ≢ ""
    → x.unmarshal (x.marshal (claims_of p (new_entry code now params p)))
      ≡ some (claims_of p (new_entry code now params p))
    → (token : String) × ((exchange_authorization_code x later code params.client_id
          params.redirect_uri verifier q).0
        ≡ done token)
      × (verify_token x token p.public_base p.jwt_secret
          ≡ done (claims_of p (new_entry code now params p)))
issue-exchange-verify x doc bytes now later params verifier code p q h soon meets named reads = (
  sign_token x (claims_of p (new_entry code now params p)) p.jwt_secret,
  issued-exchange x bytes now later params verifier code p q h soon meets,
  verify-sign x doc (claims_of p (new_entry code now params p)) p.public_base p.jwt_secret reads
      ∙ own-claims x code now params p named,
)
