-- ===== src/Gateway/Jwt/Scoped.antt =====
-- What the verifier that protects `/mcp` tells of a token.
use zshell_gateway.Base.{String, ◌≡◌, refl, sym, ◌∙◌, ap, List, [], ◌∷◌}
use zshell_gateway.Text.Split.{fields_of}
use zshell_gateway.Gateway.Types.{AccessClaims, Outcome, done, fail, Services}
use zshell_gateway.Gateway.Jwt.{
  execute_scope, TokenInfo, Verified, accepted, invalid_token, token_info, verify_token,
  new_token_verifier,
}
use zshell_gateway.Gateway.Jwt.Signed.{IsSigned, verify_token-IsSigned}

execute_scope_alone : fields_of execute_scope ≡ execute_scope ∷ []
unfolding fields_of
execute_scope_alone = refl

-- The token was signed with the secret, and its information is this server's: the one scope to execute.
abbrev pub Scoped : (x : Services) → String → String → String → TokenInfo → Type 0
Scoped x public_base secret token info =
    IsSigned x token secret × (info.scopes ≡ execute_scope ∷ []) × (info.issuer ≡ public_base)

-- the parts of an accepted answer
abbrev scopes_in : Verified → List String
scopes_in (accepted info) = info.scopes
scopes_in (invalid_token _) = []

abbrev issuer_in : Verified → String
issuer_in (accepted info) = info.issuer
issuer_in (invalid_token _) = ""

granted_info :
    (x : Services) (public_base secret token : String) (info : TokenInfo) (o : Outcome AccessClaims)
    → verify_token x token public_base secret ≡ o
    → token_info o ≡ accepted info
    → Scoped x public_base secret token info
unfolding token_info
granted_info x public_base secret token info (fail e) v h = absurd (cc h)
granted_info x public_base secret token info (done claims) v h =
    let (signed, granted) = verify_token-IsSigned x token public_base secret claims v in
    (signed, scopes_of h ∙ ap fields_of granted.2 ∙ execute_scope_alone, issuer_of h ∙ granted.0)
  where
    scopes_of : token_info (done claims) ≡ accepted info → info.scopes ≡ fields_of claims.scope
    scopes_of h = ap scopes_in (sym h)

    issuer_of : token_info (done claims) ≡ accepted info → info.issuer ≡ claims.issuer
    issuer_of h = ap issuer_in (sym h)

-- A token that the verifier of `/mcp` accepts was signed with the secret (its third part decodes to the HMAC of
-- the first two), and it is told to carry exactly the scope to execute, from this server as its issuer.
pub new_token_verifier-Scoped :
    (x : Services) (public_base secret token : String) (info : TokenInfo)
    → new_token_verifier x public_base secret token ≡ accepted info
    → Scoped x public_base secret token info
unfolding new_token_verifier
new_token_verifier-Scoped x public_base secret token info h =
    granted_info x public_base secret token info (verify_token x token public_base secret) refl h
