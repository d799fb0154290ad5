-- ===== src/Gateway/Jwt.antt =====
-- internal/gateway/jwt.go: access tokens.
use zshell_gateway.Base.{
  ℕ, String, ◌≡◌, refl, Bool, true, false, not, ◌||◌, ◌&&◌, List, [], ◌∷◌, Option, none, some,
  str_beq, nat_beq, if◌then◌else◌,
}
use zshell_gateway.Text.Base64.{encode, decode}
use zshell_gateway.Text.Decimal.{concat}
use zshell_gateway.Text.Utf8.{utf8, split_dots}
use zshell_gateway.Text.Compare.{constant_time_compare}
use zshell_gateway.Gateway.Types.{AccessClaims, Outcome, done, fail, Services}
use zshell_gateway.Text.Split.{fields_of}
pub mod Signed
pub mod Scoped

abbrev pub jwt_header_segment : String
jwt_header_segment = "eyJhbGciOiJIUzI1NiIsInR5cCI6IkpXVCJ9"

abbrev pub execute_scope : String
execute_scope = "zshell:execute"

-- `mcpauth.TokenInfo` with its `Extra`
pub record TokenInfo : Type 0 where
  pub scopes : List String
  pub user_id : String
  pub client_id : String
  pub issuer : String

-- What a verifier returns: the token's information, or `ErrInvalidToken` with its reason.
pub data Verified : Type 0 where
  accepted : TokenInfo → Verified
  invalid_token : String → Verified

unfoldable pub token_info : Outcome AccessClaims → Verified
unfolding fields_of
token_info (fail e) = invalid_token e
token_info (done claims) = accepted (record {
  scopes = fields_of claims.scope;
  user_id = claims.subject;
  client_id = claims.client_id;
  issuer = claims.issuer;
})

module _ (x : Services) where
  -- `signToken`; marshalling texts and writing to a MAC cannot fail
  unfoldable pub sign_token : AccessClaims → String → String
  sign_token claims secret =
      let payload_segment = encode (x.marshal claims) in
      let signing_input = concat jwt_header_segment (concat "." payload_segment) in
      let signature = encode (x.hmac (utf8 secret) (utf8 signing_input)) in
      concat signing_input (concat "." signature)

  -- the claims of a payload whose signature is right
  unfoldable pub check_claims : String → AccessClaims → Outcome AccessClaims
  check_claims public_base claims =
      if not (str_beq claims.issuer public_base)
      then fail "JWT issuer mismatch"
      else if not (str_beq claims.audience (concat public_base "/mcp"))
      then fail "JWT audience mismatch"
      else if str_beq claims.subject "" || str_beq claims.client_id ""
      then fail "JWT subject or client_id is empty"
      else if not (str_beq claims.scope execute_scope)
      then fail "JWT scope mismatch"
      else done claims

  unfoldable pub read_claims : String → String → Outcome AccessClaims
  unfolding check_claims
  read_claims segment public_base = elim (decode segment) [
    | none ↦ fail "malformed JWT payload"
    | some payload ↦ elim (x.unmarshal payload) [
      | none ↦ fail "invalid JWT claims"
      | some claims ↦ check_claims public_base claims
    ]
  ]

  -- `verifyToken`
  unfoldable pub verify_parts : List String → String → String → Outcome AccessClaims
  unfolding read_claims constant_time_compare
  verify_parts (header ∷ payload ∷ signature_text ∷ []) public_base secret =
      if not (str_beq header jwt_header_segment)
      then fail "unexpected JWT header"
      else elim (decode signature_text) [
        | none ↦ fail "malformed JWT signature"
        | some signature ↦
            if not (
              constant_time_compare signature
                (x.hmac (utf8 secret) (utf8 (concat header (concat "." payload)))))
            then fail "invalid JWT signature"
            else read_claims payload public_base
      ]
  verify_parts _ public_base secret = fail "malformed JWT"

  unfoldable pub verify_token : String → String → String → Outcome AccessClaims
  unfolding verify_parts
  verify_token token public_base secret = verify_parts (split_dots token) public_base secret

  -- the function that `NewTokenVerifier` returns
  unfoldable pub new_token_verifier : String → String → String → Verified
  unfolding verify_token token_info
  new_token_verifier public_base secret token = token_info (verify_token token public_base secret)
