-- ===== src/Gateway/Jwt/Signed.antt =====
-- What a signature is worth: `verifyToken` against `signToken`.
use text.Mathlib.TextLemmas.{append_assoc}
use zshell_gateway.Base.{
  ℕ, String, ◌≡◌, refl, ap, ◌∙◌, sym, ◌≢◌, inl, inr, not, List, [], ◌∷◌, none, some, str_beq,
  if◌then◌else◌, Option-cases, eq_iff, arith,
}
use zshell_gateway.Text.Base64.{encode, decode, decode-encode, encode-NoDot}
use zshell_gateway.Text.Decimal.{concat}
use zshell_gateway.Text.Utf8.{
  utf8, split_dots, split_dots-append, split_dots_one, NoDot, has_no_dot_sound,
}
use zshell_gateway.Text.Compare.{constant_time_compare, constant_time_compare_iff, compare_refl}
use zshell_gateway.Gateway.Types.{AccessClaims, Outcome, done, fail, Services, Documented}
use zshell_gateway.Gateway.Jwt.{
  jwt_header_segment, execute_scope, sign_token, check_claims, read_claims, verify_parts,
  verify_token,
}

header-NoDot : NoDot jwt_header_segment
header-NoDot = has_no_dot_sound jwt_header_segment refl

-- The three parts of a token that was signed.
split-sign :
    (p s : String)
    → NoDot p
    → NoDot s
    → split_dots (concat (concat jwt_header_segment (concat "." p)) (concat "." s))
      ≡ jwt_header_segment ∷ p ∷ s ∷ []
split-sign p s hp hs =
    ap split_dots (
      append_assoc jwt_header_segment (concat "." p) (concat "." s)
      ∙ ap (concat jwt_header_segment) (append_assoc "." p (concat "." s)))
    ∙ split_dots-append jwt_header_segment (concat p (concat "." s)) header-NoDot
    ∙ ap (λ parts. jwt_header_segment ∷ parts)
        (split_dots-append p s hp ∙ ap (λ parts. p ∷ parts) (split_dots_one s hs))

module _ (x : Services) (doc : Documented x) where
  -- A token that was signed with a secret verifies under the same secret, and gives the claims that
  -- were signed exactly when they pass the checks of issuer, audience, subject, client and scope,
  -- if JSON reads these claims back as they were written and a MAC and JSON are bytes.
  pub verify-sign :
      (claims : AccessClaims) (public_base secret : String)
      → x.unmarshal (x.marshal claims) ≡ some claims
      → verify_token x (sign_token x claims secret) public_base secret
        ≡ check_claims x public_base claims
  unfolding verify_token sign_token
  verify-sign claims public_base secret reads =
      ap (λ parts. verify_parts x parts public_base secret)
        (split-sign payload signature (encode-NoDot _ (doc.marshal-IsBytes claims))
          (encode-NoDot _ (doc.hmac-IsBytes _ _)))
      ∙ verified
    where
      payload : String
      payload = encode (x.marshal claims)

      mac : List ℕ
      mac = x.hmac (utf8 secret) (utf8 (concat jwt_header_segment (concat "." payload)))

      signature : String
      signature = encode mac

      read : read_claims x payload public_base ≡ check_claims x public_base claims
      read =
          rw (read_claims, decode-encode (x.marshal claims) (doc.marshal-IsBytes claims), reads)
            refl

      verified :
          verify_parts x (jwt_header_segment ∷ payload ∷ signature ∷ []) public_base secret
          ≡ check_claims x public_base claims
      verified = rw (verify_parts, decode-encode mac (doc.hmac-IsBytes _ _), compare_refl mac) read

-- The claims name this server as issuer and audience, and the scope to execute.
abbrev pub IsGranted : String → AccessClaims → Type 0
IsGranted public_base claims =
    (claims.issuer ≡ public_base)
    × (claims.audience ≡ concat public_base "/mcp")
    × (claims.scope ≡ execute_scope)

module _ (x : Services) where
  -- The token carries the right header, and its signature is the HMAC of its first two parts.
  abbrev pub IsSigned : String → String → Type 0
  IsSigned token secret =
      (payload : String) × (signature : String) × (split_dots token
        ≡ jwt_header_segment ∷ payload ∷ signature ∷ [])
      × (decode signature
          ≡ some (x.hmac (utf8 secret) (utf8 (concat jwt_header_segment (concat "." payload)))))

  check_claims-IsGranted :
      (public_base : String) (c claims : AccessClaims)
      → check_claims x public_base c ≡ done claims
      → IsGranted public_base claims
  unfolding check_claims
  check_claims-IsGranted public_base c claims h = ground (
    arith,
    h,
    eq_iff c.issuer public_base,
    eq_iff c.audience (concat public_base "/mcp"),
    eq_iff c.scope execute_scope,
  )

  read_claims-IsGranted :
      (segment public_base : String) (claims : AccessClaims)
      → read_claims x segment public_base ≡ done claims
      → IsGranted public_base claims
  unfolding read_claims
  read_claims-IsGranted segment public_base claims =
      elim (decode segment)
        as (λ d.
          (elim d [
            | none ↦ fail "malformed JWT payload"
            | some payload ↦ elim (x.unmarshal payload) [
              | none ↦ fail "invalid JWT claims"
              | some c ↦ check_claims x public_base c
            ]
          ])
            ≡ done claims
          → IsGranted public_base claims) [
            | none ↦ λ h. ground (arith, h)
            | some payload ↦
                elim (x.unmarshal payload)
                  as (λ u.
                    (elim u [
                      | none ↦ fail "invalid JWT claims"
                      | some c ↦ check_claims x public_base c
                    ])
                      ≡ done claims
                    → IsGranted public_base claims) [
                      | none ↦ λ h. ground (arith, h)
                      | some c ↦ check_claims-IsGranted public_base c claims
                    ]
          ]

  -- what is left of the check when the signature decodes
  abbrev compared : String → String → String → String → List ℕ → Outcome AccessClaims
  compared header payload public_base secret mac =
      if not (str_beq header jwt_header_segment)
      then fail "unexpected JWT header"
      else if not (
          constant_time_compare mac
            (x.hmac (utf8 secret) (utf8 (concat header (concat "." payload)))))
      then fail "invalid JWT signature"
      else read_claims x payload public_base

  verify-decoded :
      (header payload text public_base secret : String) (mac : List ℕ)
      → decode text ≡ some mac
      → verify_parts x (header ∷ payload ∷ text ∷ []) public_base secret
        ≡ compared header payload public_base secret mac
  unfolding verify_parts
  verify-decoded header payload text public_base secret mac e = rw (verify_parts, e) refl

  undecoded :
      (header payload text public_base secret : String) (claims : AccessClaims)
      → decode text ≡ none
      → verify_parts x (header ∷ payload ∷ text ∷ []) public_base secret ≢ done claims
  unfolding verify_parts
  undecoded header payload text public_base secret claims e h =
      let closed : verify_parts x (header ∷ payload ∷ text ∷ []) public_base secret ≡ (
          if not (str_beq header jwt_header_segment)
          then fail "unexpected JWT header"
          else fail "malformed JWT signature") =
        rw (verify_parts, e) refl in
      ground (arith, sym closed ∙ h)

  accepted_signature :
      (header payload text public_base secret : String) (mac : List ℕ) (claims : AccessClaims)
      → decode text ≡ some mac
      → verify_parts x (header ∷ payload ∷ text ∷ []) public_base secret ≡ done claims
      → (header ≡ jwt_header_segment)
        × (mac ≡ x.hmac (utf8 secret) (utf8 (concat header (concat "." payload))))
        × (read_claims x payload public_base ≡ done claims)
  accepted_signature header payload text public_base secret mac claims e h =
      let opened : compared header payload public_base secret mac ≡ done claims =
        sym (verify-decoded header payload text public_base secret mac e) ∙ h in
      ground (
        arith,
        opened,
        eq_iff header jwt_header_segment,
        constant_time_compare_iff mac
            (x.hmac (utf8 secret) (utf8 (concat header (concat "." payload)))),
      )

  verify_parts-IsSigned :
      (parts : List String) (public_base secret : String) (claims : AccessClaims)
      → verify_parts x parts public_base secret ≡ done claims
      → ((payload : String) × (signature : String) × (parts
            ≡ jwt_header_segment ∷ payload ∷ signature ∷ [])
          × (decode signature
              ≡ some
                  (x.hmac (utf8 secret) (utf8 (concat jwt_header_segment (concat "." payload))))))
        × IsGranted public_base claims
  unfolding verify_parts
  verify_parts-IsSigned [] public_base secret claims h = ground (arith, h)
  verify_parts-IsSigned (a ∷ []) public_base secret claims h = ground (arith, h)
  verify_parts-IsSigned (a ∷ b ∷ []) public_base secret claims h = ground (arith, h)
  verify_parts-IsSigned (a ∷ b ∷ c ∷ []) public_base secret claims h =
      elim (Option-cases (decode c)) [
        | inl e ↦ absurd (undecoded a b c public_base secret claims e h)
        | inr (mac, e) ↦
            let good = accepted_signature a b c public_base secret mac claims e h in
            (
              (
                b,
                c,
                ap (λ z. z ∷ b ∷ c ∷ []) good.0,
                e
                    ∙ ap some (
                        good.1
                        ∙ ap (λ z. x.hmac (utf8 secret) (utf8 (concat z (concat "." b)))) good.0),
              ),
              read_claims-IsGranted b public_base claims good.2,
            )
      ]
  verify_parts-IsSigned (a ∷ b ∷ c ∷ d ∷ rest) public_base secret claims h = ground (arith, h)

  -- A token that verifies has three parts, of which the first is the header and the third decodes to
  -- the HMAC of the first two under the secret, and claims this server as issuer and audience, and
  -- the scope to execute.
  pub verify_token-IsSigned :
      (token public_base secret : String) (claims : AccessClaims)
      → verify_token x token public_base secret ≡ done claims
      → IsSigned token secret × IsGranted public_base claims
  unfolding verify_token
  verify_token-IsSigned token public_base secret claims h =
      verify_parts-IsSigned (split_dots token) public_base secret claims h
