-- ===== src/Gateway/Codes/Exchange.antt =====
-- What an authorization code is good for.
use mathlib.Core.Path.{subst}
use zshell_gateway.Base.{
  ℕ, ◌+◌, ◌≤◌, String, ◌≡◌, refl, ap, ◌∙◌, sym, ◌≢◌, inl, inr, Bool, true, false, [], ◌∷◌, Option,
  none, some, str_beq, if◌then◌else◌, length, string_eq, Bool-cases, eq_iff, arith,
}
use zshell_gateway.Dict.{Dict, get, remove, Distinct, get-remove, beq_refl}
use zshell_gateway.Gateway.Types.{AuthorizationCode, OauthProvider, Outcome, done, fail, Services}
use zshell_gateway.Gateway.Jwt.{sign_token}
use zshell_gateway.Gateway.Checks.{verify_pkce}
use zshell_gateway.Gateway.Codes.{
  code_ttl, is_expired, prune_codes, refuses, claims_of, exchange_entry,
  exchange_authorization_code,
}

-- an expired entry is not found, another one is
abbrev unless_expired : ℕ → Option AuthorizationCode → Option AuthorizationCode
unless_expired now none = none
unless_expired now (some entry) = if is_expired now entry then none else some entry

get-prune_absent :
    (now : ℕ) (code : String) (codes : Dict String AuthorizationCode)
    → get code codes ≡ none
    → get code (prune_codes now codes) ≡ none
unfolding get prune_codes
get-prune_absent now code [] h = refl
get-prune_absent now code ((k, entry) ∷ codes) h = ground (arith, get-prune_absent now code codes)

-- Pruning drops the expired codes and keeps the others, if no code has two entries.
pub get-prune_codes :
    (now : ℕ) (code : String) (codes : Dict String AuthorizationCode)
    → Distinct codes
    → get code (prune_codes now codes) ≡ unless_expired now (get code codes)
unfolding get prune_codes
get-prune_codes now code [] d = refl
get-prune_codes now code ((k, entry) ∷ codes) d = ground (
  arith,
  eq_iff k code,
  get-prune_absent now code codes,
  get-prune_codes now code codes d.1,
  λ (same : k ≡ code). subst (λ j. get j codes ≡ none) same d.0,
)

pub length-prune_codes :
    (now : ℕ) (codes : Dict String AuthorizationCode)
    → length (prune_codes now codes) ≤ length codes
unfolding prune_codes
length-prune_codes now [] = ground arith
length-prune_codes now ((k, entry) ∷ codes) = ground (arith, length-prune_codes now codes)

-- the two ways in which an exchange ends
exchanged :
    (x : Services) (code client_id redirect_uri verifier : String) (o : Option AuthorizationCode)
    (p q : OauthProvider) (token : String)
    → exchange_entry x code client_id redirect_uri verifier o p ≡ (done token, q)
    → (entry : AuthorizationCode) × (o ≡ some entry)
      × (refuses x client_id redirect_uri verifier (some entry) ≡ false)
      × (token ≡ sign_token x (claims_of p entry) p.jwt_secret)
      × (q ≡ record p { codes = remove code p.codes })
unfolding exchange_entry
exchanged x code client_id redirect_uri verifier none p q token h = absurd (fails (ap (λ r. r.0) h))
  where
    fails : fail "invalid grant" ≢ done token
    fails e = ground (arith, e)
exchanged x code client_id redirect_uri verifier (some entry) p q token h =
    let parts = inverted (refuses x client_id redirect_uri verifier (some entry)) _ _ h in
    (entry, refl, parts.0, parts.1, parts.2)
  where
    inverted :
        (b : Bool) (t : String) (r : OauthProvider)
        → ◌≡◌ {A = Outcome String × OauthProvider}
            (if b then (fail "invalid grant", p) else (done t, r))
            (done token, q)
        → (b ≡ false) × (token ≡ t) × (q ≡ r)
    inverted true t r e = absurd (impossible (ap (λ z. z.0) e))
      where
        impossible : fail "invalid grant" ≢ done token
        impossible e = ground (arith, e)
    inverted false t r e = (refl, text_of (sym (ap (λ z. z.0) e)), sym (ap (λ z. z.1) e))
      where
        text_of : {a b : String} → done a ≡ done b → a ≡ b
        text_of e = ground (arith, e)

-- A token is given only for a code that stands in the registry, is not older than five minutes, was
-- issued to this client for this redirect URI, and whose challenge the verifier meets; the token is
-- signed for the client of the code. (No code has two entries.)
pub exchange_sound :
    (x : Services) (now : ℕ) (code client_id redirect_uri verifier : String) (p q : OauthProvider)
    (token : String)
    → Distinct p.codes
    → exchange_authorization_code x now code client_id redirect_uri verifier p ≡ (done token, q)
    → (entry : AuthorizationCode) × (get code p.codes ≡ some entry)
      × (now ≤ entry.created_at + code_ttl)
      × (entry.client_id ≡ client_id)
      × (entry.redirect_uri ≡ redirect_uri)
      × (verify_pkce x entry.code_challenge verifier ≡ true)
      × (token ≡ sign_token x (claims_of p entry) p.jwt_secret)
unfolding exchange_authorization_code
exchange_sound x now code client_id redirect_uri verifier p q token d h =
    let out = exchanged x code client_id redirect_uri verifier _ _ q token h in
    let entry = out.0 in
    let found = sym (get-prune_codes now code p.codes d) ∙ out.1 in
    let (stands, fresh) = not_expired (get code p.codes) entry found in
    (
      entry,
      stands,
      fresh,
      ground (arith, eq_iff entry.client_id client_id, out.2),
      ground (arith, eq_iff entry.redirect_uri redirect_uri, out.2),
      ground (arith, out.2),
      out.3,
    )
  where
    not_expired :
        (o : Option AuthorizationCode) (entry : AuthorizationCode)
        → unless_expired now o ≡ some entry
        → (o ≡ some entry) × (now ≤ entry.created_at + code_ttl)
    not_expired none entry e = ground (arith, e)
    not_expired (some other) entry e = elim (Bool-cases (is_expired now other)) [
      | inl b ↦ ground (arith, b, e)
      | inr b ↦
          let same : other ≡ entry = ground (arith, b, e) in
          let fresh : now ≤ other.created_at + code_ttl = ground (arith, b) in
          (ap some same, subst (λ y. now ≤ y.created_at + code_ttl) same fresh)
    ]

unknown_code :
    (x : Services) (code client_id redirect_uri verifier : String) (p : OauthProvider)
    → (exchange_entry x code client_id redirect_uri verifier none p).0 ≡ fail "invalid grant"
unfolding exchange_entry
unknown_code x code client_id redirect_uri verifier p = refl

-- A code is spent by its exchange: whoever presents it afterwards is refused.
pub exchange_once :
    (x : Services) (now later : ℕ) (code : String) (client_id redirect_uri verifier : String)
    (client_id' redirect_uri' verifier' : String) (p q : OauthProvider) (token : String)
    → exchange_authorization_code x now code client_id redirect_uri verifier p ≡ (done token, q)
    → (exchange_authorization_code x later code client_id' redirect_uri' verifier' q).0
      ≡ fail "invalid grant"
unfolding exchange_authorization_code
exchange_once x now later code client_id redirect_uri verifier client_id' redirect_uri' verifier' p
      q token h =
    ap
      (λ o.
        (exchange_entry x code client_id' redirect_uri' verifier' o
          (record q { codes = prune_codes later q.codes })).0)
      (get-prune_absent later code q.codes (ap (λ r. get code r.codes) out.4 ∙ gone))
    ∙ unknown_code x code client_id' redirect_uri' verifier'
        (record q { codes = prune_codes later q.codes })
  where
    out :
        (entry : AuthorizationCode) × (get code (prune_codes now p.codes) ≡ some entry)
        × (refuses x client_id redirect_uri verifier (some entry) ≡ false)
        × (token ≡ sign_token x (claims_of p entry) p.jwt_secret)
        × (q ≡ record p { codes = remove code (prune_codes now p.codes) })
    out =
        exchanged x code client_id redirect_uri verifier _
          (record p { codes = prune_codes now p.codes }) q token h

    gone : get code (remove code (prune_codes now p.codes)) ≡ none
    gone = ground (arith, get-remove code code (prune_codes now p.codes), beq_refl code)

-- A code that is found and is not expired is kept.
pub get-prune_live :
    (now : ℕ) (code : String) (codes : Dict String AuthorizationCode) (entry : AuthorizationCode)
    → get code codes ≡ some entry
    → is_expired now entry ≡ false
    → get code (prune_codes now codes) ≡ some entry
unfolding get prune_codes
get-prune_live now code [] entry h live = ground (arith, h)
get-prune_live now code ((k, other) ∷ codes) entry h live = elim (Bool-cases (str_beq k code)) [
  | inl same ↦
      let this : other ≡ entry = ground (arith, same, h) in
      let stays : is_expired now other ≡ false = ap (is_expired now) this ∙ live in
      rw (stays, same) (ap some this)
  | inr differs ↦
      let later : get code codes ≡ some entry = ground (arith, differs, h) in
      let kept = get-prune_live now code codes entry later live in ground (arith, differs, kept)
]
