-- ===== src/Device/Http/Authenticated.antt =====
-- Both transports let in those who present the device token, and no others.
use mathlib.Core.Path.{subst}
use zshell_gateway.Base.{
  List, [], ◌∷◌, ◌≢◌, ◌⊎◌, ◌∙◌, not, ◌||◌, false, str_beq, str_ne, if◌then◌else◌, String, ◌≡◌, ◌↔◌,
  refl, inl, inr, true, none, some, arith, Bool-cases, Option-cases, eq_iff,
}
use zshell_gateway.Text.Compare.{constant_time_compare, constant_time_compare_iff}
use zshell_gateway.Text.Hex.{to_lower}
use zshell_gateway.Text.Split.{fields_of, equal_fold_bearer}
use zshell_gateway.Text.Utf8.{utf8}
use zshell_gateway.Device.Types.{Manager}
use zshell_gateway.Device.WebSocket.{bearer_of, bearer_token, handshake}
use zshell_gateway.Device.Http.Types.{returns, HttpHandler, HttpRequest, http_error}
use zshell_gateway.Device.Http.Route.{Meets, is_authorized, route_of, serve_route, serve_http}

-- The header has two fields, "bearer" in any case and a text with the bytes of the token.
pub record Presents (token header : String) : Type 0 where
  pub scheme : String
  pub presented : String
  pub two_fields : fields_of header ≡ scheme ∷ presented ∷ []
  pub is_bearer : to_lower scheme ≡ "bearer"
  pub filled : presented ≢ ""
  pub same_bytes : utf8 presented ≡ utf8 token

bearer_token-fields :
    (header p : String)
    → bearer_token header ≡ some p
    → (scheme : String) × (fields_of header ≡ scheme ∷ p ∷ [])
      × (to_lower scheme ≡ "bearer")
      × (p ≢ "")
unfolding bearer_token bearer_of
bearer_token-fields header p = go (fields_of header) refl
  where
    of_two :
        (a b : String)
        → fields_of header ≡ a ∷ b ∷ []
        → (if not (equal_fold_bearer a) || str_beq b "" then none else some b) ≡ some p
        → (scheme : String) × (fields_of header ≡ scheme ∷ p ∷ [])
          × (to_lower scheme ≡ "bearer")
          × (p ≢ "")
    of_two a b e h =
        let same : b ≡ p = ground (arith, h) in
        let folded : to_lower a ≡ "bearer" = ground (arith, h, eq_iff (to_lower a) "bearer") in
        let some_text : str_beq b "" ≡ false = ground (arith, h) in
        (
          a,
          subst (λ t. fields_of header ≡ a ∷ t ∷ []) same e,
          folded,
          λ empty. absurd (cc (some_text, (eq_iff b "").1 (same ∙ empty))),
        )

    go :
        (l : List String)
        → fields_of header ≡ l
        → bearer_of l ≡ some p
        → (scheme : String) × (fields_of header ≡ scheme ∷ p ∷ [])
          × (to_lower scheme ≡ "bearer")
          × (p ≢ "")
    go [] e h = absurd (ground (arith, h))
    go (a ∷ []) e h = absurd (ground (arith, h))
    go (a ∷ b ∷ []) e h = of_two a b e (h)
    go (a ∷ b ∷ c ∷ rest) e h = absurd (ground (arith, h))

presented_token :
    (token header : String) (p : Presents token header) → bearer_token header ≡ some p.presented
unfolding bearer_token bearer_of
presented_token token header p =
    let named : str_beq (to_lower p.scheme) "bearer" ≡ true =
      (eq_iff (to_lower p.scheme) "bearer").1 p.is_bearer in
    rw (p.two_fields, named, str_ne p.presented "" p.filled) refl

accepts_token :
    (token header p : String)
    → bearer_token header ≡ some p
    → constant_time_compare (utf8 p) (utf8 token) ≡ true
    → Presents token header
accepts_token token header p e same =
    let (scheme, fields, folded, some_text) = bearer_token-fields header p e in
    record {
      scheme = scheme;
      presented = p;
      two_fields = fields;
      is_bearer = folded;
      filled = some_text;
      same_bytes = (constant_time_compare_iff (utf8 p) (utf8 token)).0 same;
    }

is_authorized_iff :
    (token : String) (r : HttpRequest)
    → (is_authorized token r ≡ true) ↔ Presents token r.authorization
unfolding is_authorized
is_authorized_iff token r = (admitted, presented)
  where
    admitted : is_authorized token r ≡ true → Presents token r.authorization
    admitted h = elim (Option-cases (bearer_token r.authorization)) [
      | inl e ↦ absurd (ground (arith, e))
      | inr (p, e) ↦ accepts_token token r.authorization p e (ground (arith, e, h))
    ]

    presented : Presents token r.authorization → is_authorized token r ≡ true
    presented p =
        rw (presented_token token r.authorization p, is_authorized)
          ((constant_time_compare_iff (utf8 p.presented) (utf8 token)).1 p.same_bytes)

-- Either the `Authorization` header of a request over HTTP has two fields, "bearer" in any case and a text with the
-- bytes of the device token, and the request is served by the handler of its path; or it does not, and the request
-- is answered with 401, whatever it asks for, and changes neither the sessions nor the manager.
pub serve_http-authorized :
    (x : Meets) (r : HttpRequest) (h : HttpHandler) (m : Manager)
    → (Presents h.token r.authorization
        × (serve_http x r h m ≡ serve_route x r (route_of r.path) h m))
      ⊎ (¬ Presents h.token r.authorization
          × (serve_http x r h m ≡ (returns (http_error "device authentication failed" 401), h, m)))
unfolding serve_http
serve_http-authorized x r h m = elim (Bool-cases (is_authorized h.token r)) [
  | inl e ↦ inl ((is_authorized_iff h.token r).0 e, rw e refl)
  | inr e ↦ inr ((λ p. absurd (cc (e, (is_authorized_iff h.token r).1 p))), rw e refl)
]

-- The handshake of a WebSocket has no error exactly for a `GET` that presents the device token.
pub handshake_iff :
    (token method header : String)
    → (handshake token method header ≡ none) ↔ ((method ≡ "GET") × Presents token header)
unfolding handshake
handshake_iff token method header = (admitted, presented)
  where
    admitted : handshake token method header ≡ none → (method ≡ "GET") × Presents token header
    admitted h = elim (Option-cases (bearer_token header)) [
      | inl e ↦ absurd (ground (arith, e, h))
      | inr (p, e) ↦ (
        ground (arith, e, h, eq_iff method "GET"),
        accepts_token token header p e (ground (arith, e, h)),
      )
    ]

    presented : (method ≡ "GET") × Presents token header → handshake token method header ≡ none
    presented (get, p) = ground (
      arith,
      presented_token token header p,
      (eq_iff method "GET").1 get,
      (constant_time_compare_iff (utf8 p.presented) (utf8 token)).1 p.same_bytes,
    )
