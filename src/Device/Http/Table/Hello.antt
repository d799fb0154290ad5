-- ===== src/Device/Http/Table/Hello.antt =====
-- A hello puts an open transport into the table, under its own id.
use mathlib.Core.Path.{subst}
use zshell_gateway.Base.{
  ℕ, suc, String, ◌≡◌, ◌≢◌, refl, sym, ap, ◌∙◌, inl, inr, true, false, not, ◌||◌, List, Option,
  some, arith, nat_beq, nat_beq_iff, str_beq, Option-cases, if-elim, string_eq,
}
use zshell_gateway.Dict.{get, put, get-put-cases}
use zshell_gateway.Device.Types.{HelloMessage, protocol_version, Manager, Info, Result, ok}
use zshell_gateway.Device.Registry.{attach}
use zshell_gateway.Device.Transfer.Started.{Result-cases}
use zshell_gateway.Device.Http.Types.{HttpHandler, HttpReply, HttpRequest, max_control_body_bytes}
use zshell_gateway.Device.Http.Sessions.{
  set_transport, new_transport, allocate_entry, register_entry, accept_hello, handle_hello,
  new_http_session_id, read_limited,
}
use zshell_gateway.Device.Http.Table.{IsOpen, TableOk}

-- the handler with a new entry under its own id
abbrev pub admitted : String → ℕ → HttpHandler → HttpHandler
admitted id s h = register_entry h.next_entry (allocate_entry (new_transport id) s h)

module _ (id : String) (s : ℕ) (h : HttpHandler) where
  pub admitted-sessions : (admitted id s h).sessions ≡ put id h.next_entry h.sessions
  unfolding register_entry allocate_entry new_transport set_transport
  admitted-sessions = rw ((nat_beq_iff h.next_entry h.next_entry).1 refl) refl

  pub admitted-next : (admitted id s h).next_entry ≡ suc h.next_entry
  unfolding register_entry allocate_entry set_transport
  admitted-next = refl

  pub admitted-new :
      ((admitted id s h).entries h.next_entry).transport.id ≡ id
      × ((admitted id s h).entries h.next_entry).transport.done ≡ false
      × ((admitted id s h).entries h.next_entry).transport.on_close ≡ true
      × ((admitted id s h).entries h.next_entry).session ≡ s
  unfolding register_entry allocate_entry new_transport set_transport
  admitted-new = rw ((nat_beq_iff h.next_entry h.next_entry).1 refl) (refl, refl, refl, refl)

  pub admitted-old : (j : ℕ) → j ≢ h.next_entry → (admitted id s h).entries j ≡ h.entries j
  unfolding register_entry allocate_entry new_transport set_transport
  admitted-old j ne = ground (arith, nat_beq_iff h.next_entry j, ne)

  pub admitted-TableOk : TableOk h → TableOk (admitted id s h)
  unfolding register_entry allocate_entry set_transport
  admitted-TableOk inv j e found =
      elim (get-put-cases j id h.next_entry e h.sessions
        (ap (get j) (sym admitted-sessions) ∙ found)) [
          | inl (same, at) ↦
              subst (λ k. IsOpen j k (admitted id s h)) at
                (record {
                  allocated = omega arith;
                  named = admitted-new.0 ∙ same;
                  open_still = admitted-new.1;
                  calls_back = admitted-new.2;
                })
          | inr (_, old) ↦
              let o = inv j e old in
              let kept = admitted-old e (λ q. omega (arith, q, o.allocated)) in
              record {
                allocated = omega (arith, o.allocated);
                named = ap (λ x. x.transport.id) kept ∙ o.named;
                open_still = ap (λ x. x.transport.done) kept ∙ o.open_still;
                calls_back = ap (λ x. x.transport.on_close) kept ∙ o.calls_back;
              }
        ]

abbrev Passed : Type 0
Passed = HttpReply × HttpHandler × Manager

-- A property that is kept when an entry is admitted under the id that was drawn.
module _ (P : HttpHandler → Type 0) (random : Result (List ℕ))
    (admits : (id : String) (s : ℕ) (h : HttpHandler)
      → new_http_session_id random ≡ ok id
      → P h
      → P (admitted id s h)) where
  pub accept_hello-Kept :
      (now : ℕ) (info : Info) (h : HttpHandler) (m : Manager)
      → P h
      → P (accept_hello now random info h m).1
  unfolding accept_hello
  accept_hello-Kept now info h m inv = elim (Result-cases (new_http_session_id random)) [
    | inr (x, e) ↦ rw (e, accept_hello) inv
    | inl (id, e) ↦
        rw (e, accept_hello)
          (elim (Option-cases (attach (some "http") info now m).0) [
            | inl f ↦ rw (f, accept_hello) inv
            | inr (s, f) ↦ rw (f, accept_hello) (admits id s h e inv)
          ])
  ]

  pub handle_hello-Kept :
      (unmarshal : List ℕ → Option HelloMessage) (now : ℕ) (r : HttpRequest) (h : HttpHandler)
      (m : Manager)
      → P h
      → P (handle_hello unmarshal now random r h m).1
  unfolding handle_hello
  handle_hello-Kept unmarshal now r h m inv =
      if-elim (λ (p : Passed). P p.1) (not (str_beq r.method "POST")) _ _ (λ _. inv)
        (λ _. elim (Option-cases (read_limited max_control_body_bytes r.body)) [
          | inl x ↦ rw (x, handle_hello) inv
          | inr (body, x) ↦
              rw (x, handle_hello)
                (elim (Option-cases (unmarshal body)) [
                  | inl y ↦ rw (y, handle_hello) inv
                  | inr (msg, y) ↦
                      rw (y, handle_hello)
                        (if-elim (λ (p : Passed). P p.1)
                          (not (str_beq msg.type "hello")
                            || not (nat_beq msg.protocol protocol_version))
                          _ _ (λ _. inv) (λ _. accept_hello-Kept now msg.device h m inv))
                ])
        ])
