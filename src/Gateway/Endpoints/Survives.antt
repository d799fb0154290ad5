-- ===== src/Gateway/Endpoints/Survives.antt =====
-- What a restart finds of a registration that was answered `created`.
use mathlib.Core.Path.{subst}
use zshell_gateway.Base.{
  ℕ, ◌≤◌, ◌<◌, String, ◌≡◌, ◌≢◌, refl, sym, ap, ◌∙◌, inl, inr, Bool, true, false, List, Option,
  none, some, str_beq, string_eq, Bool-cases, Option-cases, eq_iff, str_ne, arith, length, [], ◌∷◌,
}
use Prim.Native.String.append
use zshell_gateway.Text.Base64.{encode}
use zshell_gateway.Text.Decimal.{concat}
use zshell_gateway.Dict.{Dict, get, put, get-put_self, length-put-le}
use zshell_gateway.Gateway.Types.{OauthClient, OauthProvider, OauthClientsState, done, Services}
use zshell_gateway.Gateway.Checks.{is_media_type}
use zshell_gateway.Gateway.Codes.{random_id}
use zshell_gateway.Gateway.ClientsFile.{
  File, Disk, Faults, Written, max_clients, state_of, save_clients_locked,
  write_oauth_clients_atomic, read_oauth_clients_state, check_client, check_clients, load_clients,
  install_temp, move_primary, replace_primary, prepare_temp, failed_with,
}
use zshell_gateway.Gateway.ClientsFile.CrashSafe.{stored-cleaned}
use zshell_gateway.Gateway.ClientsFile.Reload.{restarted, load_clients-state_of}
use zshell_gateway.Gateway.Endpoints.{
  created, Request, Registration, client_of, check_registration, register_client, handle_register,
}

-- A write that reports no error leaves the new state, whatever stood on the disk.
installed :
    (o : Option String) (f : Faults) (had : Bool) (state : OauthClientsState) (d : Disk)
    → (install_temp o f had state d).error ≡ none
    → read_oauth_clients_state (install_temp o f had state d).final ≡ done (some state)
unfolding install_temp
installed none f had state d h = stored-cleaned f.keeps_backup state d.backup
installed (some text) f had state d h = absurd (cc h)

moved :
    (o : Option String) (file : File) (f : Faults) (state : OauthClientsState) (d : Disk)
    → (move_primary o file f state d).error ≡ none
    → read_oauth_clients_state (move_primary o file f state d).final ≡ done (some state)
unfolding move_primary
moved none file f state d h = installed f.install f true state _ h
moved (some text) file f state d h = absurd (cc h)

replaced :
    (o : Option File) (f : Faults) (state : OauthClientsState) (d : Disk)
    → (replace_primary o f state d).error ≡ none
    → read_oauth_clients_state (replace_primary o f state d).final ≡ done (some state)
unfolding replace_primary
replaced none f state d h = installed f.install f false state d h
replaced (some file) f state d h = moved f.to_backup file f state _ h

written :
    (f : Faults) (state : OauthClientsState) (d : Disk)
    → (write_oauth_clients_atomic f state d).error ≡ none
    → read_oauth_clients_state (write_oauth_clients_atomic f state d).final ≡ done (some state)
unfolding write_oauth_clients_atomic
written f state d = go (prepare_temp f)
  where
    go :
        (o : Option String)
        → (elim o as (λ _. Written) [
          | some text ↦ failed_with text d
          | none ↦ replace_primary d.primary f state d
        ]).error
          ≡ none
        → read_oauth_clients_state
            (elim o as (λ _. Written) [
              | some text ↦ failed_with text d
              | none ↦ replace_primary d.primary f state d
            ]).final
          ≡ done (some state)
    go none h = replaced d.primary f state d h
    go (some text) h = absurd (cc h)

saved :
    (f : Faults) (p : OauthProvider) (d : Disk)
    → p.clients_file ≢ ""
    → (save_clients_locked f p d).error ≡ none
    → read_oauth_clients_state (save_clients_locked f p d).final ≡ done (some (state_of p))
unfolding save_clients_locked
saved f p d named =
    let same : save_clients_locked f p d ≡ write_oauth_clients_atomic f (state_of p) d =
      rw (str_ne p.clients_file "" named) refl in
    subst (λ w. w.error ≡ none → read_oauth_clients_state w.final ≡ done (some (state_of p)))
      (sym same) (written f (state_of p) d)

-- What the registration accepts passes the checks of loading.
accepted-check_client :
    (x : Services) (id : String) (input : Registration)
    → str_beq id "" ≡ false
    → check_registration x input ≡ none
    → check_client x id (client_of id input) ≡ none
unfolding check_registration check_client
accepted-check_client x id input named fine = ground (arith, named, fine, eq_iff id id)

check_clients-put :
    (x : Services) (id : String) (client : OauthClient) (clients : Dict String OauthClient)
    → check_client x id client ≡ none
    → check_clients x clients ≡ none
    → check_clients x (put id client clients) ≡ none
unfolding check_clients put
check_clients-put x id client [] h all = rw (h, check_clients) refl
check_clients-put x id client ((j, other) ∷ rest) h all =
    elim (Option-cases (check_client x j other)) [
      | inr (text, e) ↦ absurd (ground (arith, e, all))
      | inl e ↦ elim (Bool-cases (str_beq j id)) [
        | inl same ↦
            let here : check_client x j client ≡ none =
              subst (λ k. check_client x k client ≡ none) (sym ((eq_iff j id).0 same)) h in
            ground (arith, same, here, e, all)
        | inr differs ↦
            ground (
              arith,
              differs,
              e,
              all,
              check_clients-put x id client rest h (ground (arith, e, all)),
            )
      ]
    ]

-- an answer of the checks is never `created`
refuses :
    (x : Services) (input : Registration) (client : OauthClient) (shown : String)
    → check_registration x input ≢ some (created client shown)
unfolding check_registration
refuses x input client shown h = ground (arith, h)

-- What is known of a registration that was answered `created`.
record IsCreated (f : Faults) (id : String) (input : Registration) (p : OauthProvider) (d : Disk)
    (client : OauthClient) (q : OauthProvider) (e : Disk) : Type 0 where
  room : length p.clients < max_clients
  client_is : client ≡ client_of id input
  provider : q ≡ record p { clients = put id (client_of id input) p.clients }
  error :
      (save_clients_locked f (record p { clients = put id (client_of id input) p.clients }) d).error
      ≡ none
  disk :
      e
      ≡ (save_clients_locked f
          (record p { clients = put id (client_of id input) p.clients })
          d).final

register_client-IsCreated :
    (f : Faults) (id : String) (input : Registration) (p : OauthProvider) (d : Disk)
    (client : OauthClient) (shown : String) (q : OauthProvider) (e : Disk)
    → register_client f id input p d ≡ (created client shown, q, e)
    → IsCreated f id input p d client q e
unfolding register_client
register_client-IsCreated f id input p d client shown q e h =
    let q1 : OauthProvider = record p { clients = put id (client_of id input) p.clients } in
    elim (Option-cases (save_clients_locked f q1 d).error) [
      | inr (text, w) ↦ absurd (ground (arith, w, h))
      | inl w ↦ record {
        room = ground (arith, w, h);
        client_is = ground (arith, w, h);
        provider = ground (arith, w, h);
        error = w;
        disk = ground (arith, w, h);
      }
    ]

abbrev is_written : String → Bool
is_written String.[] = false
is_written (String.◌∷◌ c s) = true

concat-is_written : (s t : String) → is_written s ≡ true → is_written (concat s t) ≡ true
concat-is_written String.[] t h = absurd (cc h)
concat-is_written (String.◌∷◌ c s) t h = ap is_written (append.cons c s t)

prefixed : (bytes : List ℕ) → str_beq (random_id "zshell-" bytes) "" ≡ false
prefixed bytes =
    str_ne (random_id "zshell-" bytes) "" (λ e. absurd (cc (sym there ∙ ap is_written e)))
  where
    there : is_written (random_id "zshell-" bytes) ≡ true
    there = concat-is_written "zshell-" (encode bytes) refl

-- A registration that is answered `created` survives: a new process with the same configuration loads the registry
-- as it is then, which has the client, and the registry still passes the checks of loading; if it passed
-- them before and is kept in a file, whatever stood on the disk and whichever system calls fail.
pub handle_register-loads :
    (x : Services) (f : Faults) (random : Option (List ℕ)) (r : Request Registration)
    (p : OauthProvider) (d : Disk) (client : OauthClient) (shown : String) (q : OauthProvider)
    (e : Disk)
    → p.clients_file ≢ ""
    → check_clients x p.clients ≡ none
    → handle_register x f random r p d ≡ (created client shown, q, e)
    → (load_clients x e (restarted q) ≡ done (record q { codes = [] }))
      × (get client.id q.clients ≡ some client)
      × (check_clients x q.clients ≡ none)
unfolding handle_register
handle_register-loads x f random r p d client shown q e named fine h =
    elim (Bool-cases (str_beq r.method "POST")) [
      | inr a ↦ absurd (ground (arith, a, h))
      | inl a ↦ elim (Bool-cases (is_media_type x r.content_type "application/json")) [
        | inr b ↦ absurd (ground (arith, a, b, h))
        | inl b ↦ elim (Option-cases r.body) [
          | inl c ↦ absurd (ground (arith, a, b, c, h))
          | inr (input, c) ↦ elim (Option-cases (check_registration x input)) [
            | inr (answer, k) ↦
                absurd (refuses x input client shown (k ∙ ap some (ground (arith, a, b, c, k, h))))
            | inl k ↦ elim (Option-cases random) [
              | inl n ↦ absurd (ground (arith, a, b, c, k, n, h))
              | inr (bytes, n) ↦
                  let id = random_id "zshell-" bytes in
                  survives id input k (prefixed bytes) (
                    register_client-IsCreated f id input p d client shown q e
                      (ground (arith, a, b, c, k, n, h)))
            ]
          ]
        ]
      ]
    ]
  where
    survives :
        (id : String) (input : Registration)
        → check_registration x input ≡ none
        → str_beq id "" ≡ false
        → IsCreated f id input p d client q e
        → (load_clients x e (restarted q) ≡ done (record q { codes = [] }))
          × (get client.id q.clients ≡ some client)
          × (check_clients x q.clients ≡ none)
    survives id input k nonempty made =
        let q1 : OauthProvider = record p { clients = put id (client_of id input) p.clients } in
        let valid =
          check_clients-put x id (client_of id input) p.clients
            (accepted-check_client x id input nonempty k) fine in
        let few : length q1.clients ≤ max_clients =
          omega (arith, length-put-le id (client_of id input) p.clients, made.room) in
        let loaded =
          load_clients-state_of x (save_clients_locked f q1 d).final q1 named few valid
            (saved f q1 d named made.error) in
        (
          subst (λ y. load_clients x y (restarted q) ≡ done (record q { codes = [] }))
              (sym made.disk)
              (subst
                (λ y.
                  load_clients x (save_clients_locked f q1 d).final (restarted y)
                  ≡ done (record y { codes = [] }))
                (sym made.provider) loaded),
          subst (λ y. get client.id y.clients ≡ some client) (sym made.provider)
              (subst (λ y. get y.id q1.clients ≡ some y) (sym made.client_is)
                (get-put_self id (client_of id input) p.clients)),
          subst (λ y. check_clients x y.clients ≡ none) (sym made.provider) valid,
        )
