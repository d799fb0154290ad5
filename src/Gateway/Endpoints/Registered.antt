-- ===== src/Gateway/Endpoints/Registered.antt =====
-- Registration keeps memory and disk together.
use mathlib.Core.Path.{subst}
use zshell_gateway.Base.{
  String, ◌≡◌, refl, sym, ◌≢◌, none, some, leb, length, string_eq, arith, if-elim, str_ne, eq_iff,
}
use zshell_gateway.Dict.{Dict, get, put, remove, get-put, get-put_self, get-remove}
use zshell_gateway.Gateway.Types.{OauthClient, OauthProvider, done}
use zshell_gateway.Gateway.ClientsFile.{
  Disk, Faults, Written, max_clients, state_of, save_clients_locked, write_oauth_clients_atomic,
  read_oauth_clients_state,
}
use zshell_gateway.Gateway.ClientsFile.CrashSafe.{IsReadable, Safe, Decided, write-Safe}
use zshell_gateway.Gateway.Endpoints.{
  Response, created, http_error, oauth_error, Registration, client_of, name_shown, register_client,
}

-- The client stands in the registry, and the disk reads as this registry.
abbrev pub Stored : String → OauthClient → OauthProvider → Disk → Type 0
Stored id client q d =
    (get id q.clients ≡ some client) × (read_oauth_clients_state d ≡ done (some (state_of q)))

-- Every client is found as before, and the disk reads as before.
abbrev pub Untouched : OauthProvider → Disk → OauthProvider → Disk → Type 0
Untouched p d q e =
    ((id : String) → get id q.clients ≡ get id p.clients)
    × (read_oauth_clients_state e ≡ read_oauth_clients_state d)

-- A created client is stored, and any other answer leaves all as it was.
abbrev pub Answered :
    String → OauthClient → OauthProvider → Disk → Response × OauthProvider × Disk → Type 0
Answered id client p d (created _ _, q, e) = Stored id client q e
Answered id client p d (_, q, e) = Untouched p d q e

saved-Safe :
    (f : Faults) (p : OauthProvider) (d : Disk)
    → p.clients_file ≢ ""
    → IsReadable d.primary
    → Safe (read_oauth_clients_state d) (state_of p) (save_clients_locked f p d)
unfolding save_clients_locked
saved-Safe f p d named readable =
    let same : save_clients_locked f p d ≡ write_oauth_clients_atomic f (state_of p) d =
      rw (str_ne p.clients_file "" named) refl in
    subst (λ w. Safe (read_oauth_clients_state d) (state_of p) w) (sym same)
      (write-Safe f (state_of p) d readable)

-- what was put and removed again is not there
rolled_back :
    (id j : String) (client : OauthClient) (clients : Dict String OauthClient)
    → get id clients ≡ none
    → get j (remove id (put id client clients)) ≡ get j clients
rolled_back id j client clients fresh =
    let at_id : id ≡ j → get j clients ≡ none =
      λ same. subst (λ k. get k clients ≡ none) same fresh in
    ground (
      arith,
      get-remove j id (put id client clients),
      get-put j id client clients,
      eq_iff id j,
      at_id,
    )

-- After a registration under a new id that is answered `created`, the client stands in the registry and
-- the disk reads as this registry; after any other answer each client is found as before and the disk
-- reads as before, whichever file system calls fail, if the registry is kept in a file and the primary
-- file is absent or can be read.
pub register_client-Answered :
    (f : Faults) (id : String) (input : Registration) (p : OauthProvider) (d : Disk)
    → p.clients_file ≢ ""
    → IsReadable d.primary
    → get id p.clients ≡ none
    → Answered id (client_of id input) p d (register_client f id input p d)
unfolding register_client
register_client-Answered f id input p d named readable fresh =
    if-elim {A = Response × OauthProvider × Disk} (λ r. Answered id (client_of id input) p d r)
      (leb max_clients (length p.clients))
      (oauth_error 503 "temporarily_unavailable" "OAuth client registry is full", p, d)
      (elim w.error [
        | some _ ↦ (
          http_error 500 "failed to persist OAuth client registration",
          record q { clients = remove id q.clients },
          w.final,
        )
        | none ↦ (created (client_of id input) (name_shown input.client_name), q, w.final)
      ])
      (λ full. (λ j. refl, refl))
      (λ room.
        elim w.error
            as (λ o.
              Decided (read_oauth_clients_state d) (state_of q) o w.final
              → Answered id (client_of id input) p d (elim o [
                | some _ ↦ (
                  http_error 500 "failed to persist OAuth client registration",
                  record q { clients = remove id q.clients },
                  w.final,
                )
                | none ↦ (created (client_of id input) (name_shown input.client_name), q, w.final)
              ])) [
                | some _ ↦
                    λ same. (λ j. rolled_back id j (client_of id input) p.clients fresh, same)
                | none ↦ λ new. (get-put_self id (client_of id input) p.clients, new)
              ]
          (saved-Safe f q d named readable).1)
  where
    q : OauthProvider
    q = record p { clients = put id (client_of id input) p.clients }

    w : Written
    w = save_clients_locked f q d
