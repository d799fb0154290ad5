-- ===== src/Gateway/ClientsFile/Reload.antt =====
-- What a new process finds of the registry that was saved.
use zshell_gateway.Base.{
  [], ◌≤◌, ◌≡◌, ◌≢◌, refl, false, none, some, ltb, length, str_ne, eq_refl, arith,
}
use zshell_gateway.Gateway.Types.{OauthProvider, done, Services}
use zshell_gateway.Gateway.ClientsFile.{
  Disk, max_clients, state_of, read_oauth_clients_state, check_clients, accept_state, load_clients,
}

-- the provider as a new process builds it, before it loads the clients
abbrev pub restarted : OauthProvider → OauthProvider
restarted p = record p { clients = []; codes = [] }

accept-state_of :
    (x : Services) (p : OauthProvider)
    → length p.clients ≤ max_clients
    → check_clients x p.clients ≡ none
    → accept_state x (state_of p) (restarted p) ≡ done (record p { codes = [] })
unfolding accept_state state_of
accept-state_of x p few valid =
    let fits : ltb max_clients (length p.clients) ≡ false = ground (arith, few) in
    rw (accept_state, eq_refl p.public_base, fits, valid) refl

-- A new process with the same configuration loads the clients that the disk reads as saved, without the
-- codes, if there are no more than 1024 clients and each passes the checks.
pub load_clients-state_of :
    (x : Services) (d : Disk) (p : OauthProvider)
    → p.clients_file ≢ ""
    → length p.clients ≤ max_clients
    → check_clients x p.clients ≡ none
    → read_oauth_clients_state d ≡ done (some (state_of p))
    → load_clients x d (restarted p) ≡ done (record p { codes = [] })
unfolding load_clients
load_clients-state_of x d p named few valid saved =
    rw (load_clients, str_ne p.clients_file "" named, saved) (accept-state_of x p few valid)
