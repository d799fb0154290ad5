-- ===== src/Gateway/ClientsFile.antt =====
-- internal/gateway/oauth_clients.go: the client registry on disk, in a primary file and a backup.
pub mod CrashSafe
pub mod Reload
use zshell_gateway.Base.{
  ℕ, String, Bool, true, false, not, ◌||◌, ◌&&◌, List, [], ◌∷◌, Option, none, some, str_beq,
  nat_beq, ltb, if◌then◌else◌, length, every,
}
use zshell_gateway.Dict.{Dict}
use zshell_gateway.Text.Decimal.{concat, decimal, quoted}
use zshell_gateway.Text.Trim.{byte_len}
use zshell_gateway.Gateway.Types.{
  OauthClient, OauthProvider, OauthClientsState, Outcome, done, fail, Services,
}
use zshell_gateway.Gateway.Checks.{valid_redirect_uri}

abbrev pub max_clients : ℕ
max_clients = 1024

abbrev pub max_redirect_uris : ℕ
max_redirect_uris = 10

abbrev pub max_client_name : ℕ
max_client_name = 200

-- A file holds the JSON of a state, or it cannot be read or decoded, with the text of the failure.
pub data File : Type 0 where
  stored : OauthClientsState → File
  broken : String → File

-- `path` and `path + ".bak"`; an absent file is `none`
pub record Disk : Type 0 where
  pub primary : Option File
  pub backup : Option File

-- The system calls that fail, with the text; those whose failure is ignored have a Boolean.
pub record Faults : Type 0 where
  pub make_dir : Option String
  pub create_temp : Option String
  pub write_temp : Option String
  pub stat : Option String
  pub keeps_old_backup : Bool
  pub to_backup : Option String
  pub install : Option String
  pub restore_fails : Bool
  pub keeps_backup : Bool

-- `OAuthClientsState{Version: …, Issuer: p.publicBase, Clients: p.clients}`
unfoldable pub state_of : OauthProvider → OauthClientsState
state_of p = record { version = 1; issuer = p.public_base; clients = some p.clients }

-- The disk after each call that changes one of the two files, the last one last; and the error.
pub record Written : Type 0 where
  pub error : Option String
  pub disks : List Disk
  pub final : Disk

abbrev pub failed_with : String → Disk → Written
failed_with text d = record { error = some text; disks = []; final = d }

-- a call that leaves the disk `d`, and what follows
abbrev pub after : Disk → Written → Written
after d w = record { error = w.error; disks = d ∷ w.disks; final = w.final }

abbrev pub drop_backup : Bool → Disk → Disk
drop_backup keeps d = if keeps then d else record d { backup = none }

-- `os.Rename(tmpPath, path)`, with its error, and what follows it
unfoldable pub install_temp : Option String → Faults → Bool → OauthClientsState → Disk → Written
install_temp none f had_primary state d =
    let installed : Disk = record { primary = some (stored state); backup = d.backup } in
    let cleaned = drop_backup f.keeps_backup installed in
    record { error = none; disks = installed ∷ cleaned ∷ []; final = cleaned }
install_temp (some text) f had_primary state d =
    let restored : Disk =
      if had_primary && not f.restore_fails
      then record { primary = d.backup; backup = none }
      else d in
    record {
      error = some (concat "install OAuth client state: " text);
      disks = restored ∷ [];
      final = restored;
    }

-- `os.Rename(path, backup)`, with its error, when a primary file was found
unfoldable pub move_primary : Option String → File → Faults → OauthClientsState → Disk → Written
unfolding install_temp
move_primary (some text) file f state d = failed_with (concat "backup OAuth client state: " text) d
move_primary none file f state d =
    let moved : Disk = record { primary = none; backup = some file } in
    after moved (install_temp f.install f true state moved)

-- what follows `os.Stat(path)`, which found the file or not
unfoldable pub replace_primary : Option File → Faults → OauthClientsState → Disk → Written
unfolding move_primary install_temp
replace_primary none f state d = install_temp f.install f false state d
replace_primary (some file) f state d =
    let dropped = drop_backup f.keeps_old_backup d in
    after dropped (move_primary f.to_backup file f state dropped)

-- the calls up to `os.Stat`, which touch neither of the two files, with the text of the error
unfoldable pub prepare_temp : Faults → Option String
prepare_temp f = elim f.make_dir [
  | some text ↦ some (concat "create OAuth client directory: " text)
  | none ↦ elim f.create_temp [
    | some text ↦ some (concat "create OAuth client temp file: " text)
    | none ↦ elim f.write_temp [
      | some text ↦ some (concat "write OAuth client temp file: " text)
      | none ↦ elim f.stat [
        | some text ↦ some (concat "stat OAuth client state: " text)
        | none ↦ none
      ]
    ]
  ]
]

-- `writeOAuthClientsAtomic`
unfoldable pub write_oauth_clients_atomic : Faults → OauthClientsState → Disk → Written
unfolding replace_primary prepare_temp
write_oauth_clients_atomic f state d = elim (prepare_temp f) [
  | some text ↦ failed_with text d
  | none ↦ replace_primary d.primary f state d
]

abbrev unchanged : Disk → Written
unchanged d = record { error = none; disks = []; final = d }

-- `saveClientsLocked`
unfoldable pub save_clients_locked : Faults → OauthProvider → Disk → Written
unfolding write_oauth_clients_atomic state_of
save_clients_locked f p d =
    if str_beq p.clients_file "" then unchanged d else write_oauth_clients_atomic f (state_of p) d

-- the second candidate, after the failures of the first
abbrev pub read_backup : List String → Option File → Outcome (Option OauthClientsState)
read_backup [] none = done none
read_backup (text ∷ _) none = fail text
read_backup failures (some (stored state)) = done (some state)
read_backup [] (some (broken text)) = fail text
read_backup (first ∷ _) (some (broken text)) = fail (concat first (concat "\n" text))

-- `readOAuthClientsState`
unfoldable pub read_oauth_clients_state : Disk → Outcome (Option OauthClientsState)
read_oauth_clients_state d = elim d.primary [
  | none ↦ read_backup [] d.backup
  | some (stored state) ↦ done (some state)
  | some (broken text) ↦ read_backup (text ∷ []) d.backup
]

-- the checks on one client of a state, with the text of the error
unfoldable pub check_client : Services → String → OauthClient → Option String
check_client x id client =
    if str_beq id "" || not (str_beq client.id id) || ltb max_client_name (byte_len client.name)
    then some "OAuth client state contains invalid client metadata"
    else if nat_beq (length client.redirect_uris) 0
        || ltb max_redirect_uris (length client.redirect_uris)
    then some (concat "OAuth client " (concat (quoted id) " has invalid redirect URI count"))
    else if not (every (valid_redirect_uri x) client.redirect_uris)
    then some (concat "OAuth client " (concat (quoted id) " has invalid redirect URI"))
    else none

unfoldable pub check_clients : Services → Dict String OauthClient → Option String
unfolding check_client
check_clients x [] = none
check_clients x ((id, client) ∷ rest) = elim (check_client x id client) [
  | some text ↦ some text
  | none ↦ check_clients x rest
]

abbrev pub or_empty : Option (Dict String OauthClient) → Dict String OauthClient
or_empty none = []
or_empty (some clients) = clients

-- a state that was read becomes the registry
unfoldable pub accept_state : Services → OauthClientsState → OauthProvider → Outcome OauthProvider
unfolding check_clients
accept_state x state p =
    if not (nat_beq state.version 1)
    then fail (concat "unsupported OAuth client state version " (decimal state.version))
    else if not (str_beq state.issuer p.public_base)
    then fail "OAuth client state issuer does not match ZSHELL_PUBLIC_BASE_URL"
    else if ltb max_clients (length (or_empty state.clients))
    then fail "OAuth client state contains too many clients"
    else elim (check_clients x (or_empty state.clients)) [
      | some text ↦ fail text
      | none ↦ done (record p { clients = or_empty state.clients })
    ]

-- `loadClients`
unfoldable pub load_clients : Services → Disk → OauthProvider → Outcome OauthProvider
unfolding accept_state read_oauth_clients_state
load_clients x d p =
    if str_beq p.clients_file "" then done p else elim (read_oauth_clients_state d) [
      | fail text ↦ fail text
      | done none ↦ done p
      | done (some state) ↦ accept_state x state p
    ]

-- `NewOAuthProvider`
unfoldable pub new_oauth_provider : String → String → String → OauthProvider
new_oauth_provider public_base admin_pin jwt_secret = record {
  public_base = public_base;
  admin_pin = admin_pin;
  jwt_secret = jwt_secret;
  clients = [];
  codes = [];
  clients_file = "";
}

-- `NewPersistentOAuthProvider`
unfoldable pub new_persistent_oauth_provider :
    Services → Disk → String → String → String → String → Outcome OauthProvider
unfolding load_clients new_oauth_provider
new_persistent_oauth_provider x d public_base admin_pin jwt_secret clients_file =
    load_clients x d
      (record (new_oauth_provider public_base admin_pin jwt_secret) { clients_file = clients_file })
