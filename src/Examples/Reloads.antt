-- ===== src/Examples/Reloads.antt =====
-- A client registers while the primary file is broken, and the gateway restarts.
use zshell_gateway.Base.{
  ◌≡◌, ◌≢◌, refl, false, String, [], ◌∷◌, string_eq, none, some, arith, eq_iff,
}
use zshell_gateway.Text.Trim.{byte_len}
use zshell_gateway.Text.Hex.{to_lower}
use zshell_gateway.Gateway.Types.{Url, OauthClient, OauthProvider, Services, done}
use zshell_gateway.Gateway.Checks.{valid_redirect_uri, plain, is_media_type}
use zshell_gateway.Gateway.ClientsFile.{
  Disk, Faults, stored, broken, state_of, save_clients_locked, check_clients, check_client,
  load_clients,
}
use zshell_gateway.Gateway.ClientsFile.Reload.{restarted}
use zshell_gateway.Gateway.Endpoints.{
  Request, Registration, created, client_of, check_registration, handle_register,
}
use zshell_gateway.Gateway.Endpoints.Survives.{handle_register-loads}
use zshell_gateway.Text.Base64.{encode}
use zshell_gateway.Dict.{get, put}
use zshell_gateway.Examples.Oauth.{services, provider}

abbrev https_url : Url
https_url = record {
  scheme = "https";
  host = "r";
  hostname = "r";
  has_user = false;
  path = "";
  raw_query = "";
  fragment = "";
}

abbrev url_services : Services
url_services = record services { parse_url = λ _. some https_url }

abbrev broken_disk : Disk
broken_disk = record { primary = some (broken "unexpected end of JSON input"); backup = none }

abbrev no_faults : Faults
no_faults = record {
  make_dir = none;
  create_temp = none;
  write_temp = none;
  stat = none;
  keeps_old_backup = false;
  to_backup = none;
  install = none;
  restore_fails = false;
  keeps_backup = false;
}

abbrev asks : Request Registration
asks = record {
  method = "POST";
  content_type = "application/json";
  body = some (record { redirect_uris = "https://r" ∷ []; client_name = "app" });
}

abbrev json_services : Services
json_services = record url_services { media_type = λ header. some header }

abbrev new_client : OauthClient
new_client =
    client_of "zshell-ABCD" (record { redirect_uris = "https://r" ∷ []; client_name = "app" })

abbrev grown_provider : OauthProvider
grown_provider = record provider { clients = put "zshell-ABCD" new_client provider.clients }

abbrev new_disk : Disk
new_disk = record { primary = some (stored (state_of grown_provider)); backup = none }

valid : check_clients json_services provider.clients ≡ none
unfolding check_clients check_client valid_redirect_uri plain byte_len to_lower
valid = refl

named_file : ◌≢◌ {A = String} "/clients.json" ""
named_file e = ground (arith, (eq_iff "/clients.json" "").1 e)

answers :
    handle_register json_services no_faults (some (0 ∷ 16 ∷ 131 ∷ [])) asks provider broken_disk
    ≡ (created new_client "app", grown_provider, new_disk)
unfolding handle_register is_media_type to_lower check_registration valid_redirect_uri plain
    byte_len encode put save_clients_locked
answers = refl

handle_register-loads_example :
    (load_clients json_services new_disk (restarted grown_provider)
      ≡ done (record grown_provider { codes = [] }))
    × (get new_client.id grown_provider.clients ≡ some new_client)
    × (check_clients json_services grown_provider.clients ≡ none)
handle_register-loads_example =
    handle_register-loads json_services no_faults (some (0 ∷ 16 ∷ 131 ∷ [])) asks provider
      broken_disk new_client "app" grown_provider new_disk named_file valid answers
