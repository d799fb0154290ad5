-- ===== src/Gateway/Config.antt =====
-- internal/gateway/config.go: the configuration, from the environment.
use Prim.Native.Char.{code}
use zshell_gateway.Base.{
  String, Bool, true, false, not, ◌||◌, ◌&&◌, Option, none, some, str_beq, nat_beq, leb, ltb,
  if◌then◌else◌,
}
use zshell_gateway.Text.Decimal.{concat}
use zshell_gateway.Text.Hex.{to_lower}
use zshell_gateway.Text.Trim.{byte_len, trim_space}
use zshell_gateway.Gateway.Types.{Url, Outcome, done, fail}

pub record Config : Type 0 where
  pub listen_addr : String
  pub device_token : String
  pub public_base : String
  pub admin_pin : String
  pub jwt_secret : String
  pub oauth_clients_file : String

-- `os.Getenv`, and the functions of the standard library: the error of `net.SplitHostPort`,
-- `url.Parse`, the default file below `os.UserConfigDir()`, and `filepath.Abs`.
pub record Environment : Type 0 where
  pub getenv : String → String
  pub split_host_port : String → Option String
  pub parse_url : String → Outcome Url
  pub default_clients_file : Outcome String
  pub absolute : String → Outcome String

-- `strings.TrimRight(s, "/")`
unfoldable pub trim_slashes : String → String
trim_slashes String.[] = String.[]
trim_slashes (String.◌∷◌ c s) =
    let rest = trim_slashes s in
    if str_beq rest "" && nat_beq (code c) b'/' then String.[] else String.◌∷◌ c rest

-- `isLoopbackHTTP`
unfoldable pub is_loopback_http : Url → Bool
is_loopback_http u =
    if not (str_beq u.scheme "http") || str_beq u.host ""
    then false
    else let host = to_lower u.hostname in
      str_beq host "127.0.0.1" || str_beq host "localhost" || str_beq host "::1"

-- `isHex`
unfoldable pub is_hex : String → Bool
is_hex String.[] = true
is_hex (String.◌∷◌ c s) =
    ((leb b'0' (code c) && leb (code c) b'9')
      || (leb b'a' (code c) && leb (code c) b'f')
      || (leb b'A' (code c) && leb (code c) b'F'))
    && is_hex s

-- the checks on the public origin, with the text of the error
unfoldable pub check_public_url : Url → Option String
check_public_url u =
    if not (str_beq u.scheme "https") && not (is_loopback_http u)
    then some "ZSHELL_PUBLIC_BASE_URL must use https, except loopback http for local testing"
    else if str_beq u.host ""
        || u.has_user
        || not (str_beq u.raw_query "")
        || not (str_beq u.fragment "")
        || (not (str_beq u.path "") && not (str_beq u.path "/"))
    then some
        "ZSHELL_PUBLIC_BASE_URL must be an origin without path, credentials, query, or fragment"
    else none

abbrev pub public_url_error : Outcome Url → Option String
public_url_error (fail text) = some (concat "parse ZSHELL_PUBLIC_BASE_URL: " text)
public_url_error (done u) = check_public_url u

abbrev pub or_default : String → String → String
or_default value default = if str_beq value "" then default else value

abbrev pub out_of_range : String → Bool
out_of_range text = ltb (byte_len text) 24 || ltb 512 (byte_len text)

-- the checks of `LoadConfig` in their order, up to the path of the clients' file
unfoldable pub config_error : Environment → Config → Option String
unfolding check_public_url is_hex
config_error e c = elim (e.split_host_port c.listen_addr) [
  | some text ↦ some (concat "ZSHELL_MCP_LISTEN must be host:port: " text)
  | none ↦
      if out_of_range c.device_token
      then some "ZSHELL_DEVICE_TOKEN must contain between 24 and 512 characters"
      else if str_beq c.public_base ""
      then some "ZSHELL_PUBLIC_BASE_URL is required"
      else elim (public_url_error (e.parse_url c.public_base)) [
        | some text ↦ some text
        | none ↦
            if out_of_range c.admin_pin
            then some "ZSHELL_OAUTH_ADMIN_PIN must contain between 24 and 512 characters"
            else if not (nat_beq (byte_len c.jwt_secret) 64) || not (is_hex c.jwt_secret)
            then some "ZSHELL_OAUTH_JWT_SECRET must contain exactly 64 hexadecimal characters"
            else none
      ]
]

-- the file as it is configured, or the default
abbrev pub clients_file_of : Environment → String → Outcome String
clients_file_of e configured =
    if str_beq configured "" then e.default_clients_file else done configured

-- the path is made absolute
unfoldable pub with_clients_file : Environment → Config → Outcome Config
with_clients_file e c = elim (clients_file_of e c.oauth_clients_file) [
  | fail text ↦ fail (concat "resolve user config directory for OAuth clients: " text)
  | done file ↦ elim (e.absolute file) [
    | fail text ↦ fail (concat "resolve ZSHELL_OAUTH_CLIENTS_FILE: " text)
    | done path ↦ done (record c { oauth_clients_file = path })
  ]
]

-- what the variables say, trimmed as `LoadConfig` trims them; the PIN is taken as it is
unfoldable pub read_config : Environment → Config
unfolding trim_slashes
read_config e = record {
  listen_addr = or_default (trim_space (e.getenv "ZSHELL_MCP_LISTEN")) "127.0.0.1:8765";
  device_token = trim_space (e.getenv "ZSHELL_DEVICE_TOKEN");
  public_base = trim_slashes (trim_space (e.getenv "ZSHELL_PUBLIC_BASE_URL"));
  admin_pin = e.getenv "ZSHELL_OAUTH_ADMIN_PIN";
  jwt_secret = trim_space (e.getenv "ZSHELL_OAUTH_JWT_SECRET");
  oauth_clients_file = trim_space (e.getenv "ZSHELL_OAUTH_CLIENTS_FILE");
}

-- `LoadConfig`
unfoldable pub load_config : Environment → Outcome Config
unfolding read_config config_error with_clients_file
load_config e = elim (config_error e (read_config e)) [
  | some text ↦ fail text
  | none ↦ with_clients_file e (read_config e)
]
