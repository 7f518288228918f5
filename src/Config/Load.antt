-- ===== src/Config/Load.antt =====
-- `Config::load` of src/config.rs, from the parsed file on.
pub mod Laws
use epistole.Prelude.{
  ℕ, ◌/◌, ◌^◌, map_err, ◌++◌, [], ◌∷◌, List, Bool, true, false, ◌&&◌, not, if◌then◌else◌, ◌==◌, ltb,
  Option, none, some, Text, text, Result, ok, err,
}
use epistole.Prelude.Results.{◌>>=◌}
use epistole.Prelude.Decimal.{show_u64}
use epistole.Error.{Error, config}
use epistole.Config.{Config, Smtp}
use epistole.Config.Proxies.{IpAddr, v4, v6, TrustedProxyRange}
use epistole.Config.Secrets.{resolve_secret_env, validate_secret_strength}

infixl 10 ◌>>◌
abbrev ◌>>◌ : {B : Type 0} → Result Error (Unit {0}) → Result Error B → Result Error B
m >> k = m >>= λ _. k

-- `IpAddr::is_loopback`: 127.0.0.0/8 and ::1.
unfoldable pub is_loopback : IpAddr → Bool
is_loopback (v4 a) = a / 2 ^ 24 == 127
is_loopback (v6 a) = a == 1

abbrev is_nil : List TrustedProxyRange → Bool
is_nil [] = true
is_nil (r ∷ rs) = false

abbrev em_dash : Text
em_dash = 0xe2 ∷ 0x80 ∷ 0x94 ∷ []

-- `?` on a test that refuses
abbrev refuse : Bool → Text → Result Error (Unit {0})
refuse true reason = err (config reason)
refuse false reason = ok tt

-- The standard library's parser of socket addresses and the process environment are arguments.
module _ (parse_socket_addr : Text → Option IpAddr) (env : Text → Option Text) where
  unfoldable pub validate_bind_policy : Text → List TrustedProxyRange → Result Error (Unit {0})
  validate_bind_policy bind trusted_proxies = elim (parse_socket_addr bind) [
    | none ↦ ok tt
    | some ip ↦ refuse (not (is_loopback ip) && is_nil trusted_proxies) (
        text "bind "
        ++ (bind
            ++ (text " is not loopback and trusted_proxies is empty "
                ++ (em_dash
                    ++ text
                        " a reverse proxy is expected in front of a non-loopback bind, so set trusted_proxies to its address(es) or bind to 127.0.0.1 / ::1"))))
  ]

  -- The five secret fields, resolved from the environment.
  unfoldable pub resolve_secrets : Config → Result Error Config
  resolve_secrets cfg = do
    token_secret ← resolve_secret_env env cfg.token_secret (text "token_secret")
    send_auth_token ← resolve_secret_env env cfg.send_auth_token (text "send_auth_token")
    webhook_auth_token ← resolve_secret_env env cfg.webhook_auth_token (text "webhook_auth_token")
    username ← resolve_secret_env env cfg.smtp.username (text "smtp.username")
    password ← resolve_secret_env env cfg.smtp.password (text "smtp.password")
    ok (record cfg {
      smtp = record cfg.smtp { username = username; password = password };
      token_secret = token_secret;
      send_auth_token = send_auth_token;
      webhook_auth_token = webhook_auth_token;
    })

  unfoldable pub validate_secrets : Config → Result Error (Unit {0})
  validate_secrets cfg = do
    validate_secret_strength cfg.token_secret (text "token_secret") 32
    validate_secret_strength cfg.send_auth_token (text "send_auth_token") 24
    validate_secret_strength cfg.webhook_auth_token (text "webhook_auth_token") 24
    validate_secret_strength cfg.smtp.password (text "smtp.password") 16
    validate_secret_strength cfg.smtp.username (text "smtp.username") 8

  unfoldable pub validate_caps : Config → Result Error (Unit {0})
  validate_caps cfg = do
    refuse (cfg.send_cap_per_hour == 0) (text "send_cap_per_hour must be at least 1")
    refuse (cfg.send_cap_per_day == 0) (text "send_cap_per_day must be at least 1")
    refuse (ltb cfg.send_cap_per_day cfg.send_cap_per_hour) (
        text "send_cap_per_day ("
        ++ (show_u64 cfg.send_cap_per_day
            ++ (text ") is smaller than send_cap_per_hour ("
                ++ (show_u64 cfg.send_cap_per_hour
                    ++ text
                        ") - a daily budget tighter than the hourly one can never be reached, which is almost certainly a misconfiguration"))))

  -- `read` is the file's text or the display of the failure to read it, `from_str` is
  -- `toml::from_str`, and `path` is the display of the file's path.
  unfoldable pub load : Text → Result Text Text → (Text → Result Text Config) → Result Error Config
  load path read from_str = do
    bytes ← map_err read (λ e. config (text "read " ++ (path ++ (text ": " ++ e))))
    parsed ← map_err (from_str bytes) (λ e. config (text "parse " ++ (path ++ (text ": " ++ e))))
    cfg ← resolve_secrets parsed
    validate_secrets cfg
    validate_caps cfg
    validate_bind_policy cfg.bind cfg.trusted_proxies
    ok cfg
