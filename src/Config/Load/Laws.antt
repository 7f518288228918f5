-- ===== src/Config/Load/Laws.antt =====
-- What holds of a configuration that loads.
use epistole.Prelude.{
  refl, ◌∷◌, All, Bool-cases, inl, inr, ℕ, ◌≤◌, ◌≡◌, ◌≢◌, [], none, some, Option, false, length,
  List, Text, text, to_ascii_lowercase, Result, ok, map_err, arith,
}
use epistole.Prelude.Results.{>>=-eq-ok}
use epistole.Config.{Config}
use epistole.Config.Proxies.{IpAddr, TrustedProxyRange}
use epistole.Config.Secrets.{
  validate_secret_strength, first_blocked, blocked_secret_substrs, contains,
}
use epistole.Config.Secrets.Grammar.{Occurs, contains_iff}
use epistole.Config.Load.{
  is_loopback, validate_bind_policy, resolve_secrets, validate_secrets, validate_caps, load,
}

-- The placeholders of the examples and instructions that come with the program.
abbrev pub placeholders : List Text
placeholders =
    text "change-me"
    ∷ text "changeme"
    ∷ text "replace_with"
    ∷ text "replace-me"
    ∷ text "phase-0-stub"
    ∷ text "phase0stub"
    ∷ text "your-secret-here"
    ∷ text "example"
    ∷ text "default"
    ∷ text "placeholder"
    ∷ text "todo"
    ∷ text "from step"
    ∷ text "<token_secret"
    ∷ text "<send_auth_token"
    ∷ text "<webhook_auth_token"
    ∷ text "<smtp_password"
    ∷ text "<smtp_username"
    ∷ text "<base64_random"
    ∷ text "<postmark_token"
    ∷ []

-- A secret that is long enough and in which no placeholder occurs, in capitals or not.
pub record IsStrong (secret : Text) (min_bytes : ℕ) : Type 0 where
  pub long : min_bytes ≤ length secret
  pub genuine : All (λ q. ¬ Occurs q (to_ascii_lowercase secret)) placeholders

first_blocked-none :
    (patterns : List Text) (lower : Text)
    → first_blocked patterns lower ≡ none
    → All (λ q. ¬ Occurs q lower) patterns
unfolding first_blocked
first_blocked-none [] lower h = tt
first_blocked-none (q ∷ patterns) lower h = elim (Bool-cases (contains q lower)) [
  | inl blocked ↦ cc (rw blocked at h)
  | inr clear ↦ (
    λ occurs. let found = (contains_iff q lower).1 occurs in cc,
    first_blocked-none patterns lower (rw clear at h),
  )
]

blocked_placeholders : blocked_secret_substrs ≡ placeholders
unfolding blocked_secret_substrs
blocked_placeholders = refl

validate_secret_strength-IsStrong :
    (secret field : Text) (min_bytes : ℕ)
    → validate_secret_strength secret field min_bytes ≡ ok tt
    → IsStrong secret min_bytes
unfolding validate_secret_strength
validate_secret_strength-IsStrong secret field min_bytes h =
    let clear : first_blocked blocked_secret_substrs (to_ascii_lowercase secret) ≡ none =
      ground arith in
    record {
      long = ground arith;
      genuine =
          first_blocked-none placeholders (to_ascii_lowercase secret)
            (rw blocked_placeholders at clear);
    }

module _ (parse_socket_addr : Text → Option IpAddr) where
  pub record IsSound (cfg : Config) : Type 0 where
    pub token_secret : IsStrong cfg.token_secret 32
    pub send_auth_token : IsStrong cfg.send_auth_token 24
    pub webhook_auth_token : IsStrong cfg.webhook_auth_token 24
    pub password : IsStrong cfg.smtp.password 16
    pub username : IsStrong cfg.smtp.username 8
    pub per_hour : 1 ≤ cfg.send_cap_per_hour
    pub per_day : cfg.send_cap_per_hour ≤ cfg.send_cap_per_day
    pub bind :
        (ip : IpAddr)
        → parse_socket_addr cfg.bind ≡ some ip
        → is_loopback ip ≡ false
        → cfg.trusted_proxies ≢ []

  module _ (env : Text → Option Text) where
    caps_sound :
        (cfg : Config)
        → validate_caps parse_socket_addr env cfg ≡ ok tt
        → (1 ≤ cfg.send_cap_per_hour) × (cfg.send_cap_per_hour ≤ cfg.send_cap_per_day)
    unfolding validate_caps
    caps_sound cfg h = ground arith

    bind_sound :
        (bind : Text) (proxies : List TrustedProxyRange) (ip : IpAddr)
        → validate_bind_policy parse_socket_addr env bind proxies ≡ ok tt
        → parse_socket_addr bind ≡ some ip
        → is_loopback ip ≡ false
        → proxies ≢ []
    unfolding validate_bind_policy
    bind_sound bind proxies ip h e l empty = ground arith

    secrets_sound :
        (cfg : Config)
        → validate_secrets parse_socket_addr env cfg ≡ ok tt
        → IsStrong cfg.token_secret 32
          × IsStrong cfg.send_auth_token 24
          × IsStrong cfg.webhook_auth_token 24
          × IsStrong cfg.smtp.password 16
          × IsStrong cfg.smtp.username 8
    unfolding validate_secrets
    secrets_sound cfg h =
        let (_, a, h1) =
          >>=-eq-ok (validate_secret_strength cfg.token_secret (text "token_secret") 32) _ h in
        let (_, b, h2) =
          >>=-eq-ok (validate_secret_strength cfg.send_auth_token (text "send_auth_token") 24) _
            h1 in
        let (_, c, h3) =
          >>=-eq-ok (validate_secret_strength cfg.webhook_auth_token (text "webhook_auth_token") 24)
            _ h2 in
        let (_, d, e) =
          >>=-eq-ok (validate_secret_strength cfg.smtp.password (text "smtp.password") 16) _ h3 in
        (
          validate_secret_strength-IsStrong _ _ _ a,
          validate_secret_strength-IsStrong _ _ _ b,
          validate_secret_strength-IsStrong _ _ _ c,
          validate_secret_strength-IsStrong _ _ _ d,
          validate_secret_strength-IsStrong _ _ _ e,
        )

    sound :
        (cfg : Config)
        → validate_secrets parse_socket_addr env cfg ≡ ok tt
        → validate_caps parse_socket_addr env cfg ≡ ok tt
        → validate_bind_policy parse_socket_addr env cfg.bind cfg.trusted_proxies ≡ ok tt
        → IsSound cfg
    sound cfg secrets caps bind =
        let (token_secret, send_auth_token, webhook_auth_token, password, username) =
          secrets_sound cfg secrets in
        let (per_hour, per_day) = caps_sound cfg caps in
        record {
          token_secret = token_secret;
          send_auth_token = send_auth_token;
          webhook_auth_token = webhook_auth_token;
          password = password;
          username = username;
          per_hour = per_hour;
          per_day = per_day;
          bind = λ ip. bind_sound cfg.bind cfg.trusted_proxies ip bind;
        }

    -- A configuration that loads has five secrets of the required lengths in which none of 19
    -- placeholders occurs, in capitals or not, an hourly cap of at least 1 and a daily cap no
    -- smaller, and a trusted proxy wherever its address parses and is not the loopback.
    pub load-IsSound :
        (path : Text) (read : Result Text Text) (from_str : Text → Result Text Config)
        (cfg : Config)
        → load parse_socket_addr env path read from_str ≡ ok cfg
        → IsSound cfg
    unfolding load
    load-IsSound path read from_str cfg h =
        let (bytes, _, h1) = >>=-eq-ok (map_err read _) _ h in
        let (parsed, _, h2) = >>=-eq-ok (map_err (from_str bytes) _) _ h1 in
        let (resolved, _, h3) = >>=-eq-ok (resolve_secrets parse_socket_addr env parsed) _ h2 in
        let (_, secrets, h4) = >>=-eq-ok (validate_secrets parse_socket_addr env resolved) _ h3 in
        let (_, caps, h5) = >>=-eq-ok (validate_caps parse_socket_addr env resolved) _ h4 in
        let (_, bind, h6) =
          >>=-eq-ok
            (validate_bind_policy parse_socket_addr env resolved.bind resolved.trusted_proxies) _
            h5 in
        let same : resolved ≡ cfg = ground arith in rw (← same) (sound resolved secrets caps bind)
