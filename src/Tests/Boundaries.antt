-- ===== src/Tests/Boundaries.antt =====
-- The theorems about what comes in from outside: the configuration, the rate-limit key, the errors
-- that go out, and a request to subscribe.
use epistole.Prelude.{
  ◌≤◌, to_ascii_lowercase, lower_byte, ◌≡◌, refl, ok, none, some, Option, Text, text, Result, arith,
  [], ◌∷◌, ◌++◌,
}
use epistole.Error.{smtp, store, into_response}
use epistole.Error.Opaque.{into_response-opaque}
use epistole.Config.{Config}
use epistole.Config.Proxies.{IpAddr, v4}
use epistole.Config.Load.{
  load, resolve_secrets, validate_secrets, validate_caps, validate_bind_policy, is_loopback,
}
use epistole.Config.Secrets.{
  resolve_secret_env, validate_secret_strength, first_blocked, blocked_secret_substrs, contains,
  starts_with,
}
use epistole.Config.Load.Laws.{IsSound, load-IsSound}
use epistole.RateKey.{extract}
use epistole.RateKey.Trust.{extract-appended}
use epistole.Examples.Links.{config}

status_lem : 500 ≤ (into_response (smtp (text "refused"))).status
unfolding into_response
status_lem = omega arith

store_lem : 500 ≤ (into_response (store (text "disk"))).status
unfolding into_response
store_lem = omega arith

into_response-opaque_example :
    into_response (smtp (text "refused")) ≡ into_response (store (text "disk"))
into_response-opaque_example =
    into_response-opaque (smtp (text "refused")) (store (text "disk")) status_lem store_lem

-- Headers are ASCII, and no address parses.
abbrev read : Text → Option Text
read s = some s

abbrev parse : Text → Option IpAddr
parse s = none

extract-appended_example :
    extract read parse [] (some (v4 1)) (some (text "1.1.1.1" ++ (b',' ∷ text "10.0.0.1")))
    ≡ extract read parse [] (some (v4 1)) (some (text "10.0.0.1"))
extract-appended_example =
    extract-appended read parse [] (some (v4 1)) (text "1.1.1.1") (text "10.0.0.1") refl refl

abbrev pub strong : Config
strong = record config {
  bind = text "127.0.0.1:9090";
  smtp = record config.smtp {
    username = text "k3j4h5g6f7";
    password = text "k3j4h5g6f7k3j4h5g6f7";
  };
  token_secret = text "k3j4h5g6f7k3j4h5g6f7k3j4h5g6f7k3j4h5g6f7";
  send_auth_token = text "k3j4h5g6f7k3j4h5g6f7k3j4h5";
  webhook_auth_token = text "p3j4h5g6f7k3j4h5g6f7k3j4h5";
}

abbrev pub socket : Text → Option IpAddr
socket s = some (v4 2130706433)

abbrev file : Result Text Text
file = ok (text "...")

abbrev toml : Text → Result Text Config
toml s = ok strong

loaded_lem : load socket (λ name. none) (text "epistole.toml") file toml ≡ ok strong
unfolding load resolve_secrets resolve_secret_env validate_secrets validate_caps
    validate_bind_policy validate_secret_strength first_blocked blocked_secret_substrs contains
    starts_with is_loopback text to_ascii_lowercase lower_byte
loaded_lem = refl

load-IsSound_example : IsSound socket strong
load-IsSound_example =
    load-IsSound socket (λ name. none) (text "epistole.toml") file toml strong loaded_lem
