-- ===== src/Tests/Secrets.antt =====
-- The theorem about references to the environment at a concrete value.
use epistole.Prelude.{◌≡◌, ◌↔◌, Text, text, Option, some, none, text_eq, if◌then◌else◌, ok}
use epistole.Config.Secrets.{resolve_secret_env}
use epistole.Config.Secrets.Env.{StandsFor, resolve_secret_env_iff}

abbrev env : Text → Option Text
env name = if text_eq name (text "TOKEN_SECRET") then some (text "k3j4h5g6") else none

resolve_secret_env_iff_example :
    (resolve_secret_env env (text "${TOKEN_SECRET}") (text "token_secret") ≡ ok (text "k3j4h5g6"))
    ↔ StandsFor env (text "${TOKEN_SECRET}") (text "k3j4h5g6")
resolve_secret_env_iff_example =
    resolve_secret_env_iff env (text "${TOKEN_SECRET}") (text "token_secret") (text "k3j4h5g6")
