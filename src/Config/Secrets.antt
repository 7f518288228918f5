-- ===== src/Config/Secrets.antt =====
-- The secrets of src/config.rs: references to the environment, and their strength.
pub mod Grammar
pub mod Env
use epistole.Prelude.{
  ℕ, ◌++◌, [], ◌∷◌, List, Bool, true, false, ◌&&◌, ◌||◌, if◌then◌else◌, ◌==◌, ltb, leb, length,
  Option, none, some, Text, text, to_ascii_lowercase, Result, ok, err,
}
use epistole.Prelude.Decimal.{show_u64}
use epistole.Error.{Error, config}
use epistole.Handlers.Bearer.{strip_prefix}

-- Whether `s` begins with `q`, and whether it holds `q` anywhere (`str::contains`).
unfoldable pub starts_with : Text → Text → Bool
starts_with [] s = true
starts_with (c ∷ q) [] = false
starts_with (c ∷ q) (d ∷ s) = c == d && starts_with q s

unfoldable pub contains : Text → Text → Bool
unfolding starts_with
contains q [] = starts_with q []
contains q (c ∷ s) = starts_with q (c ∷ s) || contains q s

abbrev pub is_upper : ℕ → Bool
is_upper c = leb b'A' c && leb c b'Z'

abbrev pub is_digit : ℕ → Bool
is_digit c = leb b'0' c && leb c b'9'

abbrev pub is_underscore : ℕ → Bool
is_underscore c = c == b'_'

unfoldable pub all_name : Text → Bool
all_name [] = true
all_name (c ∷ s) = (is_upper c || (is_digit c || is_underscore c)) && all_name s

-- `strip_suffix('}')`
unfoldable pub strip_brace : Text → Option Text
strip_brace [] = none
strip_brace (c ∷ []) = if c == b'}' then some [] else none
strip_brace (c ∷ d ∷ s) = elim (strip_brace (d ∷ s)) [ none ↦ none | some r ↦ some (c ∷ r) ]

-- The part between `${` and `}`.
unfoldable pub env_name : Text → Option Text
unfolding strip_prefix strip_brace text
env_name raw = elim (strip_prefix (text "${") raw) [ none ↦ none | some s ↦ strip_brace s ]

-- `[A-Z_][A-Z0-9_]*`
unfoldable pub is_name : Text → Bool
unfolding all_name
is_name [] = false
is_name (c ∷ s) = (is_upper c || is_underscore c) && all_name s

unfoldable pub is_valid_env_ref : Text → Bool
unfolding env_name is_name
is_valid_env_ref raw = elim (env_name raw) [ none ↦ false | some name ↦ is_name name ]

-- `unwrap_or(raw)`
abbrev or_raw : Option Text → Text → Text
or_raw none raw = raw
or_raw (some name) raw = name

abbrev is_empty : Text → Bool
is_empty [] = true
is_empty (c ∷ s) = false

abbrev em_dash : Text
em_dash = 0xe2 ∷ 0x80 ∷ 0x94 ∷ []

-- The value of an environment variable, or the refusal of an empty one.
abbrev non_empty : Text → Text → Text → Result Error Text
non_empty field name resolved =
    if is_empty resolved
    then err (config (field ++ (text ": ${" ++ (name ++ text "} env var is empty"))))
    else ok resolved

-- `resolve_secret_env`, over the environment `env`.
unfoldable pub resolve_secret_env : (Text → Option Text) → Text → Text → Result Error Text
resolve_secret_env env value field =
    if contains (text "${") value
    then if is_valid_env_ref value
      then (let name = or_raw (env_name value) value in
          elim (env name) [
            | none ↦
                err (
                  config
                    (field ++ (text ": ${" ++ (name ++ text "} referenced but env var unset"))))
            | some resolved ↦ non_empty field name resolved
          ])
      else err (
          config (
            field
            ++ (text ": malformed env reference '"
                ++ (value
                    ++ (text "' "
                        ++ (em_dash
                            ++ text
                                " expected exactly '${NAME}' where NAME matches [A-Z_][A-Z0-9_]*. Trim whitespace, fix braces, and don't embed the reference in a larger string."))))))
    else ok value

-- `BLOCKED_SECRET_SUBSTRS`
unfoldable pub blocked_secret_substrs : List Text
blocked_secret_substrs =
    text "change-me"
    ∷ text "changeme"
    ∷ text "replace_with"
    ∷ text "replace-me"
    ∷ text "phase-0-stub"
    ∷ text "phase0stub"
    ∷ text "your-secret-here"
    ∷ text "example"
    ∷ text "default"
    ∷ text "placeholder"
    ∷ text "todo"
    ∷ text "from step"
    ∷ text "<token_secret"
    ∷ text "<send_auth_token"
    ∷ text "<webhook_auth_token"
    ∷ text "<smtp_password"
    ∷ text "<smtp_username"
    ∷ text "<base64_random"
    ∷ text "<postmark_token"
    ∷ []

-- The first pattern that `lower` holds.
unfoldable pub first_blocked : List Text → Text → Option Text
first_blocked [] lower = none
first_blocked (pattern ∷ patterns) lower =
    if contains pattern lower then some pattern else first_blocked patterns lower

unfoldable pub validate_secret_strength : Text → Text → ℕ → Result Error (Unit {0})
validate_secret_strength raw field min_bytes =
    if ltb (length raw) min_bytes
    then err (
        config (
          field
          ++ (text ": too short "
              ++ (em_dash
                  ++ (text " got "
                      ++ (show_u64 (length raw)
                          ++ (text " bytes, minimum " ++ show_u64 min_bytes)))))))
    else elim (first_blocked blocked_secret_substrs (to_ascii_lowercase raw)) [
      | none ↦ ok tt
      | some pattern ↦ err (
          config (
            field
            ++ (text ": contains placeholder pattern '"
                ++ (pattern
                    ++ (text "' "
                        ++ (em_dash
                            ++ text
                                " generate a real secret (head -c 32 /dev/urandom | base64 -w 0) and set it in /etc/epistole.env"))))))
    ]
