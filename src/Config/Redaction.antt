-- ===== src/Config/Redaction.antt =====
-- The `Debug` instances of src/config.rs, over the builder of `std::fmt`.
use epistole.Prelude.{ℕ, List, [], ◌∷◌, Text, text, ◌≡◌, refl}
use epistole.Config.{Config, Smtp, Brand}
use epistole.Config.Proxies.{TrustedProxyRange}

-- What the instances use of `std::fmt`: `debug_struct` with its fields, and the `Debug` text of each
-- type of field.
pub record Formatter : Type 0 where
  pub debug_struct : Text → List (Text × Text) → Text
  pub debug_text : Text → Text
  pub debug_u64 : ℕ → Text
  pub debug_brand : Brand → Text
  pub debug_ranges : List TrustedProxyRange → Text

module _ (f : Formatter) where
  open f use {debug_struct, debug_text, debug_u64, debug_brand, debug_ranges}

  abbrev redacted : Text
  redacted = debug_text (text "<redacted>")

  unfoldable pub debug_smtp : Smtp → Text
  debug_smtp smtp = debug_struct (text "Smtp") (
      (text "host", debug_text smtp.host)
      ∷ (text "port", debug_u64 smtp.port)
      ∷ (text "username", redacted)
      ∷ (text "password", redacted)
      ∷ [])

  unfoldable pub debug_config : Config → Text
  unfolding debug_smtp
  debug_config cfg = debug_struct (text "Config") (
      (text "bind", debug_text cfg.bind)
      ∷ (text "data_dir", debug_text cfg.data_dir)
      ∷ (text "base_url", debug_text cfg.base_url)
      ∷ (text "brand", debug_brand cfg.brand)
      ∷ (text "smtp", debug_smtp cfg.smtp)
      ∷ (text "token_secret", redacted)
      ∷ (text "send_auth_token", redacted)
      ∷ (text "webhook_auth_token", redacted)
      ∷ (text "send_cap_per_hour", debug_u64 cfg.send_cap_per_hour)
      ∷ (text "send_cap_per_day", debug_u64 cfg.send_cap_per_day)
      ∷ (text "trusted_proxies", debug_ranges cfg.trusted_proxies)
      ∷ [])

  -- A configuration without its five secrets.
  abbrev pub public_part : Config → Config
  public_part cfg = record cfg {
    smtp = record cfg.smtp { username = []; password = [] };
    token_secret = [];
    send_auth_token = [];
    webhook_auth_token = [];
  }

  -- The text of a configuration depends on none of its secrets.
  pub debug_config-public_part : (cfg : Config) → debug_config cfg ≡ debug_config (public_part cfg)
  unfolding debug_config debug_smtp
  debug_config-public_part cfg = refl
