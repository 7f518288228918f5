-- ===== src/Config.antt =====
-- src/config.rs: the configuration that is the single source of truth at run time. A secret is the
-- text that it wraps.
pub mod Proxies
pub mod Load
pub mod Secrets
pub mod Redaction
use epistole.Prelude.{ℕ, Option, Text, List}
use epistole.Config.Proxies.{TrustedProxyRange}

pub record Brand : Type 0 where
  pub name : Text
  pub from_address : Text
  pub reply_to : Option Text

pub record Smtp : Type 0 where
  pub host : Text
  pub port : ℕ
  pub username : Text
  pub password : Text

pub record Config : Type 0 where
  pub bind : Text
  pub data_dir : Text
  pub base_url : Text
  pub brand : Brand
  pub smtp : Smtp
  pub token_secret : Text
  pub send_auth_token : Text
  pub webhook_auth_token : Text
  pub send_cap_per_hour : ℕ
  pub send_cap_per_day : ℕ
  pub trusted_proxies : List TrustedProxyRange
