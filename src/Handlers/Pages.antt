-- ===== src/Handlers/Pages.antt =====
-- The pages of src/templates.rs that the visitor handlers render, each with what its template is
-- given, and the response that carries one.
use epistole.Prelude.{Text, text}

pub data Page : Type 0 where
  pending_page : Text → Text → Page
  confirm_interstitial : Text → Text → Page
  confirmed_page : Text → Page
  unsubscribe_interstitial : Text → Text → Page
  unsubscribed_page : Text → Page
  invalid_token_page : Text → Page

-- A page with its `Cache-Control` header.
pub record Rendered : Type 0 where
  pub cache_control : Text
  pub page : Page

-- The responses of confirm.rs and unsubscribe.rs are never stored.
abbrev pub no_store : Page → Rendered
no_store page = record { cache_control = text "no-store"; page = page }
