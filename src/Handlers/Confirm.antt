-- ===== src/Handlers/Confirm.antt =====
-- src/handlers/confirm.rs: the preview and the commit of a confirmation.
pub mod Refines
pub mod Safety
use epistole.Prelude.{
  ℕ, ◌≡◌, ◌++◌, none, some, Option, Bool, true, false, if◌then◌else◌, ◌==◌, Text, text, Result, ok,
  err,
}
use epistole.Prelude.Effects.{Exec, pure, ◌>>=◌, ◌>>◌}
use epistole.Error.{Error}
use epistole.Crypto.{Crypto}
use epistole.Config.{Config}
use epistole.Platform.{Platform}
use epistole.Records.{Subscriber, SubscriberState, active, state_eq}
use epistole.Token
use epistole.Token.{Token, TokenKind, kind_eq}
use epistole.Store.Subscribers.{subscriber_get, subscriber_put}
use epistole.Handlers.Links.{verified}
use epistole.Handlers.Pages.{
  Rendered, Page, no_store, confirmed_page, invalid_token_page, confirm_interstitial,
}

module _ (p : Platform) (crypto : Crypto) (config : Config) where
  open p use {World, Time, now_utc, unix_timestamp}

  abbrev confirmed : Page
  confirmed = confirmed_page config.brand.name

  abbrev invalid_token : Page
  invalid_token = invalid_token_page config.brand.name

  -- The page that the preview chooses.
  unfoldable pub preview_page : Text → Token → Option (Subscriber Time) → Page
  preview_page raw t none = confirm_interstitial config.brand.name raw
  preview_page raw t (some s) =
      if state_eq s.state active
      then confirmed
      else if s.generation == t.generation
      then confirm_interstitial config.brand.name raw
      else invalid_token

  preview : Text → Option Token → Exec World Error Rendered
  preview raw none = pure (no_store invalid_token)
  preview raw (some t) = do
    subscriber ← subscriber_get p t.email
    pure (no_store (preview_page raw t subscriber))

  -- `GET /confirm`
  unfoldable pub get : Text → Exec World Error Rendered
  unfolding preview
  get raw w =
      let (now, w') = now_utc w in preview raw (verified p crypto config Token.confirm raw now) w'

  -- The arms of the `match` on the row, each with what it writes.
  unfoldable pub commit_row : Token → Time → Option (Subscriber Time) → Exec World Error Page
  commit_row t now none = do
    subscriber_put p (record {
      email = t.email;
      state = active;
      created_at = now;
      confirmed_at = some now;
      unsubscribed_at = none;
      generation = t.generation;
    })
    pure confirmed
  commit_row t now (some s) =
      if state_eq s.state active
      then pure confirmed
      else if s.generation == t.generation
      then (do
        subscriber_put p (record s { state = active; confirmed_at = some now })
        pure confirmed)
      else pure invalid_token

  commit : Time → Option Token → Exec World Error Rendered
  commit now none = pure (no_store invalid_token)
  commit now (some t) = do
    subscriber ← subscriber_get p t.email
    page ← commit_row t now subscriber
    pure (no_store page)

  -- `POST /confirm`
  unfoldable pub post : Text → Exec World Error Rendered
  unfolding commit
  post raw w =
      let (now, w') = now_utc w in commit now (verified p crypto config Token.confirm raw now) w'
