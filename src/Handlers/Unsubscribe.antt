-- ===== src/Handlers/Unsubscribe.antt =====
-- src/handlers/unsubscribe.rs: the preview, the commit and the one-click commit of an unsubscription.
pub mod Refines
pub mod Safety
use epistole.Prelude.{
  ℕ, ◌+◌, ◌^◌, ◌%◌, ◌++◌, [], ◌∷◌, none, some, Option, if◌then◌else◌, ◌==◌, Text, text, text_eq,
  Result, ok, err,
}
use epistole.Prelude.Effects.{Exec, pure, raise, ◌>>=◌, ◌>>◌}
use epistole.Error.{Error, bad_request}
use epistole.Crypto.{Crypto}
use epistole.Config.{Config}
use epistole.Platform.{Platform}
use epistole.Records.{Subscriber, unsubscribed, state_eq}
use epistole.Token
use epistole.Token.{Token, TokenKind}
use epistole.Store.Subscribers.{subscriber_get, subscriber_put}
use epistole.Handlers.Links.{verified}
use epistole.Handlers.Pages.{
  Rendered, Page, no_store, unsubscribed_page, invalid_token_page, unsubscribe_interstitial,
}

-- `generation += 1` on a `u64`, which wraps around where overflow checks are off.
abbrev pub next_generation : ℕ → ℕ
next_generation g = (g + 1) % 2 ^ 64

abbrev section_sign : Text
section_sign = 0xc2 ∷ 0xa7 ∷ []

-- The refusal of a body that is not the one-click marker.
pub not_one_click : Error
not_one_click = bad_request (
    text "List-Unsubscribe-Post body must be exactly 'List-Unsubscribe=One-Click' per RFC 8058 "
    ++ (section_sign ++ text "3.1"))

module _ (p : Platform) (crypto : Crypto) (config : Config) where
  open p use {World, Time, now_utc}

  abbrev gone : Page
  gone = unsubscribed_page config.brand.name

  abbrev invalid_token : Page
  invalid_token = invalid_token_page config.brand.name

  -- The page that the preview chooses.
  unfoldable pub preview_page : Text → Token → Option (Subscriber Time) → Page
  preview_page raw t none = invalid_token
  preview_page raw t (some s) =
      if state_eq s.state unsubscribed
      then gone
      else if s.generation == t.generation
      then unsubscribe_interstitial config.brand.name raw
      else invalid_token

  preview : Text → Option Token → Exec World Error Rendered
  preview raw none = pure (no_store invalid_token)
  preview raw (some t) = do
    subscriber ← subscriber_get p t.email
    pure (no_store (preview_page raw t subscriber))

  -- `GET /unsubscribe`
  unfoldable pub get : Text → Exec World Error Rendered
  unfolding preview
  get raw w =
      let (now, w') = now_utc w in
      preview raw (verified p crypto config Token.unsubscribe raw now) w'

  -- The arms of the `match` on the row, each with what it writes.
  unfoldable pub apply_row : Token → Time → Option (Subscriber Time) → Exec World Error Page
  apply_row t now none = pure invalid_token
  apply_row t now (some s) =
      if state_eq s.state unsubscribed
      then pure gone
      else if s.generation == t.generation
      then (do
        subscriber_put p (record s {
          state = unsubscribed;
          unsubscribed_at = some now;
          generation = next_generation s.generation;
        })
        pure gone)
      else pure invalid_token

  apply_token : Time → Option Token → Exec World Error Page
  apply_token now none = pure invalid_token
  apply_token now (some t) = do subscriber ← subscriber_get p t.email; apply_row t now subscriber

  unfoldable pub apply : Text → Time → Exec World Error Page
  unfolding apply_token
  apply raw now = apply_token now (verified p crypto config Token.unsubscribe raw now)

  respond : Text → Time → Exec World Error Rendered
  respond raw now = do page ← apply raw now; pure (no_store page)

  -- `POST /unsubscribe`
  unfoldable pub post : Text → Exec World Error Rendered
  unfolding respond
  post raw w = let (now, w') = now_utc w in respond raw now w'

  -- `POST /unsubscribe/one-click`: the token of the query and the field `List-Unsubscribe`.
  unfoldable pub one_click : Text → Text → Exec World Error Rendered
  unfolding respond
  one_click raw list_unsubscribe w =
      let (now, w') = now_utc w in
      if text_eq list_unsubscribe (text "One-Click")
      then respond raw now w'
      else raise not_one_click w
