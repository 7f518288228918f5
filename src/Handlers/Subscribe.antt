-- ===== src/Handlers/Subscribe.antt =====
-- src/handlers/subscribe.rs: an address asks for a confirmation link.
pub mod Laws
pub mod Mailing
use epistole.Prelude.{
  ℕ, ◌++◌, [], ◌∷◌, ◌||◌, not, none, some, Option, Bool, true, false, if◌then◌else◌, ltb, length,
  Text, text, to_ascii_lowercase, Result, ok, err, map_err,
}
use epistole.Prelude.Results.{◌>>=◌ as bind}
use epistole.Prelude.Trim.{trim}
use epistole.Prelude.Int.{ℤ, pos, add_i64}
use epistole.Prelude.{◌*◌}
use epistole.Prelude.Effects.{Exec, call, lift, pure, raise, ◌>>=◌, ◌>>◌}
use epistole.Error.{Error, bad_request, smtp}
use epistole.Crypto.{Crypto}
use epistole.Config.{Config}
use epistole.Platform.{Platform}
use epistole.Records.{Subscriber, Envelope}
use epistole.Token
use epistole.Token.{Token, sign}
use epistole.Templates.{confirm_email_html}
use epistole.Store.Subscribers.{subscriber_get}
use epistole.Handlers.Pages.{Page, pending_page}

abbrev pub confirm_ttl_secs : ℤ
confirm_ttl_secs = pos (24 * 3600)

abbrev pub max_email_len : ℕ
max_email_len = 254

abbrev is_empty : Text → Bool
is_empty [] = true
is_empty (c ∷ s) = false

-- `<name> <<address>>`
abbrev pub from_line : Config → Text
from_line config = config.brand.name ++ (text " <" ++ (config.brand.from_address ++ text ">"))

-- The generation that a token is minted at; 0 for an address with no row.
abbrev pub generation_of : {Time : Type 0} → Option (Subscriber Time) → ℕ
generation_of none = 0
generation_of (some s) = s.generation

module _ (p : Platform) (crypto : Crypto) (config : Config) where
  open p use {World, Time, Message, unix_timestamp, parse_mailbox, compose}

  unfoldable pub build_confirm_message : Text → Text → Result Error Message
  build_confirm_message email_norm confirm_url =
      bind
        (map_err (parse_mailbox (from_line config)) (λ e. smtp (text "brand from_address: " ++ e)))
        λ from.
          bind (map_err (parse_mailbox email_norm) (λ e. smtp (text "recipient address: " ++ e)))
            λ to.
              map_err
                (compose (record {
                  from = from;
                  to = to;
                  subject = text "Confirm your subscription to " ++ config.brand.name;
                  reply_to = none;
                  raw_headers = [];
                  body = confirm_email_html p config.brand.name confirm_url;
                }))
                (λ e. smtp (text "compose message: " ++ e))

  unfoldable pub mint_confirm_token : Text → Time → Exec World Error Text
  mint_confirm_token email_norm now = do
    subscriber ← subscriber_get p email_norm
    lift (
        sign crypto
          (record {
            kind = Token.confirm;
            email = email_norm;
            exp_unix = add_i64 (unix_timestamp now) confirm_ttl_secs;
            generation = generation_of subscriber;
          })
          config.token_secret)

  abbrev invalid_address : Error
  invalid_address = bad_request (text "invalid email address")

  -- The link is minted and mailed; the log line's key is made as the code makes it.
  mail_link : Text → Time → Exec World Error Page
  mail_link email_norm now = do
    signed ← mint_confirm_token email_norm now
    message ←
        lift
          (build_confirm_message email_norm (config.base_url ++ (text "/confirm?token=" ++ signed)))
    p.mail message
    lift (
        map_err (crypto.new_from_slice config.token_secret)
          (λ e. Error.config (text "HMAC key for log-hash: " ++ e)))
    pure (pending_page config.brand.name email_norm)

  -- `POST /subscribe`
  unfoldable pub post : Text → Exec World Error Page
  unfolding mail_link
  post email w =
      let email_norm = to_ascii_lowercase (trim email) in
      if is_empty email_norm || ltb max_email_len (length email_norm)
      then raise invalid_address w
      else if not (p.is_email_address email_norm)
      then raise invalid_address w
      else mail_link email_norm (p.now_utc w).0 (p.now_utc w).1
