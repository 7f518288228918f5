-- ===== src/Handlers/Send/Compose.antt =====
-- The message of one recipient, and the buckets of the caps.
use epistole.Prelude.{
  ℕ, zero, suc, ◌-◌, ◌++◌, [], ◌∷◌, List, none, some, Option, Bool, true, false, length, Text, text,
  Result, ok, map_err,
}
use epistole.Prelude.Results.{◌>>=◌}
use epistole.Prelude.Int.{ℤ, pos, negsuc}
use epistole.Prelude.Decimal.{show_u64}
use epistole.Error.{Error, smtp}
use epistole.Config.{Config}
use epistole.Platform.{Platform}
use epistole.Records.{Send}
use epistole.Templates.{newsletter_email_html}
use epistole.Handlers.Subscribe.{from_line}

abbrev pub is_empty : Text → Bool
is_empty [] = true
is_empty (c ∷ s) = false

abbrev pub zeros : ℕ → Text
zeros zero = []
zeros (suc n) = b'0' ∷ zeros n

-- `{:0width}` of a number
unfoldable pub padded : ℕ → ℕ → Text
padded width n = let digits = show_u64 n in zeros (width - length digits) ++ digits

-- `{:04}` of a year: the sign counts towards the width.
unfoldable pub padded_year : ℤ → Text
unfolding padded
padded_year (pos n) = padded 4 n
padded_year (negsuc n) = b'-' ∷ padded 3 (suc n)

module _ (p : Platform) where
  open p use {Time, Message, Mailbox, calendar, parse_mailbox, compose}

  unfoldable pub day_bucket : Time → Text
  unfolding padded padded_year
  day_bucket at =
      padded_year (calendar at).year ++ (padded 2 (calendar at).month ++ padded 2 (calendar at).day)

  unfoldable pub hour_bucket : Time → Text
  unfolding padded padded_year
  hour_bucket at =
      padded_year (calendar at).year
      ++ (padded 2 (calendar at).month
          ++ (padded 2 (calendar at).day ++ padded 2 (calendar at).hour))

  -- `brand.reply_to`, parsed if it is set
  reply_mailbox : Option Text → Result Error (Option Mailbox)
  reply_mailbox none = ok none
  reply_mailbox (some reply_to) = do
    reply ← map_err (parse_mailbox reply_to) (λ e. smtp (text "brand reply_to: " ++ e))
    ok (some reply)

  -- The two headers of RFC 8058.
  abbrev pub list_unsubscribe_headers : Text → List (Text × Text)
  list_unsubscribe_headers one_click_url =
      (text "List-Unsubscribe", text "<" ++ (one_click_url ++ text ">"))
      ∷ (text "List-Unsubscribe-Post", text "List-Unsubscribe=One-Click")
      ∷ []

  unfoldable pub build_message :
      Config → Send p.Ulid Time → Text → Text → Text → Result Error Message
  unfolding reply_mailbox
  build_message config send to_email unsubscribe_url one_click_url = do
    from ← map_err (parse_mailbox (from_line config)) (λ e. smtp (text "brand from_address: " ++ e))
    to ← map_err (parse_mailbox to_email) (λ e. smtp (text "recipient address: " ++ e))
    reply_to ← reply_mailbox config.brand.reply_to
    map_err
        (compose (record {
          from = from;
          to = to;
          subject = send.subject;
          reply_to = reply_to;
          raw_headers = list_unsubscribe_headers one_click_url;
          body = newsletter_email_html p send.body_html unsubscribe_url;
        }))
        (λ e. smtp (text "compose message: " ++ e))
