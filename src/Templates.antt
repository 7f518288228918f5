-- ===== src/Templates.antt =====
-- src/templates.rs: the message bodies, as the HTML text that `maud` writes for them.
pub mod Markup
pub mod Pages
pub mod Archive
pub mod Safety
use epistole.Prelude.{◌++◌, [], ◌∷◌, Text, text}
use epistole.Platform.{Platform}

-- A double quote.
abbrev quote : Text
quote = b'"' ∷ []

abbrev newline : Text
newline = b'\n' ∷ []

module _ (p : Platform) where
  open p use {escape}

  -- `<a href="url">label</a>`
  link : Text → Text → Text
  link url label =
      text "<a href=" ++ quote ++ escape url ++ quote ++ text ">" ++ label ++ text "</a>"

  unfoldable pub confirm_email_html : Text → Text → Text
  unfolding link
  confirm_email_html brand confirm_url =
      text "<p>Click below to finish subscribing to "
      ++ escape brand
      ++ text ".</p><p>"
      ++ link confirm_url (text "Confirm your subscription")
      ++ text "</p><p>This link expires in 24 hours. If you didn't request this, ignore it.</p>"

  unfoldable pub newsletter_email_html : Text → Text → Text
  unfolding link
  newsletter_email_html body_html unsubscribe_url =
      body_html
      ++ newline
      ++ text "<hr><p>Don't want these? "
      ++ link unsubscribe_url (text "Unsubscribe")
      ++ text ".</p>"
