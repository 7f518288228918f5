-- ===== src/Templates/Pages.antt =====
-- The pages of src/templates.rs that the visitor handlers render.
use epistole.Prelude.{◌++◌, Text, text}
use epistole.Platform.{Platform}
use epistole.Handlers.Pages.{
  Page, pending_page, confirm_interstitial, confirmed_page, unsubscribe_interstitial,
  unsubscribed_page, invalid_token_page,
}
use epistole.Templates.Markup.{attribute, opening, element, plain}

module _ (p : Platform) where
  open p use {escape}

  -- The literals of the `style` element, of which `maud` escapes the one with a `>`.
  abbrev style : Text
  style =
      text
        "body{font-family:system-ui,sans-serif;max-width:38rem;margin:4rem auto;padding:0 1rem;color:#1c1917;background:#f7f3e8;line-height:1.6}"
      ++ text "h1{font-weight:500;font-size:1.5rem;margin-bottom:1rem}"
      ++ text "p{margin:1rem 0}"
      ++ text "ol{padding-left:1.4rem}"
      ++ text "li{margin:0.75rem 0}"
      ++ text "time{display:block;color:#57534e;font-size:0.9rem}"
      ++ text ".send-body{margin-top:2rem}"
      ++ escape (text ".send-body>*:first-child{margin-top:0}")
      ++ text "a{color:#581523}"

  unfoldable pub shell : Text → Text → Text → Text
  shell brand title inner =
      text "<!DOCTYPE html>"
      ++ element (text "html") (attribute (text "lang") (text "en")) (
          plain (text "head") (
            opening (text "meta") (attribute (text "charset") (text "UTF-8"))
            ++ opening (text "meta") (
                attribute (text "name") (text "viewport")
                ++ attribute (text "content") (text "width=device-width, initial-scale=1.0"))
            ++ plain (text "title") (escape title ++ text " - " ++ escape brand)
            ++ plain (text "style") style)
          ++ plain (text "body") (plain (text "main") inner))

  unfoldable pub pending_html : Text → Text → Text
  unfolding shell
  pending_html brand email = shell brand (text "Confirm your subscription") (
      plain (text "h1") (text "Almost there.")
      ++ plain (text "p") (
          text "A confirmation link is on its way to "
          ++ plain (text "strong") (escape email)
          ++ text ".")
      ++ plain (text "p")
          (text "Click the link in that email to finish subscribing. The link expires in 24 hours.")
      ++ plain (text "p") (text "If nothing arrives in a few minutes, check your spam folder."))

  -- The form of an interstitial: its action, the token that it carries, and its button.
  abbrev form : Text → Text → Text → Text
  form action token label =
      element (text "form")
        (attribute (text "method") (text "post") ++ attribute (text "action") action)
        (opening (text "input") (
            attribute (text "type") (text "hidden")
            ++ attribute (text "name") (text "token")
            ++ attribute (text "value") (escape token))
          ++ element (text "button") (attribute (text "type") (text "submit")) label)

  unfoldable pub confirm_interstitial_html : Text → Text → Text
  unfolding shell
  confirm_interstitial_html brand token = shell brand (text "Confirm your subscription") (
      plain (text "h1") (text "Confirm your subscription?")
      ++ plain (text "p") (text "Click below to finish subscribing to " ++ escape brand ++ text ".")
      ++ form (text "/confirm") token (text "Confirm subscription"))

  unfoldable pub confirmed_html : Text → Text
  unfolding shell
  confirmed_html brand = shell brand (text "Subscription confirmed") (
      plain (text "h1") (text "Subscribed.")
      ++ plain (text "p")
          (text "You'll hear from " ++ escape brand ++ text " when there's something worth saying.")
      ++ plain (text "p") (text "Each note carries a one-click unsubscribe link at the bottom."))

  unfoldable pub unsubscribe_interstitial_html : Text → Text → Text
  unfolding shell
  unsubscribe_interstitial_html brand token = shell brand (text "Unsubscribe") (
      plain (text "h1") (text "Unsubscribe?")
      ++ plain (text "p")
          (text "Click below to stop receiving newsletters from " ++ escape brand ++ text ".")
      ++ form (text "/unsubscribe") token (text "Unsubscribe"))

  unfoldable pub unsubscribed_html : Text → Text
  unfolding shell
  unsubscribed_html brand = shell brand (text "Unsubscribed") (
      plain (text "h1") (text "Unsubscribed.")
      ++ plain (text "p")
          (text "You'll no longer receive newsletters from " ++ escape brand ++ text ".")
      ++ plain (text "p")
          (text "If this was a mistake, you can resubscribe from the contact page on the site."))

  unfoldable pub invalid_token_html : Text → Text
  unfolding shell
  invalid_token_html brand = shell brand (text "Link expired") (
      plain (text "h1") (text "This link has expired.")
      ++ plain (text "p") (
          text
            "Confirmation and unsubscribe links are time-limited. Try requesting a fresh one from the contact page."))

  -- The HTML of a page.
  unfoldable pub render : Page → Text
  unfolding pending_html confirm_interstitial_html confirmed_html unsubscribe_interstitial_html
      unsubscribed_html invalid_token_html
  render (pending_page brand email) = pending_html brand email
  render (confirm_interstitial brand token) = confirm_interstitial_html brand token
  render (confirmed_page brand) = confirmed_html brand
  render (unsubscribe_interstitial brand token) = unsubscribe_interstitial_html brand token
  render (unsubscribed_page brand) = unsubscribed_html brand
  render (invalid_token_page brand) = invalid_token_html brand
