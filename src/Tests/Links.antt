-- ===== src/Tests/Links.antt =====
-- The theorems about links at the links of a configuration.
use epistole.Prelude.{
  text_eq, to_ascii_lowercase, lower_byte, ◌≡◌, ◌≢◌, refl, ok, err, Text, text, Result, ◌↔◌,
}
use epistole.Prelude.Int.{pos, ◌≤ℤ◌}
use epistole.Error.{invalid_token}
use epistole.Token
use epistole.Token.{Token, sign, verify}
use epistole.Token.RoundTrip.{verify-sign}
use epistole.Token.Soundness.{Authentic, verify_iff, verify-coarse}
use epistole.Consent.{Consent, consent_of, at, absent}
use epistole.Records.{active}
use epistole.Store.Subscribers.{decode_row, subscriber_get, subscriber_put}
use epistole.Store.{persist_acknowledged}
use epistole.Handlers.Moves.{IsKeyed, consent_at}
use epistole.Handlers.Pages.{no_store, confirmed_page}
use epistole.Handlers.Confirm
use epistole.Handlers.Confirm.Refines.{Confirms, post-Confirms}
use epistole.Handlers.Confirm.Safety.{post-authorised}
use epistole.Examples.Letters.{letter_crypto, letter_laws}
use epistole.Examples.Tables.{find, without}
use epistole.Examples.Memory.{memory, memory_laws, empty}
use epistole.Examples.Links.{
  secret, config, confirm_token, confirm_link, confirm_link_valid, IsToken-confirm, secret-ne-nil,
}

pub empty-IsKeyed : IsKeyed memory memory_laws empty
unfolding decode_row find memory_laws
empty-IsKeyed = record { at = λ k s h. cc }

verify-sign_example :
    (raw : Text) × (sign letter_crypto confirm_token secret ≡ ok raw)
    × (verify letter_crypto raw secret (pos 7) ≡ ok confirm_token)
verify-sign_example =
    verify-sign letter_crypto letter_laws confirm_token secret (pos 7) IsToken-confirm secret-ne-nil

verify_iff_example :
    (verify letter_crypto confirm_link secret (pos 7) ≡ ok confirm_token)
    ↔ (Authentic letter_crypto confirm_link secret confirm_token × (pos 7 ≤ℤ pos 100))
verify_iff_example = verify_iff letter_crypto letter_laws confirm_link secret (pos 7) confirm_token

confirmed :
    (Confirm.post memory letter_crypto config confirm_link empty).0
    ≡ ok (no_store (confirmed_page (text "News")))
unfolding Confirm.post Confirm.commit_row subscriber_get subscriber_put persist_acknowledged
    decode_row find to_ascii_lowercase lower_byte text text_eq without memory_laws
confirmed = rw (confirm_link_valid 7 refl) refl

post-Confirms_example :
    (before : Consent) × Confirms memory memory_laws letter_crypto config confirm_token before empty
      (Confirm.post memory letter_crypto config confirm_link empty).1
      (confirmed_page (text "News"))
    × (no_store (confirmed_page (text "News")) ≡ no_store (confirmed_page (text "News")))
post-Confirms_example =
    post-Confirms memory memory_laws letter_crypto config confirm_link empty confirm_token
      (no_store (confirmed_page (text "News"))) empty-IsKeyed (confirm_link_valid 7 refl) confirmed

junk_refused : verify letter_crypto (text "junk") secret (pos 7) ≡ err invalid_token
unfolding verify text
junk_refused = refl

changed :
    consent_at memory memory_laws
      (Confirm.post memory letter_crypto config confirm_link empty).1
      (text "ann@x.org")
    ≢ consent_at memory memory_laws empty (text "ann@x.org")
unfolding Confirm.post Confirm.commit_row subscriber_get subscriber_put persist_acknowledged
    decode_row find to_ascii_lowercase lower_byte text text_eq without memory_laws consent_of
changed e =
    let e' : ◌≡◌ {A = Result Text Consent} (ok (at active 0)) (ok absent) =
      rw (confirm_link_valid 7 refl) at e in
    cc

post-authorised_example :
    (t : Token) × Authentic letter_crypto confirm_link secret t
    × (t.kind ≡ Token.confirm)
    × (to_ascii_lowercase t.email ≡ text "ann@x.org")
    × (pos 7 ≤ℤ t.exp_unix)
post-authorised_example =
    post-authorised memory memory_laws letter_crypto config letter_laws confirm_link empty
      (no_store (confirmed_page (text "News"))) (text "ann@x.org") empty-IsKeyed confirmed changed

verify-coarse_example : invalid_token ≡ invalid_token
verify-coarse_example =
    verify-coarse letter_crypto (text "junk") secret (pos 7) invalid_token junk_refused
