-- ===== src/Tests/Requests.antt =====
-- The theorems about sequences of requests, for an address that leaves.
use epistole.Prelude.{
  to_ascii_lowercase, lower_byte, ◌≡◌, refl, ok, text, text_eq, text_eq_sound, arith, [], ◌∷◌, All,
}
use epistole.Consent.{consent_of, at, run}
use epistole.Consent.History.{NotConfirming}
use epistole.Platform.{Space, subscribers}
use epistole.Records.{active, unsubscribed}
use epistole.Store.Subscribers.{decode_row, subscriber_get}
use epistole.Store.Sends.{decode_with}
use epistole.Handlers.Moves.{consent_at}
use epistole.Handlers.Pages.{no_store, invalid_token_page}
use epistole.Handlers.Confirm
use epistole.Handlers.Unsubscribe
use epistole.Handlers.Traces.{
  Trace, start, next, confirmed, left, IsSane, events, event_of, consent_at-trace, opt_out-trace,
}
use epistole.Examples.Letters.{letter_crypto}
use epistole.Examples.Tables.{find, Table}
use epistole.Examples.Memory.{Memory, memory, memory_laws, empty}
use epistole.Examples.Links.{
  config, confirm_token, confirm_link, confirm_link_valid, unsubscribe_token, unsubscribe_link,
  unsubscribe_link_valid,
}
use epistole.Tests.Leaving
use epistole.Tests.Leaving.{joined, joined-IsKeyed, joined-IsFiled, unsubscribed_lem}

joined-IsSane : IsSane memory memory_laws letter_crypto config joined
joined-IsSane = record { keyed = joined-IsKeyed; filed = joined-IsFiled }

pub joined_active : consent_at memory memory_laws joined (text "ann@x.org") ≡ ok (at active 0)
unfolding decode_row find memory_laws text text_eq consent_of
joined_active = refl

abbrev leaving :
    Trace memory memory_laws letter_crypto config joined
      (Unsubscribe.post memory letter_crypto config unsubscribe_link joined).1
leaving = next start (
    left unsubscribe_link unsubscribe_token Leaving.left (unsubscribe_link_valid 7 refl)
      unsubscribed_lem)

consent_at-trace_example :
    consent_at memory memory_laws
      (Unsubscribe.post memory letter_crypto config unsubscribe_link joined).1
      (text "ann@x.org")
    ≡ ok (
        run
          (at active 0)
          (events memory memory_laws letter_crypto config leaving (text "ann@x.org")))
consent_at-trace_example =
    consent_at-trace memory memory_laws letter_crypto config leaving (text "ann@x.org")
      (at active 0) joined-IsSane joined_active

-- She has left, and the link that once confirmed her is used again.
abbrev tables : Space → Table
tables subscribers = (text "ann@x.org", 2 ∷ 5 ∷ 0 ∷ 0 ∷ 1 ∷ text "ann@x.org") ∷ []
tables _ = []

abbrev gone : Memory
gone = record empty { tables = tables }

gone-IsSane : IsSane memory memory_laws letter_crypto config gone
unfolding decode_row decode_with find memory_laws text to_ascii_lowercase lower_byte
gone-IsSane = record {
  keyed = record { at = λ k s h. ground (arith, text_eq_sound (text "ann@x.org") k) };
  filed = record { at = λ k d h. cc };
}

gone_unsubscribed : consent_at memory memory_laws gone (text "ann@x.org") ≡ ok (at unsubscribed 1)
unfolding decode_row find memory_laws text text_eq consent_of
gone_unsubscribed = refl

refused_lem :
    (Confirm.post memory letter_crypto config confirm_link gone).0
    ≡ ok (no_store (invalid_token_page (text "News")))
unfolding Confirm.post Confirm.commit_row subscriber_get decode_row find to_ascii_lowercase
    lower_byte text text_eq
refused_lem = rw (confirm_link_valid 7 refl) refl

abbrev returning :
    Trace memory memory_laws letter_crypto config gone
      (Confirm.post memory letter_crypto config confirm_link gone).1
returning = next start (
    confirmed confirm_link confirm_token (no_store (invalid_token_page (text "News")))
      (confirm_link_valid 7 refl) refused_lem)

stale_lem :
    All
      (NotConfirming 1)
      (events memory memory_laws letter_crypto config returning (text "ann@x.org"))
unfolding events event_of text text_eq to_ascii_lowercase lower_byte
stale_lem = ((λ e. cc), tt)

opt_out-trace_example :
    consent_at memory memory_laws
      (Confirm.post memory letter_crypto config confirm_link gone).1
      (text "ann@x.org")
    ≡ ok (at unsubscribed 1)
opt_out-trace_example =
    opt_out-trace memory memory_laws letter_crypto config returning (text "ann@x.org") 1 gone-IsSane
      gone_unsubscribed stale_lem
