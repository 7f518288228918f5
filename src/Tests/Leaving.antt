-- ===== src/Tests/Leaving.antt =====
-- The theorems about unsubscriptions and reports of the relay, for an address that has joined.
use epistole.Prelude.{
  ℕ, to_ascii_lowercase, lower_byte, ◌≡◌, ◌≢◌, refl, ok, none, Text, text, text_eq, text_eq_sound,
  false, Result, arith, [], ◌∷◌,
}
use epistole.Prelude.Int.{pos, ◌≤ℤ◌}
use epistole.Prelude.Trim.{trim}
use epistole.Token
use epistole.Token.{Token}
use epistole.Token.Soundness.{Authentic}
use epistole.Consent.{Consent, consent_of, at}
use epistole.Platform.{Space, subscribers, deliveries}
use epistole.Records.{active, unsubscribed, complaint, EventBody, Subscriber, pending}
use epistole.Store.{persist_acknowledged}
use epistole.Store.Subscribers.{decode_row, subscriber_get, subscriber_put}
use epistole.Store.Subscribers.Laws.{Wrote, subscriber_put-Wrote}
use epistole.Store.Sends.{decode_with, delivery_key, delivery_get, delivery_put}
use epistole.Handlers.Moves.{IsKeyed, consent_at}
use epistole.Handlers.Pages.{Rendered, no_store, unsubscribed_page}
use epistole.Handlers.Unsubscribe
use epistole.Handlers.Unsubscribe.Refines.{Leaves, post-Leaves}
use epistole.Handlers.Unsubscribe.Safety.{post-from_link}
use epistole.Handlers.Webhooks.{report, record_event, suppress_row, suppress_subscriber}
use epistole.Handlers.Webhooks.Reports.{IsFiled, Reported, report-Reported}
use epistole.Examples.Letters.{letter_crypto, letter_laws}
use epistole.Examples.Tables.{find, without, Table}
use epistole.Examples.Memory.{Memory, memory, memory_laws, empty}
use epistole.Examples.Links.{
  secret, config, unsubscribe_token, unsubscribe_link, unsubscribe_link_valid,
}

-- One subscriber, and one delivery to her.
abbrev pub tables : Space → Table
tables subscribers = (text "ann@x.org", 1 ∷ 5 ∷ 0 ∷ 0 ∷ 0 ∷ text "ann@x.org") ∷ []
tables deliveries = (9 ∷ text "/ann@x.org", 9 ∷ 1 ∷ 6 ∷ 0 ∷ text "ann@x.org") ∷ []
tables _ = []

abbrev pub joined : Memory
joined = record empty { tables = tables }

pub joined-IsKeyed : IsKeyed memory memory_laws joined
unfolding decode_row find memory_laws text to_ascii_lowercase lower_byte
joined-IsKeyed = record { at = λ k s h. ground (arith, text_eq_sound (text "ann@x.org") k) }

abbrev pub left : Rendered
left = no_store (unsubscribed_page (text "News"))

pub unsubscribed_lem :
    (Unsubscribe.post memory letter_crypto config unsubscribe_link joined).0 ≡ ok left
unfolding Unsubscribe.post Unsubscribe.apply Unsubscribe.apply_row subscriber_get subscriber_put
    persist_acknowledged decode_row find to_ascii_lowercase lower_byte text text_eq without
    memory_laws
unsubscribed_lem = rw (unsubscribe_link_valid 7 refl) refl

post-Leaves_example :
    (before : Consent) × Leaves memory memory_laws letter_crypto config unsubscribe_token before
      joined
      (Unsubscribe.post memory letter_crypto config unsubscribe_link joined).1
      (unsubscribed_page (text "News"))
    × (left ≡ left)
post-Leaves_example =
    post-Leaves memory memory_laws letter_crypto config unsubscribe_link joined unsubscribe_token
      left joined-IsKeyed (unsubscribe_link_valid 7 refl) unsubscribed_lem

changed :
    consent_at memory memory_laws
      (Unsubscribe.post memory letter_crypto config unsubscribe_link joined).1
      (text "ann@x.org")
    ≢ consent_at memory memory_laws joined (text "ann@x.org")
unfolding Unsubscribe.post Unsubscribe.apply Unsubscribe.apply_row subscriber_get subscriber_put
    persist_acknowledged decode_row find to_ascii_lowercase lower_byte text text_eq without
    memory_laws consent_of
changed e =
    let e' : ◌≡◌ {A = Result Text Consent} (ok (at unsubscribed 1)) (ok (at active 0)) =
      rw (unsubscribe_link_valid 7 refl) at e in
    cc

post-from_link_example :
    (t : Token) × Authentic letter_crypto unsubscribe_link secret t
    × (t.kind ≡ Token.unsubscribe)
    × (to_ascii_lowercase t.email ≡ text "ann@x.org")
    × (pos 7 ≤ℤ t.exp_unix)
post-from_link_example =
    post-from_link memory memory_laws letter_crypto config letter_laws unsubscribe_link joined left
      (text "ann@x.org") joined-IsKeyed unsubscribed_lem changed

pub joined-IsFiled : IsFiled memory memory_laws joined
unfolding decode_with find memory_laws text to_ascii_lowercase lower_byte delivery_key
joined-IsFiled = record { at = λ k d h. ground (arith, text_eq_sound (9 ∷ text "/ann@x.org") k) }

abbrev complained_body : EventBody ℕ
complained_body = record {
  send_id = record { ulid = 9 };
  email = text "Ann@x.org ";
  kind = complaint;
  hard = false;
}

reported_lem : (report memory complained_body joined).0 ≡ ok 200
unfolding report delivery_get delivery_put record_event suppress_subscriber suppress_row
    delivery_key decode_with subscriber_get subscriber_put persist_acknowledged decode_row find
    to_ascii_lowercase lower_byte text text_eq without trim
reported_lem = refl

report-Reported_example :
    Reported memory memory_laws complained_body 7 joined (report memory complained_body joined).1
report-Reported_example =
    report-Reported memory memory_laws complained_body joined 200 joined-IsKeyed joined-IsFiled
      reported_lem

abbrev ann : Subscriber ℕ
ann = record {
  email = text "Ann@x.org";
  state = pending;
  created_at = 5;
  confirmed_at = none;
  unsubscribed_at = none;
  generation = 0;
}

put_lem : (subscriber_put memory ann empty).0 ≡ ok tt
unfolding subscriber_put persist_acknowledged
put_lem = refl

subscriber_put-Wrote_example :
    Wrote memory memory_laws ann empty (subscriber_put memory ann empty).1
subscriber_put-Wrote_example = subscriber_put-Wrote memory memory_laws ann empty put_lem
