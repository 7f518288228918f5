-- ===== src/Tests/Sending.antt =====
-- The theorems about a newsletter send, for one recipient.
use epistole.Prelude.{
  ℕ, to_ascii_lowercase, lower_byte, ◌≡◌, ◌≢◌, refl, ap, length, ok, none, some, text, text_eq,
  true, arith, [], ◌∷◌,
}
use epistole.Prelude.Int.{add_i64}
use epistole.Token.{sign}
use epistole.Records.{Send, Subscriber, active}
use epistole.Store.{persist_acknowledged}
use epistole.Store.RateLimits.{rate_get, count_of, rate_increment, try_reserve_send_slot}
use epistole.Store.RateLimits.Caps.{Outcome, try_reserve_send_slot-caps}
use epistole.Store.Sends.{decode_with, delivery_key, delivery_get, delivery_put, send_get}
use epistole.Templates.{newsletter_email_html}
use epistole.Handlers.Send.{resolve_send, resolve_existing}
use epistole.Handlers.Send.Compose.{build_message}
use epistole.Handlers.Send.Deliver.{
  sent, transmit, record_delivery, unsubscribe_token, send_to, admit, attempt, deliver_to_recipient,
}
use epistole.Handlers.Send.Retries.{resolve_send_again, send_at}
use epistole.Platform.{Space, sends}
use epistole.Examples.Letters.{letter_crypto, letters, tag}
use epistole.Examples.Tables.{find, without, Table}
use epistole.Examples.Memory.{Memory, memory, memory_laws, empty, mail_to}
use epistole.Examples.Links.{config}

abbrev pub ann : Subscriber ℕ
ann = record {
  email = text "ann@x.org";
  state = active;
  created_at = 5;
  confirmed_at = none;
  unsubscribed_at = none;
  generation = 0;
}

abbrev pub issue : Send ℕ ℕ
issue = record {
  id = record { ulid = 9 };
  subject = text "May";
  body_html = text "<p>May</p>";
  sent_at = 7;
}

reserved_lem : (try_reserve_send_slot memory (text "h0") (text "d") 2 3 empty).0 ≡ ok true
unfolding try_reserve_send_slot rate_get count_of rate_increment find without text text_eq
reserved_lem = refl

buckets_differ : text "h0" ≢ text "d"
unfolding text
buckets_differ e = let other : ◌≡◌ {A = ℕ} 2 1 = ap length e in omega arith

try_reserve_send_slot-caps_example :
    Outcome memory memory_laws true
      (text "h0")
      (text "d")
      2
      3
      empty
      (try_reserve_send_slot memory (text "h0") (text "d") 2 3 empty).1
try_reserve_send_slot-caps_example =
    try_reserve_send_slot-caps memory memory_laws (text "h0") (text "d") 2 3 empty buckets_differ
      (omega arith) (omega arith) reserved_lem

pub delivered_lem :
    (deliver_to_recipient memory letter_crypto config issue ann (text "h0") (text "d") 7 empty).0
    ≡ ok sent
unfolding deliver_to_recipient attempt admit send_to transmit record_delivery unsubscribe_token
    try_reserve_send_slot rate_get count_of rate_increment delivery_get delivery_put decode_with
    delivery_key persist_acknowledged sign letters tag build_message newsletter_email_html mail_to
    find without text text_eq to_ascii_lowercase lower_byte add_i64
delivered_lem = refl

abbrev recorded : Memory
recorded = record empty { tables = tables }
  where
    tables : Space → Table
    tables sends = (9 ∷ [], 9 ∷ 7 ∷ 3 ∷ text "May<p>May</p>") ∷ []
    tables _ = []

resumed_lem :
    (resolve_send memory letter_crypto config issue.id issue.subject issue.body_html 8 recorded).0
    ≡ ok issue
unfolding resolve_send resolve_existing send_get decode_with find text text_eq
resumed_lem = refl

held_lem : send_at memory memory_laws letter_crypto config recorded issue.id ≡ ok (some issue)
unfolding decode_with find text text_eq memory_laws
held_lem = refl

resolve_send_again_example :
    (issue ≡ issue)
    × (issue.subject ≡ issue.subject)
    × (issue.body_html ≡ issue.body_html)
    × (memory_laws.rows
          (resolve_send memory letter_crypto config issue.id issue.subject issue.body_html 8
            recorded).1
        ≡ memory_laws.rows recorded)
resolve_send_again_example =
    resolve_send_again memory memory_laws letter_crypto config issue.id issue.subject
      issue.body_html 8 recorded issue issue held_lem resumed_lem
