-- ===== src/Tests/Campaigns.antt =====
-- The theorems about whole campaigns of src/handlers/send.rs.
use epistole.Prelude.{
  ℕ, ◌^◌, ◌<◌, to_ascii_lowercase, lower_byte, ◌≡◌, refl, sym, ◌∙◌, length, ok, some, List, text,
  text_eq, text_eq_sound, text_eq_refl, true, arith, [], ◌∷◌, Text, Bool-cases, inl, inr,
}
use epistole.Prelude.Keys.{text_lt, text_lt_irrefl, has, Ascending}
use epistole.Prelude.Int.{add_i64}
use epistole.Prelude.Decimal.{show_u64}
use epistole.Token.{sign}
use epistole.Records.{SendBody}
use epistole.Store.{persist_acknowledged}
use epistole.Store.Subscribers.{decode_row}
use epistole.Store.Subscribers.Laws.{subscriber_at}
use epistole.Store.Sends.{decode_with, delivery_key, delivery_get, delivery_put, send_get, send_put}
use epistole.Store.RateLimits.{rate_get, count_of, rate_increment, try_reserve_send_slot}
use epistole.Store.Scans.{active_rows, active_subscribers}
use epistole.Store.Scans.Active.{is_active}
use epistole.Templates.{newsletter_email_html}
use epistole.Handlers.Send.{Reply, zeros, count, resolve_send, resolve_existing, fan_out, campaign}
use epistole.Handlers.Send.Compose.{build_message, hour_bucket, day_bucket}
use epistole.Handlers.Send.Deliver.{
  sent, already_delivered, transmit, record_delivery, unsubscribe_token, send_to, admit, attempt,
  deliver_to_recipient,
}
use epistole.Handlers.Send.Progress.{IsRecorded}
use epistole.Handlers.Send.Campaign.{attempts, Fanned, fan_out-Fanned, fan_out-again}
use epistole.Handlers.Send.Reach.{campaign-reaches}
use epistole.Examples.Letters.{letter_crypto, letters, tag}
use epistole.Examples.Tables.{find, without, sort, put}
use epistole.Examples.Memory.{memory, memory_laws, empty, mail_to}
use epistole.Examples.Links.{config}
use epistole.Tests.Leaving.{joined, joined-IsKeyed}
use epistole.Tests.Sending.{ann, issue}

fanned_lem :
    (fan_out memory letter_crypto config issue 7 (ann ∷ []) zeros empty).0 ≡ ok (count sent zeros)
unfolding fan_out deliver_to_recipient attempt admit send_to transmit record_delivery
    unsubscribe_token try_reserve_send_slot rate_get count_of rate_increment delivery_get
    delivery_put decode_with delivery_key persist_acknowledged sign letters tag build_message
    newsletter_email_html mail_to find without text text_eq to_ascii_lowercase lower_byte add_i64
    hour_bucket day_bucket show_u64
fanned_lem = refl

fan_out-Fanned_example :
    Fanned memory memory_laws letter_crypto config issue 7
      (ann ∷ [])
      zeros
      (count sent zeros)
      empty
      (fan_out memory letter_crypto config issue 7 (ann ∷ []) zeros empty).1
fan_out-Fanned_example =
    fan_out-Fanned memory memory_laws letter_crypto config issue 7 (omega arith) (omega arith)
      (ann ∷ []) zeros empty (count sent zeros) (omega arith) fanned_lem

-- The ledger of `joined` already has the recipient.
again_lem :
    (fan_out memory letter_crypto config issue 7 (ann ∷ []) zeros joined).0
    ≡ ok (count already_delivered zeros)
unfolding fan_out deliver_to_recipient attempt delivery_get decode_with delivery_key find text
    text_eq to_ascii_lowercase lower_byte
again_lem = refl

recorded_lem :
    IsRecorded memory memory_laws letter_crypto config joined
      (delivery_key memory issue.id ann.email)
unfolding decode_with delivery_key find text text_eq to_ascii_lowercase lower_byte memory_laws
recorded_lem = (_, refl)

fan_out-again_example :
    (memory_laws.rows (fan_out memory letter_crypto config issue 7 (ann ∷ []) zeros joined).1
      ≡ memory_laws.rows joined)
    × (memory_laws.outbox (fan_out memory letter_crypto config issue 7 (ann ∷ []) zeros joined).1
        ≡ memory_laws.outbox joined)
    × (attempts (count already_delivered zeros) ≡ attempts zeros)
fan_out-again_example =
    fan_out-again memory memory_laws letter_crypto config issue 7 (omega arith) (omega arith)
      (ann ∷ []) zeros joined (count already_delivered zeros) (recorded_lem, tt) again_lem

abbrev request : SendBody ℕ
request = record { send_id = issue.id; subject = text "May"; markdown = text "May" }

abbrev reply : Reply ℕ
reply = record { send_id = issue.id; tally = count already_delivered zeros }

campaign_lem :
    (campaign memory letter_crypto config request (text "<p>May</p>") 7 joined).0 ≡ ok reply
unfolding campaign resolve_send resolve_existing send_get send_put persist_acknowledged
    active_subscribers active_rows fan_out deliver_to_recipient attempt delivery_get decode_with
    delivery_key find without sort put text text_eq text_lt to_ascii_lowercase lower_byte
campaign_lem = refl

-- Nobody but Ann is active.
only_ann :
    (k : Text)
    → is_active memory (subscriber_at memory memory_laws joined k) ≡ true
    → text "ann@x.org" ≡ k
unfolding decode_row find memory_laws
only_ann k h = elim (Bool-cases (text_eq (text "ann@x.org") k)) [
  | inl same ↦ text_eq_sound (text "ann@x.org") k same
  | inr other ↦ cc (rw other at h)
]

few :
    (keys : List Text)
    → Ascending keys
    → ((k : Text) → has keys k ≡ is_active memory (subscriber_at memory memory_laws joined k))
    → length keys < 2 ^ 64
few [] sorted listed = omega arith
few (j ∷ []) sorted listed = omega arith
few (j ∷ k ∷ keys) ((before, _), _) listed =
    let first = only_ann j (sym (listed j) ∙ ground (arith, text_eq_refl j)) in
    let second = only_ann k (sym (listed k) ∙ ground (arith, text_eq_refl k)) in
    absurd (cc (before, text_lt_irrefl k, first, second))

deferred_lem : reply.tally.deferred_by_cap ≡ 0
unfolding count
deferred_lem = refl

ann_lem : subscriber_at memory memory_laws joined (text "ann@x.org") ≡ ok (some ann)
unfolding decode_row find memory_laws text text_eq
ann_lem = refl

campaign-reaches_example :
    IsRecorded memory memory_laws letter_crypto config
      (campaign memory letter_crypto config request (text "<p>May</p>") 7 joined).1
      (delivery_key memory reply.send_id (text "ann@x.org"))
campaign-reaches_example =
    campaign-reaches memory memory_laws letter_crypto config request (text "<p>May</p>") 7 joined
      reply joined-IsKeyed (omega arith) (omega arith) few campaign_lem deferred_lem
      (text "ann@x.org") ann ann_lem refl
