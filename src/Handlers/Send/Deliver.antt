-- ===== src/Handlers/Send/Deliver.antt =====
-- `deliver_to_recipient` of src/handlers/send.rs: one recipient of one send.
use epistole.Prelude.{
  ◌*◌, ◌++◌, none, some, Option, Bool, if◌then◌else◌, Text, text, Result, ok, err,
}
use epistole.Prelude.Int.{ℤ, pos, add_i64}
use epistole.Prelude.Effects.{Exec, lift, pure, ◌>>=◌, ◌>>◌}
use epistole.Error.{Error, to_string}
use epistole.Crypto.{Crypto}
use epistole.Config.{Config}
use epistole.Platform.{Platform}
use epistole.Records
use epistole.Records.{Subscriber, Send, Delivery, DeliveryStatus}
use epistole.Token
use epistole.Token.{Token, sign}
use epistole.Store.RateLimits.{try_reserve_send_slot}
use epistole.Store.Sends.{delivery_get, delivery_put}
use epistole.Handlers.Send.Compose.{build_message}

pub data RecipientOutcome : Type 0 where
  sent failed already_delivered deferred_by_cap : RecipientOutcome

-- 3650 days, in seconds.
abbrev pub unsubscribe_link_ttl : ℤ
unsubscribe_link_ttl = pos (3650 * 86400)

abbrev pub outcome_of : DeliveryStatus → RecipientOutcome
outcome_of Records.sent = sent
outcome_of _ = failed

abbrev pub status_and_error : Result Error (Unit {0}) → DeliveryStatus × Option Text
status_and_error (ok _) = (Records.sent, none)
status_and_error (err e) = (Records.failed, some (to_string e))

module _ (p : Platform) (crypto : Crypto) (config : Config) where
  open p use {World, Time, Ulid, Message, unix_timestamp, now_utc, mail}

  -- A failure to compose or to relay is an outcome, not an error.
  unfoldable pub transmit : Result Error Message → Exec World Error (DeliveryStatus × Option Text)
  transmit (err e) w = (ok (Records.failed, some (to_string e)), w)
  transmit (ok message) w = (ok (status_and_error (mail message w).0), (mail message w).1)

  -- The ledger row of an attempt, dated when it is written.
  unfoldable pub record_delivery :
      Send Ulid Time
      → Subscriber Time
      → DeliveryStatus × Option Text
      → Exec World Error RecipientOutcome
  record_delivery send_rec s attempt w =
      (do
        delivery_put p (record {
          send_id = send_rec.id;
          email = s.email;
          status = attempt.0;
          at = (now_utc w).0;
          error = attempt.1;
        })
        pure (outcome_of attempt.0))
        (now_utc w).1

  -- The unsubscribe token of a recipient.
  unfoldable pub unsubscribe_token : Subscriber Time → Time → Token
  unsubscribe_token s now = record {
    kind = Token.unsubscribe;
    email = s.email;
    exp_unix = add_i64 (unix_timestamp now) unsubscribe_link_ttl;
    generation = s.generation;
  }

  -- The attempt itself, once a slot is reserved.
  unfoldable pub send_to :
      Send Ulid Time → Subscriber Time → Time → Exec World Error RecipientOutcome
  send_to send_rec s now = do
    signed ← lift (sign crypto (unsubscribe_token s now) config.token_secret)
    attempt ← transmit (
        build_message p config send_rec s.email
          (config.base_url ++ (text "/unsubscribe?token=" ++ signed))
          (config.base_url ++ (text "/unsubscribe/one-click?token=" ++ signed)))
    record_delivery send_rec s attempt

  unfoldable pub admit :
      Send Ulid Time → Subscriber Time → Time → Bool → Exec World Error RecipientOutcome
  admit send_rec s now admitted = if admitted then send_to send_rec s now else pure deferred_by_cap

  -- What happens when the ledger has no row for the recipient, or has one.
  unfoldable pub attempt :
      Send Ulid Time
      → Subscriber Time
      → Text
      → Text
      → Time
      → Option (Delivery Ulid Time)
      → Exec World Error RecipientOutcome
  unfolding admit
  attempt send_rec s hour_bucket day_bucket now (some _) = pure already_delivered
  attempt send_rec s hour_bucket day_bucket now none = do
    admitted ←
        try_reserve_send_slot p hour_bucket day_bucket config.send_cap_per_hour
          config.send_cap_per_day
    admit send_rec s now admitted

  unfoldable pub deliver_to_recipient :
      Send Ulid Time → Subscriber Time → Text → Text → Time → Exec World Error RecipientOutcome
  deliver_to_recipient send_rec s hour_bucket day_bucket now = do
    existing ← delivery_get p send_rec.id s.email
    attempt send_rec s hour_bucket day_bucket now existing
