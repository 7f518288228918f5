-- ===== src/Handlers/Send/Links.antt =====
-- The links in the message that src/handlers/send.rs sends to a recipient.
use epistole.Prelude.{
  ◌≡◌, refl, ap, ◌∙◌, ◌++◌, ◌∷◌, none, some, Option, Text, text, true, false, Bool, Result, ok, err,
}
use epistole.Prelude.Effects.{lift, >>=-eq-ok}
use epistole.Error.{Error}
use epistole.Crypto.{Crypto}
use epistole.Config.{Config}
use epistole.Platform.{Platform, PlatformLaws}
use epistole.Records.{Subscriber, Send, Delivery, DeliveryStatus}
use epistole.Token.{sign}
use epistole.Store.RateLimits.{try_reserve_send_slot}
use epistole.Store.RateLimits.Silent.{try_reserve_send_slot-Keeps}
use epistole.Store.Sends.{delivery_get}
use epistole.Store.Sends.Laws.{delivery_get-Keeps_outbox}
use epistole.Handlers.Send.Compose.{build_message}
use epistole.Handlers.Send.Deliver.{
  RecipientOutcome, outcome_of, status_and_error, transmit, record_delivery, unsubscribe_token,
  send_to, admit, attempt, deliver_to_recipient,
}
use epistole.Handlers.Send.Deliver
use epistole.Handlers.Send.Attempts.{record_delivery-Filed, attempt_sent}

module _ (p : Platform) (laws : PlatformLaws p) (crypto : Crypto) (config : Config) where
  open p use {World, Time, Ulid, Message, now_utc, mail}
  open laws use {outbox}

  module _ (send_rec : Send Ulid Time) (s : Subscriber Time) where
    -- One message goes out between `w` and `w'`, with links whose token is signed for the recipient
    -- at `now`.
    pub record Linked (now : Time) (w w' : World) : Type 0 where
      pub raw : Text
      pub message : Message
      pub signed :
          sign crypto (unsubscribe_token p crypto config s now) config.token_secret ≡ ok raw
      pub built :
          build_message p config send_rec s.email
            (config.base_url ++ (text "/unsubscribe?token=" ++ raw))
            (config.base_url ++ (text "/unsubscribe/one-click?token=" ++ raw))
          ≡ ok message
      pub mailed : outbox w' ≡ message ∷ outbox w

    Linked-outbox :
        {now : Time} {w0 w w' : World} → outbox w ≡ outbox w0 → Linked now w w' → Linked now w0 w'
    Linked-outbox same l = record {
      raw = l.raw;
      message = l.message;
      signed = l.signed;
      built = l.built;
      mailed = l.mailed ∙ ap (λ o. l.message ∷ o) same;
    }

    -- What the relay accepted was composed.
    transmit-accepted :
        (composed : Result Error Message) (w : World) {a : DeliveryStatus × Option Text}
        → (transmit p crypto config composed w).0 ≡ ok a
        → outcome_of a.0 ≡ Deliver.sent
        → (m : Message) × (composed ≡ ok m)
          × (outbox (transmit p crypto config composed w).1 ≡ m ∷ outbox w)
    unfolding transmit
    transmit-accepted (err e) w h sent = cc
    transmit-accepted (ok m) w h sent =
        (m, refl, laws.outbox-mail m w (attempt_sent p laws crypto config (mail m w).0 (cc)))

    send_to-Linked :
        (now : Time) (w : World)
        → (send_to p crypto config send_rec s now w).0 ≡ ok Deliver.sent
        → Linked now w (send_to p crypto config send_rec s now w).1
    unfolding send_to
    send_to-Linked now w h =
        let minted = sign crypto (unsubscribe_token p crypto config s now) config.token_secret in
        let (raw, signed, same, h1) = >>=-eq-ok (lift minted) _ w h in
        let composed =
          build_message p config send_rec s.email
            (config.base_url ++ (text "/unsubscribe?token=" ++ raw))
            (config.base_url ++ (text "/unsubscribe/one-click?token=" ++ raw)) in
        let (a, tried, same1, filed) = >>=-eq-ok (transmit p crypto config composed) _ w h1 in
        let w1 = (transmit p crypto config composed w).1 in
        let f =
          record_delivery-Filed p laws crypto config send_rec s (text "") (text "") a w1 filed in
        let (m, built, out) = transmit-accepted composed w tried f.outcome_lem in
        rw (same, same1)
          (record {
            raw = raw;
            message = m;
            signed = signed;
            built = built;
            mailed = f.same_outbox ∙ out;
          })

    admit-Linked :
        (now : Time) (granted : Bool) (w : World)
        → (admit p crypto config send_rec s now granted w).0 ≡ ok Deliver.sent
        → Linked now w (admit p crypto config send_rec s now granted w).1
    unfolding admit
    admit-Linked now true w h = send_to-Linked now w h
    admit-Linked now false w h = cc

    module _ (hour_bucket day_bucket : Text) where
      attempt-Linked :
          (now : Time) (o : Option (Delivery Ulid Time)) (w : World)
          → (attempt p crypto config send_rec s hour_bucket day_bucket now o w).0 ≡ ok Deliver.sent
          → Linked now w (attempt p crypto config send_rec s hour_bucket day_bucket now o w).1
      unfolding attempt
      attempt-Linked now (some d) w h = cc
      attempt-Linked now none w h =
          let reserve =
            try_reserve_send_slot p hour_bucket day_bucket config.send_cap_per_hour
              config.send_cap_per_day in
          let (granted, _, same, h1) = >>=-eq-ok reserve _ w h in
          let quiet =
            (try_reserve_send_slot-Keeps p laws hour_bucket day_bucket config.send_cap_per_hour
                config.send_cap_per_day).at
              w in
          rw same (Linked-outbox quiet (admit-Linked now granted (reserve w).1 h1))

      -- A recipient that counts as sent was mailed one message, with links signed for it.
      pub deliver_to_recipient-Linked :
          (now : Time) (w : World)
          → (deliver_to_recipient p crypto config send_rec s hour_bucket day_bucket now w).0
            ≡ ok Deliver.sent
          → Linked now w
              (deliver_to_recipient p crypto config send_rec s hour_bucket day_bucket now w).1
      unfolding deliver_to_recipient
      deliver_to_recipient-Linked now w h =
          let read = delivery_get p send_rec.id s.email in
          let (o, _, same, h1) = >>=-eq-ok read _ w h in
          rw same (
            Linked-outbox ((delivery_get-Keeps_outbox p laws send_rec.id s.email).at w)
              (attempt-Linked now o (read w).1 h1))
