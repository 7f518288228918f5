-- ===== src/Handlers/Send/Answers.antt =====
-- The fan-out of src/handlers/send.rs ends with a tally while the database works, whatever the relay
-- does.
use epistole.Prelude.{
  ℕ, ◌+◌, ◌<◌, ◌^◌, ◌≡◌, ◌≢◌, refl, ap, ◌∙◌, none, some, Option, List, [], ◌∷◌, Bool, true, false,
  Text, text_eq, Result, ok, err, Bool-cases, inl, inr,
}
use epistole.Prelude.Effects.{Returns, >>=-Returns, lift}
use epistole.Error.{Error}
use epistole.Crypto.{Crypto, CryptoLaws}
use epistole.Config.{Config}
use epistole.Platform.{Platform, PlatformLaws, deliveries, rate_limits}
use epistole.Platform.Available.{Available}
use epistole.Records.{Subscriber, Send, Delivery, DeliveryStatus}
use epistole.Token.{sign}
use epistole.Token.RoundTrip.{sign-total}
use epistole.Store.RateLimits.{try_reserve_send_slot, count_of}
use epistole.Store.RateLimits.Answers.{try_reserve_send_slot-Returns}
use epistole.Store.RateLimits.Counts.{count_at}
use epistole.Store.Sends.{delivery_get, delivery_key, decode_with}
use epistole.Store.Sends.Answers.{delivery_get-Returns, delivery_put-Returns}
use epistole.Store.Sends.Laws.{delivery_at, delivery_get-Keeps}
use epistole.Handlers.Send.{Tally, count, fan_out}
use epistole.Handlers.Send.Compose.{hour_bucket, day_bucket}
use epistole.Handlers.Send.Buckets.{hour_bucket-ne-day_bucket}
use epistole.Handlers.Send.Deliver.{
  RecipientOutcome, transmit, record_delivery, unsubscribe_token, send_to, admit, attempt,
  deliver_to_recipient, outcome_of,
}
use epistole.Handlers.Send.Deliver
use epistole.Handlers.Send.Attempts.{Attempted}
use epistole.Handlers.Send.Once.{Effect, deliver_to_recipient-Effect}

module _ (p : Platform) (laws : PlatformLaws p) where
  open p use {World, Time, Ulid}
  open laws use {rows}

  -- Every row of the ledger and every count can be read.
  pub record IsLedger (w : World) : Type 0 where
    pub delivery : (k : Text) → (o : Option (Delivery Ulid Time)) × (delivery_at p laws w k ≡ ok o)
    pub counted : (b : Text) → (n : ℕ) × (count_at p laws w b ≡ ok n)

  pub IsLedger-rows : {w v : World} → rows v ≡ rows w → IsLedger w → IsLedger v
  IsLedger-rows same h = record {
    delivery = λ k.
        let (o, found) = h.delivery k in
        (o, ap (λ r. decode_with p.delivery_json (r deliveries k)) same ∙ found);
    counted = λ b.
        let (n, found) = h.counted b in (n, ap (λ r. count_of p b (r rate_limits b)) same ∙ found);
  }

  module _ (crypto : Crypto) (config : Config) (send_rec : Send Ulid Time) (s : Subscriber Time)
      (hour_bucket day_bucket : Text) where
    Attempted-IsLedger :
        {outcome : RecipientOutcome} {w w' : World}
        → Attempted p laws crypto config send_rec s hour_bucket day_bucket outcome w w'
        → IsLedger w
        → IsLedger w'
    Attempted-IsLedger h ledger = record {
      delivery = λ k. elim (Bool-cases (text_eq (delivery_key p send_rec.id s.email) k)) [
        | inl same ↦ (some h.delivery, h.recorded k ∙ rw same refl)
        | inr other ↦ let (o, found) = ledger.delivery k in (o, h.recorded k ∙ rw other found)
      ];
      counted = λ b. elim (Bool-cases (text_eq hour_bucket b)) [
        | inl hour ↦ (h.reserved.hour_count + 1, h.reserved.after b ∙ rw hour refl)
        | inr not_hour ↦ elim (Bool-cases (text_eq day_bucket b)) [
          | inl day ↦ (h.reserved.day_count + 1, h.reserved.after b ∙ rw (not_hour, day) refl)
          | inr not_day ↦
              let (n, found) = ledger.counted b in
              (n, h.reserved.after b ∙ rw (not_hour, not_day) found)
        ]
      ];
    }

    Effect-IsLedger :
        (outcome : RecipientOutcome) {w w' : World}
        → Effect p laws crypto config send_rec s hour_bucket day_bucket outcome w w'
        → IsLedger w
        → IsLedger w'
    unfolding Effect
    Effect-IsLedger Deliver.sent h = Attempted-IsLedger h
    Effect-IsLedger Deliver.failed h = Attempted-IsLedger h
    Effect-IsLedger Deliver.already_delivered h = IsLedger-rows h.same_rows
    Effect-IsLedger Deliver.deferred_by_cap h = IsLedger-rows h.refused.same_rows

  module _ (available : Available p) (crypto : Crypto) (crypto_laws : CryptoLaws crypto)
      (config : Config) where
    transmit-Returns :
        (composed : Result Error p.Message) (w : World)
        → Returns (transmit p crypto config composed) w
    unfolding transmit
    transmit-Returns (err e) w = (_, refl)
    transmit-Returns (ok m) w = (_, refl)

    record_delivery-Returns :
        (send_rec : Send Ulid Time) (s : Subscriber Time) (a : DeliveryStatus × Option Text)
        (w : World)
        → Returns (record_delivery p crypto config send_rec s a) w
    unfolding record_delivery
    record_delivery-Returns send_rec s a w =
        rw (delivery_put-Returns p laws available _ (p.now_utc w).1) (_, refl)

    send_to-Returns :
        (send_rec : Send Ulid Time) (s : Subscriber Time) (now : Time) (w : World)
        → config.token_secret ≢ []
        → Returns (send_to p crypto config send_rec s now) w
    unfolding send_to
    send_to-Returns send_rec s now w keyed =
        let t = unsubscribe_token p crypto config s now in
        >>=-Returns (lift (sign crypto t config.token_secret)) _ w
          (sign-total crypto crypto_laws t config.token_secret keyed)
          λ raw _.
            >>=-Returns (transmit p crypto config _) _ w (transmit-Returns _ w)
              λ a _. record_delivery-Returns send_rec s a _

    admit-Returns :
        (send_rec : Send Ulid Time) (s : Subscriber Time) (now : Time) (granted : Bool) (w : World)
        → config.token_secret ≢ []
        → Returns (admit p crypto config send_rec s now granted) w
    unfolding admit
    admit-Returns send_rec s now true w keyed = send_to-Returns send_rec s now w keyed
    admit-Returns send_rec s now false w keyed = (_, refl)

    attempt-Returns :
        (send_rec : Send Ulid Time) (s : Subscriber Time) (hour_bucket day_bucket : Text)
        (now : Time) (o : Option (Delivery Ulid Time)) (w : World)
        → config.token_secret ≢ []
        → IsLedger w
        → Returns (attempt p crypto config send_rec s hour_bucket day_bucket now o) w
    unfolding attempt
    attempt-Returns send_rec s hour_bucket day_bucket now (some d) w keyed ledger = (_, refl)
    attempt-Returns send_rec s hour_bucket day_bucket now none w keyed ledger =
        let (hour_count, hour) = ledger.counted hour_bucket in
        let (day_count, day) = ledger.counted day_bucket in
        let reserve =
          try_reserve_send_slot p hour_bucket day_bucket config.send_cap_per_hour
            config.send_cap_per_day in
        >>=-Returns reserve _ w
          (try_reserve_send_slot-Returns p laws available hour_bucket day_bucket
            config.send_cap_per_hour config.send_cap_per_day hour_count day_count w hour day)
          λ granted _. admit-Returns send_rec s now granted (reserve w).1 keyed

    deliver_to_recipient-Returns :
        (send_rec : Send Ulid Time) (s : Subscriber Time) (hour_bucket day_bucket : Text)
        (now : Time) (w : World)
        → config.token_secret ≢ []
        → IsLedger w
        → Returns (deliver_to_recipient p crypto config send_rec s hour_bucket day_bucket now) w
    unfolding deliver_to_recipient
    deliver_to_recipient-Returns send_rec s hour_bucket day_bucket now w keyed ledger =
        let (o, found) = ledger.delivery (delivery_key p send_rec.id s.email) in
        let read = delivery_get p send_rec.id s.email in
        >>=-Returns read _ w (o, delivery_get-Returns p laws available send_rec.id s.email w found)
          λ o' _.
            attempt-Returns send_rec s hour_bucket day_bucket now o' (read w).1 keyed
              (IsLedger-rows ((delivery_get-Keeps p laws send_rec.id s.email).at w) ledger)

    -- A fan-out ends with a tally. While the calls of the database and the encoding of rows
    -- succeed, with a token secret that is not empty and caps below 2 ^ 64, a fan-out from a world
    -- whose ledger rows and counts can all be read returns a tally for every list of subscribers,
    -- whatever the relay answers.
    pub fan_out-Returns :
        (send_rec : Send Ulid Time) (now : Time) (active : List (Subscriber Time)) (t : Tally)
        (w : World)
        → config.token_secret ≢ []
        → config.send_cap_per_hour < 2 ^ 64
        → config.send_cap_per_day < 2 ^ 64
        → IsLedger w
        → Returns (fan_out p crypto config send_rec now active t) w
    unfolding fan_out
    fan_out-Returns send_rec now [] t w keyed hc dc ledger = (t, refl)
    fan_out-Returns send_rec now (s ∷ rest) t w keyed hc dc ledger =
        let hour = hour_bucket p now in
        let day = day_bucket p now in
        let deliver = deliver_to_recipient p crypto config send_rec s hour day now in
        >>=-Returns deliver _ w
          (deliver_to_recipient-Returns send_rec s hour day now w keyed ledger)
          λ outcome done.
            let effect =
              deliver_to_recipient-Effect p laws crypto config send_rec s hour day now w outcome
                (hour_bucket-ne-day_bucket p now) hc dc done in
            fan_out-Returns send_rec now rest (count outcome t) (deliver w).1 keyed hc dc
              (Effect-IsLedger crypto config send_rec s hour day outcome effect ledger)
