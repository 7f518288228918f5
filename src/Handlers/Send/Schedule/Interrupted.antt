-- ===== src/Handlers/Send/Schedule/Interrupted.antt =====
-- A fan-out of src/handlers/send.rs that stops between the relay and the ledger, and one that runs after it.
use epistole.Prelude.{
  ◌≡◌, ◌^◌, ◌<◌, refl, sym, ap, subst, ◌∙◌, ◌∷◌, List, none, some, Option, Bool, true, false, Text,
  ok,
}
use epistole.Prelude.Effects.{>>=-eq-ok, lift}
use epistole.Crypto.{Crypto}
use epistole.Config.{Config}
use epistole.Platform.{Platform, PlatformLaws, deliveries}
use epistole.Records
use epistole.Records.{Subscriber, Send, Delivery, DeliveryStatus}
use epistole.Token.{sign}
use epistole.Store.RateLimits.{try_reserve_send_slot}
use epistole.Store.RateLimits.Caps.{Outcome, try_reserve_send_slot-caps}
use epistole.Store.RateLimits.Silent.{try_reserve_send_slot-Keeps}
use epistole.Store.Sends.{decode_with, delivery_key, delivery_get}
use epistole.Store.Sends.Laws.{
  delivery_at, delivery_get-Keeps, delivery_get-Keeps_outbox, delivery_get-delivery_at,
}
use epistole.Handlers.Send.{Tally}
use epistole.Handlers.Send.Attempts.{transmit-Mailed, Mailed}
use epistole.Handlers.Send.Buckets.{hour_bucket-ne-day_bucket}
use epistole.Handlers.Send.Compose.{hour_bucket, day_bucket}
use epistole.Handlers.Send.Deliver.{
  RecipientOutcome, outcome_of, unsubscribe_token, deliver_to_recipient,
}
use epistole.Handlers.Send.Deliver
use epistole.Handlers.Send.Once.{Effect, deliver_to_recipient-Effect}
use epistole.Handlers.Send.Schedule.{
  Pc, ready, unrecorded, admitted, handed, looked, reserved, hand_over, advance,
}
use epistole.Handlers.Send.Schedule.Counts.{hand_over-rows}

module _ (p : Platform) (laws : PlatformLaws p) (crypto : Crypto) (config : Config) where
  open p use {World, Time, Ulid, Message}
  open laws use {rows, outbox}

  looked-none :
      (s : Subscriber Time) (rest : List (Subscriber Time)) (t : Tally)
      (o : Option (Delivery Ulid Time))
      → looked p crypto config s rest t o ≡ unrecorded s rest t
      → o ≡ none
  unfolding looked
  looked-none s rest t none h = refl
  looked-none s rest t (some d) h = cc

  reserved-true :
      (s : Subscriber Time) (rest : List (Subscriber Time)) (t : Tally) (granted : Bool)
      → reserved p crypto config s rest t granted ≡ admitted s rest t
      → granted ≡ true
  unfolding reserved
  reserved-true s rest t true h = refl
  reserved-true s rest t false h = cc

  -- What a delivery between `u` and `u'` is to a recipient that was written to between `w` and `v`:
  -- it is not skipped, and if it is sent, its message is one more.
  unfoldable pub Unskipped : RecipientOutcome → (w v u u' : World) → Type 0
  Unskipped Deliver.sent w v u u' =
      Mailed p laws crypto config w v × Mailed p laws crypto config u u'
  Unskipped Deliver.failed w v u u' = Unit
  Unskipped Deliver.deferred_by_cap w v u u' = Unit
  Unskipped Deliver.already_delivered w v u u' = ⊥

  -- The message is out, and the ledger has no row for the recipient.
  record Unnoticed (send_rec : Send Ulid Time) (s : Subscriber Time) (w w' : World) : Type 0 where
    unnoticed : delivery_at p laws w' (delivery_key p send_rec.id s.email) ≡ ok none
    mailed : (message : Message) × (outbox w' ≡ message ∷ outbox w)

  module _ (send_rec : Send Ulid Time) (s : Subscriber Time) (rest : List (Subscriber Time))
      (t : Tally) (now : Time) where
    abbrev after : Pc p crypto config → World → World
    after pc w = (advance p crypto config send_rec now pc w).1

    look-unrecorded :
        (w : World)
        → (advance p crypto config send_rec now (ready (s ∷ rest) t) w).0 ≡ ok (unrecorded s rest t)
        → (delivery_at p laws (after (ready (s ∷ rest) t) w) (delivery_key p send_rec.id s.email)
            ≡ ok none)
          × (outbox (after (ready (s ∷ rest) t) w) ≡ outbox w)
    unfolding advance
    look-unrecorded w h =
        let (o, read, same, e) = >>=-eq-ok (delivery_get p send_rec.id s.email) _ w h in
        let absent : o ≡ none = looked-none s rest t o (cc) in
        subst
          (λ r.
            (delivery_at p laws r.1 (delivery_key p send_rec.id s.email) ≡ ok none)
            × (outbox r.1 ≡ outbox w))
          (sym same)
          (
            ap
                  (λ r.
                    decode_with p.delivery_json (r deliveries (delivery_key p send_rec.id s.email)))
                  ((delivery_get-Keeps p laws send_rec.id s.email).at w)
                ∙ delivery_get-delivery_at p laws send_rec.id s.email w read
                ∙ ap ok absent,
            (delivery_get-Keeps_outbox p laws send_rec.id s.email).at w,
          )

    module _ (hourly : config.send_cap_per_hour < 2 ^ 64)
        (daily : config.send_cap_per_day < 2 ^ 64) where
      reserve-admitted :
          (w : World)
          → (advance p crypto config send_rec now (unrecorded s rest t) w).0
            ≡ ok (admitted s rest t)
          → (rows (after (unrecorded s rest t) w) deliveries ≡ rows w deliveries)
            × (outbox (after (unrecorded s rest t) w) ≡ outbox w)
      unfolding advance Outcome
      reserve-admitted w h =
          let (granted, got, same, e) = >>=-eq-ok (try_reserve_send_slot p _ _ _ _) _ w h in
          let yes_granted : granted ≡ true = reserved-true s rest t granted (cc) in
          let outcome =
            try_reserve_send_slot-caps p laws (hour_bucket p now) (day_bucket p now)
              config.send_cap_per_hour config.send_cap_per_day w (hour_bucket-ne-day_bucket p now)
              hourly daily (got ∙ ap ok yes_granted) in
          subst (λ r. (rows r.1 deliveries ≡ rows w deliveries) × (outbox r.1 ≡ outbox w))
            (sym same)
            (
              outcome.other_spaces deliveries (λ e. cc),
              (try_reserve_send_slot-Keeps p laws (hour_bucket p now) (day_bucket p now)
                    config.send_cap_per_hour config.send_cap_per_day).at
                  w,
            )

    hand_over-Mailed :
        (w : World) {a : DeliveryStatus × Option Text}
        → (hand_over p crypto config send_rec s now w).0 ≡ ok a
        → outcome_of a.0 ≡ Deliver.sent
        → Mailed p laws crypto config w (hand_over p crypto config send_rec s now w).1
    unfolding hand_over
    hand_over-Mailed w h is_sent =
        let (signed, done, same, e) =
          >>=-eq-ok
            (lift (sign crypto (unsubscribe_token p crypto config s now) config.token_secret)) _ w
            h in
        subst (λ r. Mailed p laws crypto config w r.1) (sym same)
          (transmit-Mailed p laws crypto config _ w e is_sent)

    hand-handed :
        (w : World)
        → (advance p crypto config send_rec now (admitted s rest t) w).0
          ≡ ok (handed s rest t (Records.sent, none))
        → (rows (after (admitted s rest t) w) ≡ rows w)
          × Mailed p laws crypto config w (after (admitted s rest t) w)
    unfolding advance
    hand-handed w h =
        let (a, done, same, e) = >>=-eq-ok (hand_over p crypto config send_rec s now) _ w h in
        let is_sent : a ≡ (Records.sent, none) = cc in
        subst (λ r. (rows r.1 ≡ rows w) × Mailed p laws crypto config w r.1) (sym same)
          (
            hand_over-rows p laws crypto config send_rec s now w,
            hand_over-Mailed w done (ap (λ a. outcome_of a.0) is_sent),
          )

    -- The fan-out has handed its message over and stops there.
    pub record IsInterrupted (w v : World) : Type 0 where
      pub look :
          (advance p crypto config send_rec now (ready (s ∷ rest) t) w).0 ≡ ok (unrecorded s rest t)
      pub reserve :
          (advance p crypto config send_rec now
            (unrecorded s rest t)
            (after (ready (s ∷ rest) t) w)).0
          ≡ ok (admitted s rest t)
      pub hand :
          (advance p crypto config send_rec now
            (admitted s rest t)
            (after (unrecorded s rest t) (after (ready (s ∷ rest) t) w))).0
          ≡ ok (handed s rest t (Records.sent, none))
      pub stopped :
          v ≡ after (admitted s rest t) (after (unrecorded s rest t) (after (ready (s ∷ rest) t) w))

    module _ (hourly : config.send_cap_per_hour < 2 ^ 64)
        (daily : config.send_cap_per_day < 2 ^ 64) where
      IsInterrupted-Unnoticed : (w v : World) → IsInterrupted w v → Unnoticed send_rec s w v
      IsInterrupted-Unnoticed w v h =
          let w1 = after (ready (s ∷ rest) t) w in
          let w2 = after (unrecorded s rest t) w1 in
          let (absent, quiet) = look-unrecorded w h.look in
          let (ledger, silent) = reserve-admitted hourly daily w1 h.reserve in
          let (same_rows, mail) = hand-handed w2 h.hand in
          rw h.stopped (record {
            unnoticed =
                ap
                  (λ r.
                    decode_with p.delivery_json (r deliveries (delivery_key p send_rec.id s.email)))
                  same_rows
                ∙ ap (λ r. decode_with p.delivery_json (r (delivery_key p send_rec.id s.email)))
                    ledger
                ∙ absent;
            mailed = (mail.0, mail.1 ∙ ap (λ o. mail.0 ∷ o) (silent ∙ quiet));
          })

  Effect-Unskipped :
      (send_rec : Send Ulid Time) (s : Subscriber Time) (hour day : Text)
      (outcome : RecipientOutcome) (w v u u' : World)
      → Unnoticed send_rec s w v
      → delivery_at p laws u (delivery_key p send_rec.id s.email)
        ≡ delivery_at p laws v (delivery_key p send_rec.id s.email)
      → Effect p laws crypto config send_rec s hour day outcome u u'
      → Unskipped outcome w v u u'
  unfolding Effect Unskipped
  Effect-Unskipped send_rec s hour day Deliver.sent w v u u' gap kept h =
      (gap.mailed, h.mailed refl)
  Effect-Unskipped send_rec s hour day Deliver.failed w v u u' gap kept h = tt
  Effect-Unskipped send_rec s hour day Deliver.deferred_by_cap w v u u' gap kept h = tt
  Effect-Unskipped send_rec s hour day Deliver.already_delivered w v u u' gap kept h =
      let absent = kept ∙ gap.unnoticed in let present = h.recorded in cc

  -- A retry can write twice. With caps below 2 ^ 64, if a fan-out hands a recipient a message that
  -- the relay accepts and stops before it records the delivery, a delivery of the send to that
  -- recipient which starts in any world whose ledger holds for the recipient what the interruption
  -- left and which returns an outcome is not skipped as already delivered, and if its outcome is
  -- `sent`, a second message goes out besides the first.
  pub IsInterrupted-Unskipped :
      (send_rec : Send Ulid Time) (s : Subscriber Time) (rest : List (Subscriber Time)) (t : Tally)
      (now later : Time) (w v u : World) (outcome : RecipientOutcome)
      → config.send_cap_per_hour < 2 ^ 64
      → config.send_cap_per_day < 2 ^ 64
      → IsInterrupted send_rec s rest t now w v
      → delivery_at p laws u (delivery_key p send_rec.id s.email)
        ≡ delivery_at p laws v (delivery_key p send_rec.id s.email)
      → (deliver_to_recipient p crypto config send_rec s
          (hour_bucket p later)
          (day_bucket p later)
          later
          u).0
        ≡ ok outcome
      → Unskipped outcome w v u
          (deliver_to_recipient p crypto config send_rec s
            (hour_bucket p later)
            (day_bucket p later)
            later
            u).1
  IsInterrupted-Unskipped send_rec s rest t now later w v u outcome hourly daily h kept delivered =
      Effect-Unskipped send_rec s (hour_bucket p later) (day_bucket p later) outcome w v u _
        (IsInterrupted-Unnoticed send_rec s rest t now hourly daily w v h) kept
        (deliver_to_recipient-Effect p laws crypto config send_rec s (hour_bucket p later)
          (day_bucket p later) later u outcome (hour_bucket-ne-day_bucket p later) hourly daily
          delivered)
