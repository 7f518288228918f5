-- ===== src/Handlers/Send/Attempts.antt =====
-- One attempt of src/handlers/send.rs to write to a recipient: the relay, then the ledger.
use epistole.Prelude.{
  ◌≡◌, refl, ap, ◌∙◌, ◌∷◌, none, some, Option, if◌then◌else◌, Text, text_eq, Result, ok, err,
}
use epistole.Prelude.Effects.{lift, ◌>>=◌, >>=-eq-ok}
use epistole.Error.{Error}
use epistole.Crypto.{Crypto}
use epistole.Config.{Config}
use epistole.Platform.{Platform, PlatformLaws, deliveries, rate_limits}
use epistole.Records.{Subscriber, Send, Delivery, DeliveryStatus}
use epistole.Token.{sign}
use epistole.Store.RateLimits.Caps.{Reserved, Granted, Refused}
use epistole.Store.RateLimits.Carry.{Reserved-after}
use epistole.Store.Sends.{delivery_key, delivery_put, decode_with}
use epistole.Store.Sends.Laws.{
  delivery_at, Recorded, delivery_put-Recorded, delivery_put-Keeps_outbox,
}
use epistole.Handlers.Send.Deliver.{
  RecipientOutcome, outcome_of, status_and_error, transmit, record_delivery, send_to, admit,
  attempt, deliver_to_recipient,
}
use epistole.Handlers.Send.Deliver

module _ (p : Platform) (laws : PlatformLaws p) (crypto : Crypto) (config : Config) where
  open p use {World, Time, Ulid, Message, now_utc, mail}
  open laws use {rows, outbox}

  -- `message` went out between `w` and `w'`, and it is the only one.
  abbrev pub Mailed : World → World → Type 0
  Mailed w w' = (message : Message) × (outbox w' ≡ message ∷ outbox w)

  pub transmit-rows :
      (composed : Result Error Message) (w : World)
      → rows (transmit p crypto config composed w).1 ≡ rows w
  unfolding transmit
  transmit-rows (err e) w = refl
  transmit-rows (ok m) w = laws.rows-mail m w

  pub attempt_sent :
      (r : Result Error (Unit {0})) → outcome_of (status_and_error r).0 ≡ Deliver.sent → r ≡ ok tt
  attempt_sent (ok _) sent = refl
  attempt_sent (err e) sent = cc

  -- An attempt that counts as sent handed one message to the relay.
  pub transmit-Mailed :
      (composed : Result Error Message) (w : World) {a : DeliveryStatus × Option Text}
      → (transmit p crypto config composed w).0 ≡ ok a
      → outcome_of a.0 ≡ Deliver.sent
      → Mailed w (transmit p crypto config composed w).1
  unfolding transmit
  transmit-Mailed (err e) w h sent = cc
  transmit-Mailed (ok m) w h sent = (m, laws.outbox-mail m w (attempt_sent (mail m w).0 (cc)))

  Recorded-rows :
      {d : Delivery Ulid Time} {w v w' : World}
      → rows v ≡ rows w
      → Recorded p laws d v w'
      → Recorded p laws d w w'
  Recorded-rows same h = record {
    delivery_at_key = λ k. rw (← same) (h.delivery_at_key k);
    other_spaces = λ sp ne. rw (← same) (h.other_spaces sp ne);
    durable_rows = h.durable_rows;
  }

  module _ (send_rec : Send Ulid Time) (s : Subscriber Time) (hour_bucket day_bucket : Text) where
    abbrev pub key : Text
    key = delivery_key p send_rec.id s.email

    -- What an attempt leaves: the ledger had no row for the recipient and has one now, on disk, whose
    -- status is the outcome; a slot was taken under both caps; and a message went out if the outcome
    -- is that it was sent.
    pub record Attempted (outcome : RecipientOutcome) (w w' : World) : Type 0 where
      pub unrecorded : delivery_at p laws w key ≡ ok none
      pub delivery : Delivery Ulid Time
      pub status : outcome_of delivery.status ≡ outcome
      pub recorded :
          (k : Text)
          → delivery_at p laws w' k
            ≡ (if text_eq key k then ok (some delivery) else delivery_at p laws w k)
      pub durable : laws.durable w' ≡ rows w'
      pub reserved :
          Reserved p laws hour_bucket day_bucket config.send_cap_per_hour config.send_cap_per_day w
            w'
      pub mailed : outcome ≡ Deliver.sent → Mailed w w'

    -- What a recipient that has a row leaves: nothing changes and nothing is sent.
    pub record Skipped (w w' : World) : Type 0 where
      pub delivery : Delivery Ulid Time
      pub recorded : delivery_at p laws w key ≡ ok (some delivery)
      pub same_rows : rows w' ≡ rows w
      pub same_outbox : outbox w' ≡ outbox w

    -- What a recipient beyond a cap leaves: nothing changes and nothing is sent.
    pub record Deferred (w w' : World) : Type 0 where
      pub unrecorded : delivery_at p laws w key ≡ ok none
      pub refused :
          Refused p laws hour_bucket day_bucket config.send_cap_per_hour config.send_cap_per_day w
            w'
      pub same_outbox : outbox w' ≡ outbox w

    -- What `record_delivery` leaves.
    pub record Filed (a : DeliveryStatus × Option Text) (outcome : RecipientOutcome) (w w' : World)
        : Type 0 where
      delivery : Delivery Ulid Time
      named : delivery_key p delivery.send_id delivery.email ≡ key
      status : delivery.status ≡ a.0
      pub recorded : Recorded p laws delivery w w'
      pub same_outbox : outbox w' ≡ outbox w
      pub outcome_lem : outcome_of a.0 ≡ outcome

    pub record_delivery-Filed :
        (a : DeliveryStatus × Option Text) (w : World) {outcome : RecipientOutcome}
        → (record_delivery p crypto config send_rec s a w).0 ≡ ok outcome
        → Filed a outcome w (record_delivery p crypto config send_rec s a w).1
    unfolding record_delivery
    record_delivery-Filed a w h =
        let d : Delivery Ulid Time = record {
          send_id = send_rec.id;
          email = s.email;
          status = a.0;
          at = (now_utc w).0;
          error = a.1;
        } in
        let w1 = (now_utc w).1 in
        let (_, put, same, done) = >>=-eq-ok (delivery_put p d) _ w1 h in
        rw same (record {
          delivery = d;
          named = refl;
          status = refl;
          recorded = Recorded-rows (laws.rows-now_utc w) (delivery_put-Recorded p laws d w1 put);
          same_outbox = (delivery_put-Keeps_outbox p laws d).at w1 ∙ laws.outbox-now_utc w;
          outcome_lem = cc;
        })

    -- From the composed message on, after a reservation; `w0` is the world that the ledger was read in.
    transmit-Attempted :
        (composed : Result Error Message) (w0 w : World) {outcome : RecipientOutcome}
        → delivery_at p laws w0 key ≡ ok none
        → Granted p laws hour_bucket day_bucket config.send_cap_per_hour config.send_cap_per_day w0
            w
        → outbox w ≡ outbox w0
        → let step =
            transmit p crypto config composed >>= record_delivery p crypto config send_rec s in
          (step w).0 ≡ ok outcome → Attempted outcome w0 (step w).1
    transmit-Attempted composed w0 w fresh granted quiet h =
        let (a, tried, same, filed) = >>=-eq-ok (transmit p crypto config composed) _ w h in
        let w1 = (transmit p crypto config composed w).1 in
        let f = record_delivery-Filed a w1 filed in
        let sent_rows = transmit-rows composed w in
        let kept : rows w1 deliveries ≡ rows w0 deliveries =
          ap (λ r. r deliveries) sent_rows ∙ granted.other_spaces deliveries (λ e. cc) in
        rw same (record {
          unrecorded = fresh;
          delivery = f.delivery;
          status = ap outcome_of f.status ∙ f.outcome_lem;
          recorded = λ k.
              f.recorded.delivery_at_key k
              ∙ rw f.named (
                  ap
                    (λ r.
                      if text_eq key k
                      then ok (some f.delivery)
                      else decode_with p.delivery_json (r k))
                    kept);
          durable = f.recorded.durable_rows;
          reserved =
              Reserved-after p laws
                (f.recorded.other_spaces rate_limits (λ e. cc) ∙ ap (λ r. r rate_limits) sent_rows)
                granted.reserved;
          mailed = λ e.
              let (m, out) = transmit-Mailed composed w tried (f.outcome_lem ∙ e) in
              (m, f.same_outbox ∙ out ∙ ap (λ o. m ∷ o) quiet);
        })

    pub send_to-Attempted :
        (now : Time) (w0 w : World) {outcome : RecipientOutcome}
        → delivery_at p laws w0 key ≡ ok none
        → Granted p laws hour_bucket day_bucket config.send_cap_per_hour config.send_cap_per_day w0
            w
        → outbox w ≡ outbox w0
        → (send_to p crypto config send_rec s now w).0 ≡ ok outcome
        → Attempted outcome w0 (send_to p crypto config send_rec s now w).1
    unfolding send_to
    send_to-Attempted now w0 w fresh granted quiet h =
        let (signed, _, same, h1) = >>=-eq-ok (lift (sign crypto _ config.token_secret)) _ w h in
        rw same (transmit-Attempted _ w0 w fresh granted quiet h1)
