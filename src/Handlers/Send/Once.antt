-- ===== src/Handlers/Send/Once.antt =====
-- What `deliver_to_recipient` of src/handlers/send.rs does for one recipient, by its outcome.
use epistole.Prelude.{
  ◌^◌, ◌<◌, ◌≡◌, ◌≢◌, ◌∙◌, none, some, Option, Bool, true, false, Text, ok, arith,
}
use epistole.Prelude.Effects.{>>=-eq-ok}
use epistole.Crypto.{Crypto}
use epistole.Config.{Config}
use epistole.Platform.{Platform, PlatformLaws}
use epistole.Records.{Subscriber, Send, Delivery, DeliveryStatus}
use epistole.Store.RateLimits.{try_reserve_send_slot}
use epistole.Store.RateLimits.Caps.{Outcome, try_reserve_send_slot-caps}
use epistole.Store.RateLimits.Carry.{Outcome-counts}
use epistole.Store.RateLimits.Silent.{try_reserve_send_slot-Keeps}
use epistole.Store.Sends.{delivery_key, delivery_get}
use epistole.Store.Sends.Laws.{
  delivery_at, delivery_get-Keeps, delivery_get-Keeps_outbox, delivery_get-delivery_at,
}
use epistole.Handlers.Send.Deliver.{
  RecipientOutcome, outcome_of, status_and_error, transmit, record_delivery, send_to, admit,
  attempt, deliver_to_recipient,
}
use epistole.Handlers.Send.Deliver
use epistole.Handlers.Send.Attempts.{Attempted, Skipped, Deferred, send_to-Attempted}

module _ (p : Platform) (laws : PlatformLaws p) (crypto : Crypto) (config : Config) where
  open p use {World, Time, Ulid, Message, now_utc, mail}
  open laws use {rows, outbox}

  module _ (send_rec : Send Ulid Time) (s : Subscriber Time) (hour_bucket day_bucket : Text) where
    abbrev key : Text
    key = delivery_key p send_rec.id s.email

    unfoldable pub Effect : RecipientOutcome → World → World → Type 0
    Effect Deliver.sent =
        Attempted p laws crypto config send_rec s hour_bucket day_bucket Deliver.sent
    Effect Deliver.failed =
        Attempted p laws crypto config send_rec s hour_bucket day_bucket Deliver.failed
    Effect Deliver.already_delivered =
        Skipped p laws crypto config send_rec s hour_bucket day_bucket
    Effect Deliver.deferred_by_cap = Deferred p laws crypto config send_rec s hour_bucket day_bucket

    Attempted-Effect :
        (outcome : RecipientOutcome) (a : DeliveryStatus) {w w' : World}
        → outcome_of a ≡ outcome
        → Attempted p laws crypto config send_rec s hour_bucket day_bucket outcome w w'
        → Effect outcome w w'
    unfolding Effect
    Attempted-Effect Deliver.sent a e h = h
    Attempted-Effect Deliver.failed a e h = h
    Attempted-Effect Deliver.already_delivered a e h = absurd (never a e)
      where
        never : (a : DeliveryStatus) → outcome_of a ≢ Deliver.already_delivered
        never a e = ground arith
    Attempted-Effect Deliver.deferred_by_cap a e h = absurd (never a e)
      where
        never : (a : DeliveryStatus) → outcome_of a ≢ Deliver.deferred_by_cap
        never a e = ground arith

    admit-Effect :
        (now : Time) (granted : Bool) (w0 w : World) {outcome : RecipientOutcome}
        → delivery_at p laws w0 key ≡ ok none
        → Outcome p laws granted hour_bucket day_bucket config.send_cap_per_hour
            config.send_cap_per_day w0 w
        → outbox w ≡ outbox w0
        → (admit p crypto config send_rec s now granted w).0 ≡ ok outcome
        → Effect outcome w0 (admit p crypto config send_rec s now granted w).1
    unfolding Outcome Effect admit
    admit-Effect now true w0 w {outcome} fresh granted quiet h =
        let done =
          send_to-Attempted p laws crypto config send_rec s hour_bucket day_bucket now w0 w fresh
            granted quiet h in
        Attempted-Effect outcome done.delivery.status done.status done
    admit-Effect now false w0 w {outcome} fresh refused quiet h =
        let same : Deliver.deferred_by_cap ≡ outcome = cc in
        rw (← same) (record { unrecorded = fresh; refused = refused; same_outbox = quiet })

    -- From the ledger's answer on.
    attempt-Effect :
        (now : Time) (o : Option (Delivery Ulid Time)) (w0 w : World) {outcome : RecipientOutcome}
        → hour_bucket ≢ day_bucket
        → config.send_cap_per_hour < 2 ^ 64
        → config.send_cap_per_day < 2 ^ 64
        → delivery_at p laws w0 key ≡ ok o
        → rows w ≡ rows w0
        → outbox w ≡ outbox w0
        → (attempt p crypto config send_rec s hour_bucket day_bucket now o w).0 ≡ ok outcome
        → Effect outcome w0 (attempt p crypto config send_rec s hour_bucket day_bucket now o w).1
    unfolding attempt Effect
    attempt-Effect now (some d) w0 w {outcome} ne hc dc found read quiet h =
        let same : Deliver.already_delivered ≡ outcome = cc in
        rw (← same)
          (record { delivery = d; recorded = found; same_rows = read; same_outbox = quiet })
    attempt-Effect now none w0 w ne hc dc found read quiet h =
        let reserve =
          try_reserve_send_slot p hour_bucket day_bucket config.send_cap_per_hour
            config.send_cap_per_day in
        let (granted, asked, same, h1) = >>=-eq-ok reserve _ w h in
        let answer =
          try_reserve_send_slot-caps p laws hour_bucket day_bucket config.send_cap_per_hour
            config.send_cap_per_day w ne hc dc asked in
        rw same (
          admit-Effect now granted w0 (reserve w).1 found
            (Outcome-counts p laws granted hour_bucket day_bucket config.send_cap_per_hour
              config.send_cap_per_day w0 w _ read answer)
            ((try_reserve_send_slot-Keeps p laws hour_bucket day_bucket config.send_cap_per_hour
                  config.send_cap_per_day).at
                w
              ∙ quiet)
            h1)

  pub deliver_to_recipient-Effect :
      (send_rec : Send Ulid Time) (s : Subscriber Time) (hour_bucket day_bucket : Text) (now : Time)
      (w : World) (outcome : RecipientOutcome)
      → hour_bucket ≢ day_bucket
      → config.send_cap_per_hour < 2 ^ 64
      → config.send_cap_per_day < 2 ^ 64
      → (deliver_to_recipient p crypto config send_rec s hour_bucket day_bucket now w).0
        ≡ ok outcome
      → Effect send_rec s hour_bucket day_bucket outcome w
          (deliver_to_recipient p crypto config send_rec s hour_bucket day_bucket now w).1
  unfolding deliver_to_recipient
  deliver_to_recipient-Effect send_rec s hour_bucket day_bucket now w outcome ne hc dc h =
      let (o, got, same, h1) = >>=-eq-ok (delivery_get p send_rec.id s.email) _ w h in
      rw same (
        attempt-Effect send_rec s hour_bucket day_bucket now o w
          (delivery_get p send_rec.id s.email w).1 ne hc dc
          (delivery_get-delivery_at p laws send_rec.id s.email w got)
          ((delivery_get-Keeps p laws send_rec.id s.email).at w)
          ((delivery_get-Keeps_outbox p laws send_rec.id s.email).at w) h1)
