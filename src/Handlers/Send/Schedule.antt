-- ===== src/Handlers/Send/Schedule.antt =====
-- The fan-out of src/handlers/send.rs in the steps that other requests can come between: each call of
-- the database or of the relay, and the lock of the caps, is one step.
pub mod Alone
pub mod Counts
pub mod Caps
pub mod Interrupted
use epistole.Prelude.{
  ℕ, zero, suc, ◌++◌, [], ◌∷◌, List, none, some, Option, Bool, true, false, Text, text,
}
use epistole.Prelude.Effects.{Exec, lift, pure, ◌>>=◌}
use epistole.Error.{Error}
use epistole.Crypto.{Crypto}
use epistole.Config.{Config}
use epistole.Platform.{Platform}
use epistole.Records.{Subscriber, Send, Delivery, DeliveryStatus}
use epistole.Token.{sign}
use epistole.Store.RateLimits.{try_reserve_send_slot}
use epistole.Store.Sends.{delivery_get}
use epistole.Handlers.Send.{Tally, count}
use epistole.Handlers.Send.Compose.{build_message, hour_bucket, day_bucket}
use epistole.Handlers.Send.Deliver.{
  already_delivered, deferred_by_cap, transmit, record_delivery, unsubscribe_token,
}

module _ (p : Platform) (crypto : Crypto) (config : Config) where
  open p use {World, Time, Ulid}

  -- Where a fan-out stands: the subscribers that are left and the counters, and within a recipient
  -- what it has found out.
  pub data Pc : Type 0 where
    ready : List (Subscriber Time) → Tally → Pc
    unrecorded : Subscriber Time → List (Subscriber Time) → Tally → Pc
    admitted : Subscriber Time → List (Subscriber Time) → Tally → Pc
    handed : Subscriber Time → List (Subscriber Time) → Tally → DeliveryStatus × Option Text → Pc
    finished : Tally → Pc

  -- A fan-out that is under way.
  pub record Running : Type 0 where
    pub send_rec : Send Ulid Time
    pub now : Time
    pub pc : Pc

  -- After the look into the ledger, and after the reservation.
  unfoldable pub looked :
      Subscriber Time → List (Subscriber Time) → Tally → Option (Delivery Ulid Time) → Pc
  looked s rest t (some d) = ready rest (count already_delivered t)
  looked s rest t none = unrecorded s rest t

  unfoldable pub reserved : Subscriber Time → List (Subscriber Time) → Tally → Bool → Pc
  reserved s rest t true = admitted s rest t
  reserved s rest t false = ready rest (count deferred_by_cap t)

  -- The signature, the message and the relay.
  unfoldable pub hand_over :
      Send Ulid Time → Subscriber Time → Time → Exec World Error (DeliveryStatus × Option Text)
  hand_over send_rec s now = do
    signed ← lift (sign crypto (unsubscribe_token p crypto config s now) config.token_secret)
    transmit p crypto config (
        build_message p config send_rec s.email
          (config.base_url ++ (text "/unsubscribe?token=" ++ signed))
          (config.base_url ++ (text "/unsubscribe/one-click?token=" ++ signed)))

  -- One step.
  unfoldable pub advance : Send Ulid Time → Time → Pc → Exec World Error Pc
  unfolding looked reserved hand_over
  advance send_rec now (ready [] t) = pure (finished t)
  advance send_rec now (ready (s ∷ rest) t) =
      delivery_get p send_rec.id s.email >>= λ existing. pure (looked s rest t existing)
  advance send_rec now (unrecorded s rest t) =
      try_reserve_send_slot p (hour_bucket p now) (day_bucket p now) config.send_cap_per_hour
        config.send_cap_per_day
      >>= λ granted. pure (reserved s rest t granted)
  advance send_rec now (admitted s rest t) =
      hand_over send_rec s now >>= λ attempt. pure (handed s rest t attempt)
  advance send_rec now (handed s rest t attempt) =
      record_delivery p crypto config send_rec s attempt >>= λ outcome.
      pure (ready rest (count outcome t))
  advance send_rec now (finished t) = pure (finished t)

  -- So many steps, with nothing in between.
  unfoldable pub run_steps : Send Ulid Time → Time → ℕ → Pc → Exec World Error Pc
  unfolding advance
  run_steps send_rec now zero pc = pure pc
  run_steps send_rec now (suc n) pc =
      advance send_rec now pc >>= λ next. run_steps send_rec now n next
