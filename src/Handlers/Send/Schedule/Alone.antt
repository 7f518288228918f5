-- ===== src/Handlers/Send/Schedule/Alone.antt =====
-- A fan-out of src/handlers/send.rs that nothing comes between.
use epistole.Prelude.{
  ℕ, zero, suc, ◌+◌, ◌*◌, ◌≤◌, ◌≡◌, refl, ◌∙◌, ap, sym, [], ◌∷◌, List, length, none, some, Option,
  Bool, true, false, Text, ok, arith,
}
use epistole.Prelude.Effects.{Exec, lift, pure, ◌>>=◌, >>=-cong, >>=-assoc, continue}
use epistole.Error.{Error}
use epistole.Crypto.{Crypto}
use epistole.Config.{Config}
use epistole.Platform.{Platform}
use epistole.Records.{Subscriber, Send, Delivery, DeliveryStatus}
use epistole.Store.RateLimits.{try_reserve_send_slot}
use epistole.Store.Sends.{delivery_get}
use epistole.Token.{sign}
use epistole.Handlers.Send.{Tally, count, fan_out}
use epistole.Handlers.Send.Compose.{hour_bucket, day_bucket}
use epistole.Handlers.Send.Deliver.{
  RecipientOutcome, already_delivered, deferred_by_cap, record_delivery, send_to, admit, attempt,
  deliver_to_recipient,
}
use epistole.Handlers.Send.Schedule.{
  Pc, ready, unrecorded, admitted, handed, finished, looked, reserved, hand_over, advance,
  run_steps,
}

module _ (p : Platform) (crypto : Crypto) (config : Config) where
  open p use {World, Time, Ulid}

  -- The rest of a fan-out, ending in `finished`.
  abbrev remainder :
      Send Ulid Time → Time → List (Subscriber Time) → Tally → Exec World Error (Pc p crypto config)
  remainder send_rec now rest t =
      fan_out p crypto config send_rec now rest t >>= λ after. pure (finished after)

  module _ (send_rec : Send Ulid Time) (now : Time) where
    abbrev steps : ℕ → Pc p crypto config → Exec World Error (Pc p crypto config)
    steps = run_steps p crypto config send_rec now

    steps-finished : (n : ℕ) (t : Tally) (w : World) → steps n (finished t) w ≡ (ok (finished t), w)
    unfolding run_steps advance
    steps-finished zero t w = refl
    steps-finished (suc n) t w = steps-finished n t w

    -- The rest of the loop takes at most `n` steps.
    abbrev Ends : List (Subscriber Time) → ℕ → Type 0
    Ends rest n =
        (t : Tally) (w : World) → steps n (ready rest t) w ≡ remainder send_rec now rest t w

    module _ (s : Subscriber Time) (rest : List (Subscriber Time)) (t : Tally) where
      abbrev continued : RecipientOutcome → Exec World Error (Pc p crypto config)
      continued outcome = remainder send_rec now rest (count outcome t)

      steps-handed :
          (n : ℕ) (a : DeliveryStatus × Option Text) (w : World)
          → Ends rest n
          → steps (suc n) (handed s rest t a) w
            ≡ (record_delivery p crypto config send_rec s a >>= continued) w
      unfolding run_steps advance
      steps-handed n a w ends =
          >>=-assoc (record_delivery p crypto config send_rec s a) _ _ w
          ∙ >>=-cong (record_delivery p crypto config send_rec s a) w
              λ outcome v. ends (count outcome t) v

      send_to-hand_over :
          (w : World)
          → send_to p crypto config send_rec s now w
            ≡ (hand_over p crypto config send_rec s now
                  >>= record_delivery p crypto config send_rec s)
                w
      unfolding send_to hand_over
      send_to-hand_over w = sym (>>=-assoc (lift (sign crypto _ config.token_secret)) _ _ w)

      steps-admitted :
          (n : ℕ) (w : World)
          → Ends rest n
          → steps (suc (suc n)) (admitted s rest t) w
            ≡ (send_to p crypto config send_rec s now >>= continued) w
      unfolding run_steps advance
      steps-admitted n w ends =
          >>=-assoc (hand_over p crypto config send_rec s now) _ _ w
          ∙ >>=-cong (hand_over p crypto config send_rec s now) w (λ a v. steps-handed n a v ends)
          ∙ sym (>>=-assoc (hand_over p crypto config send_rec s now) _ _ w)
          ∙ ap (λ r. continue r.0 continued r.1) (sym (send_to-hand_over w))

      -- A recipient without a row takes at most three steps.
      steps-unrecorded :
          (n : ℕ) (w : World)
          → Ends rest n
          → Ends rest (suc (suc n))
          → steps (suc (suc (suc n))) (unrecorded s rest t) w
            ≡ (attempt p crypto config send_rec s (hour_bucket p now) (day_bucket p now) now none
                  >>= continued)
                w
      unfolding run_steps advance attempt
      steps-unrecorded n w ends ends' =
          >>=-assoc (try_reserve_send_slot p _ _ _ _) _ _ w
          ∙ >>=-cong (try_reserve_send_slot p _ _ _ _) w (λ granted v. settled granted v)
          ∙ sym (>>=-assoc (try_reserve_send_slot p _ _ _ _) _ _ w)
        where
          settled :
              (granted : Bool) (v : World)
              → steps (suc (suc n)) (reserved p crypto config s rest t granted) v
                ≡ (admit p crypto config send_rec s now granted >>= continued) v
          settled true v = steps-admitted n v ends
          settled false v = ends' (count deferred_by_cap t) v

      steps-recipient :
          (n : ℕ) (w : World)
          → Ends rest n
          → Ends rest (suc (suc n))
          → Ends rest (suc (suc (suc n)))
          → steps (suc (suc (suc (suc n)))) (ready (s ∷ rest) t) w
            ≡ remainder send_rec now (s ∷ rest) t w
      unfolding run_steps advance fan_out deliver_to_recipient attempt
      steps-recipient n w ends ends' ends'' =
          >>=-assoc (delivery_get p send_rec.id s.email) _ _ w
          ∙ >>=-cong (delivery_get p send_rec.id s.email) w (λ existing v. settled existing v)
          ∙ sym (>>=-assoc (delivery_get p send_rec.id s.email) _ _ w)
          ∙ sym (
              >>=-assoc
                (deliver_to_recipient p crypto config send_rec s (hour_bucket p now)
                  (day_bucket p now) now)
                _ _ w)
        where
          settled :
              (existing : Option (Delivery Ulid Time)) (v : World)
              → steps (suc (suc (suc n))) (looked p crypto config s rest t existing) v
                ≡ (attempt p crypto config send_rec s
                        (hour_bucket p now)
                        (day_bucket p now)
                        now
                        existing
                      >>= continued)
                    v
          settled none v = steps-unrecorded n v ends ends'
          settled (some d) v = ends'' (count already_delivered t) v

    -- A fan-out over n subscribers that nothing comes between has ended after 4 n + 1 steps, as the
    -- loop of `POST /send` ends: with the same counters or the same error, in the same world.
    pub run_steps-fan_out :
        (active : List (Subscriber Time)) (n : ℕ) (t : Tally) (w : World)
        → 4 * length active + 1 ≤ n
        → run_steps p crypto config send_rec now n (ready active t) w
          ≡ (fan_out p crypto config send_rec now active t >>= λ after. pure (finished after)) w
    unfolding run_steps advance fan_out
    run_steps-fan_out [] zero t w h = absurd (omega arith)
    run_steps-fan_out [] (suc n) t w h = steps-finished n t w
    run_steps-fan_out (s ∷ rest) (suc (suc (suc (suc n)))) t w h =
        steps-recipient s rest t n w (λ t v. run_steps-fan_out rest n t v (omega arith))
          (λ t v. run_steps-fan_out rest (suc (suc n)) t v (omega arith))
          (λ t v. run_steps-fan_out rest (suc (suc (suc n))) t v (omega arith))
    run_steps-fan_out (s ∷ rest) zero t w h = absurd (omega arith)
    run_steps-fan_out (s ∷ rest) (suc zero) t w h = absurd (omega arith)
    run_steps-fan_out (s ∷ rest) (suc (suc zero)) t w h = absurd (omega arith)
    run_steps-fan_out (s ∷ rest) (suc (suc (suc zero))) t w h = absurd (omega arith)
