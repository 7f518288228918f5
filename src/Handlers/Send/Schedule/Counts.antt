-- ===== src/Handlers/Send/Schedule/Counts.antt =====
-- What one step of a fan-out of src/handlers/send.rs does to the counts.
use epistole.Prelude.{
  ℕ, ◌+◌, ◌^◌, ◌≤◌, ◌<◌, ◌≡◌, ◌≢◌, refl, ◌∙◌, ap, [], ◌∷◌, List, none, some, Option, Bool, true,
  false, Bool-cases, inl, inr, Text, text_eq, text_eq_sound, ok, arith, if◌then◌else◌,
}
use epistole.Prelude.Effects.{lift, >>=-eq-ok, Keeps-bind, Keeps-lift}
use epistole.Crypto.{Crypto}
use epistole.Config.{Config}
use epistole.Platform.{Platform, PlatformLaws, rate_limits}
use epistole.Records.{Subscriber, Send, Delivery}
use epistole.Store.RateLimits.{count_of, try_reserve_send_slot}
use epistole.Store.RateLimits.Counts.{count_at}
use epistole.Store.RateLimits.Caps.{Granted, Outcome, try_reserve_send_slot-caps}
use epistole.Store.Sends.{delivery_get}
use epistole.Store.Sends.Laws.{delivery_get-Keeps}
use epistole.Token.{sign}
use epistole.Handlers.Send.{Tally, count}
use epistole.Handlers.Send.Attempts.{transmit-rows, record_delivery-Filed}
use epistole.Handlers.Send.Buckets.{hour_bucket-ne-day_bucket}
use epistole.Handlers.Send.Compose.{hour_bucket, day_bucket}
use epistole.Handlers.Send.Deliver.{deferred_by_cap, record_delivery, unsubscribe_token}
use epistole.Handlers.Send.Progress.{text_eq_of_ne}
use epistole.Handlers.Send.Schedule.{
  Pc, ready, unrecorded, admitted, handed, finished, looked, reserved, hand_over, advance,
}

-- The two windows of the caps.
pub data Window : Type 0 where
  hourly daily : Window

abbrev pub other : Window → Window
other hourly = daily
other daily = hourly

module _ (p : Platform) (laws : PlatformLaws p) (crypto : Crypto) (config : Config) where
  open p use {World, Time, Ulid}
  open laws use {rows}

  abbrev pub bucket : Window → Time → Text
  bucket hourly = hour_bucket p
  bucket daily = day_bucket p

  abbrev pub cap : Window → ℕ
  cap hourly = config.send_cap_per_hour
  cap daily = config.send_cap_per_day

  -- The slots that a fan-out has reserved and not used.
  abbrev pub held : Pc p crypto config → ℕ
  held (admitted s rest t) = 1
  held (ready _ _) = 0
  held (unrecorded _ _ _) = 0
  held (handed _ _ _ _) = 0
  held (finished _) = 0

  -- Those of a bucket.
  abbrev pub held_in : Window → Text → Time → Pc p crypto config → ℕ
  held_in v b now pc = if text_eq (bucket v now) b then held pc else 0

  pub count_at-same :
      (w w' : World) (b : Text)
      → rows w' rate_limits ≡ rows w rate_limits
      → count_at p laws w' b ≡ count_at p laws w b
  count_at-same w w' b same = ap (λ r. count_of p b (r b)) same

  -- A reservation that is granted counts in its own buckets alone.
  Granted-count :
      (v : Window) (now : Time) (b : Text) (n : ℕ) (w w' : World)
      → bucket (other v) now ≢ b
      → count_at p laws w b ≡ ok n
      → Granted p laws (hour_bucket p now) (day_bucket p now) (cap hourly) (cap daily) w w'
      → (count_at p laws w' b ≡ ok (n + (if text_eq (bucket v now) b then 1 else 0)))
        × (text_eq (bucket v now) b ≡ true → n < cap v)
  Granted-count hourly now b n w w' apart counted h =
      let away = text_eq_of_ne (day_bucket p now) b apart in
      elim (Bool-cases (text_eq (hour_bucket p now) b)) [
        | inl same ↦ ground (
          arith,
          h.reserved.after b,
          text_eq_sound (hour_bucket p now) b same,
          h.reserved.hour_before,
          counted,
          same,
        )
        | inr different ↦
            rw different
              (h.reserved.after b ∙ rw (different, away, counted) (ap ok (omega arith)), λ e. cc)
      ]
  Granted-count daily now b n w w' apart counted h =
      let away = text_eq_of_ne (hour_bucket p now) b apart in
      elim (Bool-cases (text_eq (day_bucket p now) b)) [
        | inl same ↦ ground (
          arith,
          h.reserved.after b,
          text_eq_sound (day_bucket p now) b same,
          h.reserved.day_before,
          counted,
          same,
          away,
        )
        | inr different ↦
            rw different
              (h.reserved.after b ∙ rw (different, away, counted) (ap ok (omega arith)), λ e. cc)
      ]

  -- What a step to `pc` leaves of a count that was `n`.
  abbrev pub Stepped : Window → Text → Time → ℕ → Pc p crypto config → World → Type 0
  Stepped v b now n pc w' =
      (count_at p laws w' b ≡ ok (n + held_in v b now pc)) × (1 ≤ held_in v b now pc → n < cap v)

  pub held_in-le :
      (v : Window) (b : Text) (now : Time) (pc : Pc p crypto config) → held_in v b now pc ≤ 1
  held_in-le v b now (admitted _ _ _) = ground arith
  held_in-le v b now (ready _ _) = ground arith
  held_in-le v b now (unrecorded _ _ _) = ground arith
  held_in-le v b now (handed _ _ _ _) = ground arith
  held_in-le v b now (finished _) = ground arith

  -- A step to where nothing is reserved, which changes no count.
  quiet :
      (v : Window) (b : Text) (now : Time) (n : ℕ) (pc : Pc p crypto config) (w w' : World)
      → held pc ≡ 0
      → rows w' rate_limits ≡ rows w rate_limits
      → count_at p laws w b ≡ ok n
      → Stepped v b now n pc w'
  quiet v b now n pc w w' idle same counted =
      let none_held : held_in v b now pc ≡ 0 = ground arith in
      rw none_held
        (count_at-same w w' b same ∙ counted ∙ ap ok (omega arith), λ h. absurd (omega arith))

  held-looked :
      (s : Subscriber Time) (rest : List (Subscriber Time)) (t : Tally)
      (o : Option (Delivery Ulid Time))
      → held (looked p crypto config s rest t o) ≡ 0
  unfolding looked
  held-looked s rest t none = refl
  held-looked s rest t (some d) = refl

  -- Handing a message over changes no row.
  pub hand_over-rows :
      (send_rec : Send Ulid Time) (s : Subscriber Time) (now : Time) (w : World)
      → rows (hand_over p crypto config send_rec s now w).1 ≡ rows w
  unfolding hand_over
  hand_over-rows send_rec s now w =
      (Keeps-bind (lift (sign crypto (unsubscribe_token p crypto config s now) config.token_secret))
          _ (Keeps-lift _) λ signed. record { at = λ v. transmit-rows p laws crypto config _ v }).at
        w

  module _ (hourly_bound : cap hourly < 2 ^ 64) (daily_bound : cap daily < 2 ^ 64) where
    reserved-Stepped :
        (v : Window) (b : Text) (now : Time) (n : ℕ) (s : Subscriber Time)
        (rest : List (Subscriber Time)) (t : Tally) (w w' : World) (granted : Bool)
        → bucket (other v) now ≢ b
        → count_at p laws w b ≡ ok n
        → Outcome p laws granted
            (hour_bucket p now)
            (day_bucket p now)
            (cap hourly)
            (cap daily)
            w
            w'
        → Stepped v b now n (reserved p crypto config s rest t granted) w'
    unfolding reserved Outcome
    reserved-Stepped v b now n s rest t w w' true apart counted h =
        let (after, free) = Granted-count v now b n w w' apart counted h in
        (after, λ one. free (ground arith))
    reserved-Stepped v b now n s rest t w w' false apart counted h =
        quiet v b now n (ready rest (count deferred_by_cap t)) w w' refl
          (ap (λ r. r rate_limits) h.same_rows) counted

    pub advance-Stepped :
        (v : Window) (b : Text) (n : ℕ) (send_rec : Send Ulid Time) (now : Time)
        (pc pc' : Pc p crypto config) (w : World)
        → bucket (other v) now ≢ b
        → count_at p laws w b ≡ ok n
        → (advance p crypto config send_rec now pc w).0 ≡ ok pc'
        → Stepped v b now n pc' (advance p crypto config send_rec now pc w).1
    unfolding advance
    advance-Stepped v b n send_rec now (ready [] t) pc' w apart counted h =
        let end : finished t ≡ pc' = cc in
        rw (← end) (quiet v b now n (finished t) w w refl refl counted)
    advance-Stepped v b n send_rec now (finished t) pc' w apart counted h =
        let end : finished t ≡ pc' = cc in
        rw (← end) (quiet v b now n (finished t) w w refl refl counted)
    advance-Stepped v b n send_rec now (ready (s ∷ rest) t) pc' w apart counted h =
        let (o, read, same, e) = >>=-eq-ok (delivery_get p send_rec.id s.email) _ w h in
        let end : looked p crypto config s rest t o ≡ pc' = cc in
        rw (same, ← end)
          (quiet v b now n (looked p crypto config s rest t o) w _ (held-looked s rest t o)
            (ap (λ r. r rate_limits) ((delivery_get-Keeps p laws send_rec.id s.email).at w))
            counted)
    advance-Stepped v b n send_rec now (unrecorded s rest t) pc' w apart counted h =
        let (granted, got, same, e) = >>=-eq-ok (try_reserve_send_slot p _ _ _ _) _ w h in
        let end : reserved p crypto config s rest t granted ≡ pc' = cc in
        rw (same, ← end)
          (reserved-Stepped v b now n s rest t w _ granted apart counted (
            try_reserve_send_slot-caps p laws (hour_bucket p now) (day_bucket p now) (cap hourly)
              (cap daily) w (hour_bucket-ne-day_bucket p now) hourly_bound daily_bound got))
    advance-Stepped v b n send_rec now (admitted s rest t) pc' w apart counted h =
        let (a, done, same, e) = >>=-eq-ok (hand_over p crypto config send_rec s now) _ w h in
        let end : handed s rest t a ≡ pc' = cc in
        rw (same, ← end)
          (quiet v b now n (handed s rest t a) w _ refl
            (ap (λ r. r rate_limits) (hand_over-rows send_rec s now w)) counted)
    advance-Stepped v b n send_rec now (handed s rest t a) pc' w apart counted h =
        let (o, done, same, e) = >>=-eq-ok (record_delivery p crypto config send_rec s a) _ w h in
        let end : ready rest (count o t) ≡ pc' = cc in
        rw (same, ← end)
          (quiet v b now n (ready rest (count o t)) w _ refl
            ((record_delivery-Filed p laws crypto config send_rec s (hour_bucket p now)
                (day_bucket p now) a w done).recorded.other_spaces
              rate_limits (λ e. cc))
            counted)
