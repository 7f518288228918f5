-- ===== src/Store/RateLimits/Answers.antt =====
-- With a database whose calls succeed, a reservation of src/store/rate_limit.rs has an answer.
use epistole.Prelude.{ℕ, ◌≡◌, refl, ap, ◌∙◌, ◌||◌, leb, Bool, true, false, if◌then◌else◌, Text, ok}
use epistole.Prelude.Effects.{pure, Returns}
use epistole.Platform.{Platform, PlatformLaws, rate_limits}
use epistole.Platform.Available.{Available}
use epistole.Store.RateLimits.{count_of, rate_get, rate_increment, reserve, try_reserve_send_slot}
use epistole.Store.RateLimits.Counts.{count_at, rate_get-rows}

module _ (p : Platform) (laws : PlatformLaws p) (available : Available p) where
  open p use {World}
  open laws use {rows}

  rate_get-Returns :
      (bucket : Text) (w : World) {n : ℕ}
      → count_at p laws w bucket ≡ ok n
      → (rate_get p bucket w).0 ≡ ok n
  unfolding rate_get
  rate_get-Returns bucket w {n} found =
      let (raw, got) = available.get-total rate_limits bucket w in
      let counted : count_of p bucket raw ≡ ok n =
        ap (count_of p bucket) (laws.get-rows rate_limits bucket w got) ∙ found in
      rw (got, counted) refl

  rate_increment-Returns :
      (bucket : Text) (n : ℕ) (w : World) → (rate_increment p bucket n w).0 ≡ ok tt
  unfolding rate_increment
  rate_increment-Returns bucket n w = rw (available.insert-total rate_limits bucket _ w) refl

  reserve-Returns :
      (hour_bucket day_bucket : Text) (hour_count day_count : ℕ) (w : World)
      → Returns (reserve p hour_bucket day_bucket hour_count day_count) w
  unfolding reserve
  reserve-Returns hour_bucket day_bucket hour_count day_count w =
      let w1 = (rate_increment p hour_bucket hour_count w).1 in
      rw
        (
          rate_increment-Returns hour_bucket hour_count w,
          rate_increment-Returns day_bucket day_count w1,
        )
        (true, refl)

  settle-Returns :
      (full : Bool) (hour_bucket day_bucket : Text) (hour_count day_count : ℕ) (w : World)
      → Returns
          (if full then pure false else reserve p hour_bucket day_bucket hour_count day_count)
          w
  settle-Returns true hour_bucket day_bucket hour_count day_count w = (false, refl)
  settle-Returns false hour_bucket day_bucket hour_count day_count w =
      reserve-Returns hour_bucket day_bucket hour_count day_count w

  -- Where both counts can be read, a reservation has an answer.
  pub try_reserve_send_slot-Returns :
      (hour_bucket day_bucket : Text) (hourly_cap daily_cap hour_count day_count : ℕ) (w : World)
      → count_at p laws w hour_bucket ≡ ok hour_count
      → count_at p laws w day_bucket ≡ ok day_count
      → Returns (try_reserve_send_slot p hour_bucket day_bucket hourly_cap daily_cap) w
  unfolding try_reserve_send_slot
  try_reserve_send_slot-Returns hour_bucket day_bucket hourly_cap daily_cap hour_count day_count w
        hb db =
      let w1 = (rate_get p hour_bucket w).1 in
      let db1 : count_at p laws w1 day_bucket ≡ ok day_count =
        ap (λ r. count_of p day_bucket (r rate_limits day_bucket))
          (rate_get-rows p laws hour_bucket w)
        ∙ db in
      rw (rate_get-Returns hour_bucket w hb, rate_get-Returns day_bucket w1 db1)
        (settle-Returns (leb hourly_cap hour_count || leb daily_cap day_count) hour_bucket
          day_bucket hour_count day_count (rate_get p day_bucket w1).1)
