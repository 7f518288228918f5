-- ===== src/Store/RateLimits/Silent.antt =====
-- What the reservations of src/store/rate_limit.rs leave alone: the outbox and the other keyspaces.
use epistole.Prelude.{
  ℕ, ◌≡◌, ◌≢◌, refl, ap, ◌∙◌, Bool, ok, if◌then◌else◌, true, false, ◌||◌, leb, Text,
}
use epistole.Prelude.Effects.{Keeps, keeps_rules, Keeps-bind, Keeps-pure, Keeps-if, pure, >>=-eq-ok}
use epistole.Platform.{Platform, PlatformLaws, Space, rate_limits}
use epistole.Platform.Effects.{get-Keeps_outbox, insert-Keeps_outbox}
use epistole.Store.RateLimits.{rate_get, rate_increment, reserve, try_reserve_send_slot}
use epistole.Store.RateLimits.Counts.{rate_get-rows, rate_increment-other_spaces}

module _ (p : Platform) (laws : PlatformLaws p) where
  open p use {World}
  open laws use {rows}

  rate_get-Keeps_outbox : (bucket : Text) → Keeps laws.outbox (rate_get p bucket)
  unfolding rate_get
  rate_get-Keeps_outbox bucket = search (keeps_rules, get-Keeps_outbox p laws)

  rate_increment-Keeps_outbox :
      (bucket : Text) (n : ℕ) → Keeps laws.outbox (rate_increment p bucket n)
  unfolding rate_increment
  rate_increment-Keeps_outbox bucket n = search (keeps_rules, insert-Keeps_outbox p laws)

  reserve-Keeps_outbox :
      (hour_bucket day_bucket : Text) (h d : ℕ)
      → Keeps laws.outbox (reserve p hour_bucket day_bucket h d)
  unfolding reserve
  reserve-Keeps_outbox hour_bucket day_bucket h d =
      Keeps-bind (rate_increment p hour_bucket h) _ (rate_increment-Keeps_outbox hour_bucket h) λ _.
        Keeps-bind (rate_increment p day_bucket d) _ (rate_increment-Keeps_outbox day_bucket d)
          λ _. Keeps-pure true

  -- A reservation sends nothing.
  pub try_reserve_send_slot-Keeps :
      (hour_bucket day_bucket : Text) (hourly_cap daily_cap : ℕ)
      → Keeps laws.outbox (try_reserve_send_slot p hour_bucket day_bucket hourly_cap daily_cap)
  unfolding try_reserve_send_slot
  try_reserve_send_slot-Keeps hour_bucket day_bucket hourly_cap daily_cap =
      Keeps-bind (rate_get p hour_bucket) _ (rate_get-Keeps_outbox hour_bucket) λ h.
        Keeps-bind (rate_get p day_bucket) _ (rate_get-Keeps_outbox day_bucket) λ d.
          Keeps-if (leb hourly_cap h || leb daily_cap d) (Keeps-pure false)
            (reserve-Keeps_outbox hour_bucket day_bucket h d)

  reserve-other_spaces :
      (hour_bucket day_bucket : Text) (hours days : ℕ) (sp : Space) (w : World) {granted : Bool}
      → sp ≢ rate_limits
      → (reserve p hour_bucket day_bucket hours days w).0 ≡ ok granted
      → laws.rows (reserve p hour_bucket day_bucket hours days w).1 sp ≡ laws.rows w sp
  unfolding reserve
  reserve-other_spaces hour_bucket day_bucket hours days sp w ne h =
      let (_, r1, same1, h1) = >>=-eq-ok (rate_increment p hour_bucket hours) _ w h in
      let w1 = (rate_increment p hour_bucket hours w).1 in
      let (_, r2, same2, _) = >>=-eq-ok (rate_increment p day_bucket days) _ w1 h1 in
      rw (same1, same2)
        (rate_increment-other_spaces p laws day_bucket days w1 sp r2 ne
          ∙ rate_increment-other_spaces p laws hour_bucket hours w sp r1 ne)

  -- A reservation that is answered changes no other keyspace.
  pub try_reserve_send_slot-other_spaces :
      (hour_bucket day_bucket : Text) (hourly_cap daily_cap : ℕ) (sp : Space) (w : World)
      {granted : Bool}
      → sp ≢ rate_limits
      → (try_reserve_send_slot p hour_bucket day_bucket hourly_cap daily_cap w).0 ≡ ok granted
      → laws.rows (try_reserve_send_slot p hour_bucket day_bucket hourly_cap daily_cap w).1 sp
        ≡ laws.rows w sp
  unfolding try_reserve_send_slot
  try_reserve_send_slot-other_spaces hour_bucket day_bucket hourly_cap daily_cap sp w {granted} ne
        h =
      let (hours, _, same1, h1) = >>=-eq-ok (rate_get p hour_bucket) _ w h in
      let w1 = (rate_get p hour_bucket w).1 in
      let (days, _, same2, h2) = >>=-eq-ok (rate_get p day_bucket) _ w1 h1 in
      rw (same1, same2)
        (settled (leb hourly_cap hours || leb daily_cap days) hours days
            (rate_get p day_bucket w1).1 h2
          ∙ ap (λ r. r sp)
              (rate_get-rows p laws day_bucket w1 ∙ rate_get-rows p laws hour_bucket w))
    where
      settled :
          (full : Bool) (hours days : ℕ) (v : World)
          → let step = if full then pure false else reserve p hour_bucket day_bucket hours days in
            (step v).0 ≡ ok granted → laws.rows (step v).1 sp ≡ laws.rows v sp
      settled true hours days v h = refl
      settled false hours days v h =
          reserve-other_spaces hour_bucket day_bucket hours days sp v ne h
