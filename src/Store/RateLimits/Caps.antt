-- ===== src/Store/RateLimits/Caps.antt =====
-- A reservation respects both caps.
use epistole.Prelude.{
  ℕ, ◌+◌, ◌^◌, ◌≤◌, ◌<◌, ◌≡◌, ◌≢◌, refl, sym, ap, ◌∙◌, ◌⊎◌, inl, inr, Bool, true, false, ◌||◌,
  if◌then◌else◌, leb, Text, text_eq, text_eq_sound, Result, ok, arith, Bool-cases,
}
use epistole.Prelude.Effects.{pure, >>=-eq-ok}
use epistole.Error.{Error}
use epistole.Platform.{Platform, PlatformLaws, rate_limits, Space}
use epistole.Store.RateLimits.{count_of, rate_get, rate_increment, reserve, try_reserve_send_slot}
use epistole.Store.RateLimits.Counts.{
  count_at, rate_get-count_at, count_at-rate_increment, rate_get-rows, rate_increment-other_spaces,
}

module _ (p : Platform) (laws : PlatformLaws p) where
  open p use {World}
  open laws use {rows}

  -- What a reservation that is granted leaves: a slot was free under both caps, both counts are one
  -- higher, and no other count changed.
  pub record Reserved (hour_bucket day_bucket : Text) (hourly_cap daily_cap : ℕ) (w w' : World)
      : Type 0 where
    pub hour_count : ℕ
    pub day_count : ℕ
    pub hour_before : count_at p laws w hour_bucket ≡ ok hour_count
    pub day_before : count_at p laws w day_bucket ≡ ok day_count
    pub hour_free : hour_count < hourly_cap
    pub day_free : day_count < daily_cap
    pub after :
        (b : Text)
        → count_at p laws w' b ≡ (
            if text_eq hour_bucket b
            then ok (hour_count + 1)
            else if text_eq day_bucket b
            then ok (day_count + 1)
            else count_at p laws w b)

  -- The same, and no other keyspace changed.
  pub record Granted (hour_bucket day_bucket : Text) (hourly_cap daily_cap : ℕ) (w w' : World)
      : Type 0 where
    pub reserved : Reserved hour_bucket day_bucket hourly_cap daily_cap w w'
    pub other_spaces : (s : Space) → s ≢ rate_limits → rows w' s ≡ rows w s

  -- What a reservation that is refused leaves: a cap was reached, and no row changed.
  pub record Refused (hour_bucket day_bucket : Text) (hourly_cap daily_cap : ℕ) (w w' : World)
      : Type 0 where
    pub hour_count : ℕ
    pub day_count : ℕ
    pub hour_before : count_at p laws w hour_bucket ≡ ok hour_count
    pub day_before : count_at p laws w day_bucket ≡ ok day_count
    pub reached : (hourly_cap ≤ hour_count) ⊎ (daily_cap ≤ day_count)
    pub same_rows : rows w' ≡ rows w

  unfoldable pub Outcome :
      Bool → (hour_bucket day_bucket : Text) (hourly_cap daily_cap : ℕ) (w w' : World) → Type 0
  Outcome true = Granted
  Outcome false = Refused

  reserve-Granted :
      (hour_bucket day_bucket : Text) (hour_count day_count hourly_cap daily_cap : ℕ) (w0 w : World)
      {granted : Bool}
      → hour_bucket ≢ day_bucket
      → count_at p laws w0 hour_bucket ≡ ok hour_count
      → count_at p laws w0 day_bucket ≡ ok day_count
      → hour_count < hourly_cap
      → day_count < daily_cap
      → hourly_cap < 2 ^ 64
      → daily_cap < 2 ^ 64
      → rows w ≡ rows w0
      → (reserve p hour_bucket day_bucket hour_count day_count w).0 ≡ ok granted
      → Outcome granted hour_bucket day_bucket hourly_cap daily_cap w0
          (reserve p hour_bucket day_bucket hour_count day_count w).1
  unfolding reserve Outcome
  reserve-Granted hour_bucket day_bucket hour_count day_count hourly_cap daily_cap w0 w {granted} ne
        hb db hf df hc dc same_rows h =
      let (_, r1, same, h1) = >>=-eq-ok (rate_increment p hour_bucket hour_count) _ w h in
      let (_, r2, same2, done) = >>=-eq-ok (rate_increment p day_bucket day_count) _ _ h1 in
      let w1 = (rate_increment p hour_bucket hour_count w).1 in
      let took : Granted hour_bucket day_bucket hourly_cap daily_cap w0
          (rate_increment p day_bucket day_count w1).1 =
        record {
          reserved = record {
            hour_count = hour_count;
            day_count = day_count;
            hour_before = hb;
            day_before = db;
            hour_free = hf;
            day_free = df;
            after = λ b.
                after_both b (count_at p laws w0 b)
                  (ground (arith, ne, text_eq_sound hour_bucket b, text_eq_sound day_bucket b))
                  (rw (← same_rows)
                    (count_at-rate_increment p laws hour_bucket b hour_count w r1 (omega arith)))
                  (count_at-rate_increment p laws day_bucket b day_count w1 r2 (omega arith));
          };
          other_spaces = λ sp ne.
              rate_increment-other_spaces p laws day_bucket day_count w1 sp r2 ne
              ∙ rate_increment-other_spaces p laws hour_bucket hour_count w sp r1 ne
              ∙ ap (λ r. r sp) same_rows;
        } in
      let granted_lem : true ≡ granted = ground arith in rw (same, same2, ← granted_lem) took
    where
      after_both :
          (b : Text) (x : Result Error ℕ) {y z : Result Error ℕ}
          → ¬ ((text_eq hour_bucket b ≡ true) × (text_eq day_bucket b ≡ true))
          → y ≡ (if text_eq hour_bucket b then ok (hour_count + 1) else x)
          → z ≡ (if text_eq day_bucket b then ok (day_count + 1) else y)
          → z ≡ (
              if text_eq hour_bucket b
              then ok (hour_count + 1)
              else if text_eq day_bucket b
              then ok (day_count + 1)
              else x)
      after_both b x apart first second = elim (Bool-cases (text_eq hour_bucket b)) [
        | inl h ↦ elim (Bool-cases (text_eq day_bucket b)) [
          | inl d ↦ absurd (apart (h, d))
          | inr d ↦ rw (second, d, first, h) refl
        ]
        | inr h ↦ rw (second, first, h) refl
      ]

  settle :
      (hour_bucket day_bucket : Text) (hour_count day_count hourly_cap daily_cap : ℕ) (w0 w : World)
      {granted : Bool} (full : Bool)
      → hour_bucket ≢ day_bucket
      → count_at p laws w0 hour_bucket ≡ ok hour_count
      → count_at p laws w0 day_bucket ≡ ok day_count
      → full ≡ (leb hourly_cap hour_count || leb daily_cap day_count)
      → hourly_cap < 2 ^ 64
      → daily_cap < 2 ^ 64
      → rows w ≡ rows w0
      → let step =
          if full then pure false else reserve p hour_bucket day_bucket hour_count day_count in
        (step w).0 ≡ ok granted
        → Outcome granted hour_bucket day_bucket hourly_cap daily_cap w0 (step w).1
  unfolding Outcome
  settle hour_bucket day_bucket hour_count day_count hourly_cap daily_cap w0 w {granted} true ne hb
        db at_cap hc dc same_rows h =
      let refused : false ≡ granted = ground arith in
      rw (← refused) (record {
        hour_count = hour_count;
        day_count = day_count;
        hour_before = hb;
        day_before = db;
        reached = ground arith;
        same_rows = same_rows;
      })
  settle hour_bucket day_bucket hour_count day_count hourly_cap daily_cap w0 w {granted} false ne hb
        db at_cap hc dc same_rows h =
      reserve-Granted hour_bucket day_bucket hour_count day_count hourly_cap daily_cap w0 w ne hb db
        (ground arith) (ground arith) hc dc same_rows h

  -- With different buckets and caps below 2 ^ 64, a reservation that is granted found both counts
  -- below their caps, left both one higher, and changed no other count and no other keyspace. One
  -- that is refused found a count at or above its cap, and changed no row.
  pub try_reserve_send_slot-caps :
      (hour_bucket day_bucket : Text) (hourly_cap daily_cap : ℕ) (w : World) {granted : Bool}
      → hour_bucket ≢ day_bucket
      → hourly_cap < 2 ^ 64
      → daily_cap < 2 ^ 64
      → (try_reserve_send_slot p hour_bucket day_bucket hourly_cap daily_cap w).0 ≡ ok granted
      → Outcome granted hour_bucket day_bucket hourly_cap daily_cap w
          (try_reserve_send_slot p hour_bucket day_bucket hourly_cap daily_cap w).1
  unfolding try_reserve_send_slot
  try_reserve_send_slot-caps hour_bucket day_bucket hourly_cap daily_cap w ne hc dc h =
      let (hour_count, got_hour, same1, h1) = >>=-eq-ok (rate_get p hour_bucket) _ w h in
      let w1 = (rate_get p hour_bucket w).1 in
      let (day_count, got_day, same2, h2) = >>=-eq-ok (rate_get p day_bucket) _ w1 h1 in
      let kept : rows (rate_get p day_bucket w1).1 ≡ rows w =
        rate_get-rows p laws day_bucket w1 ∙ rate_get-rows p laws hour_bucket w in
      let hour_before = rate_get-count_at p laws hour_bucket w got_hour in
      let day_before : count_at p laws w day_bucket ≡ ok day_count =
        ap (λ r. count_of p day_bucket (r rate_limits day_bucket))
          (sym (rate_get-rows p laws hour_bucket w))
        ∙ rate_get-count_at p laws day_bucket w1 got_day in
      rw (same1, same2)
        (settle hour_bucket day_bucket hour_count day_count hourly_cap daily_cap w
          (rate_get p day_bucket w1).1 _ ne hour_before day_before refl hc dc kept h2)
