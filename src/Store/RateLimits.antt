-- ===== src/Store/RateLimits.antt =====
-- src/store/rate_limit.rs: reservations against the hourly and daily caps. The lock that the code
-- holds makes each reservation one step, so it has no part here.
pub mod Counts
pub mod Caps
pub mod Silent
pub mod Carry
pub mod Answers
use epistole.Prelude.{
  ℕ, ◌+◌, ◌^◌, ◌%◌, ◌++◌, none, some, Option, Bool, true, false, ◌||◌, if◌then◌else◌, leb, Text,
  text, Result, ok, err, ok_or,
}
use epistole.Prelude.Effects.{Exec, call, pure, lift, ◌>>=◌, ◌>>◌}
use epistole.Prelude.Decimal.{show_u64, parse_u64}
use epistole.Prelude.Utf8.{is_utf8}
use epistole.Error.{Error, store}
use epistole.Platform.{Platform, rate_limits}

module _ (p : Platform) where
  open p use {World, get, insert, utf8_error, parse_int_error}

  -- The count that a row holds; no row counts 0.
  unfoldable pub count_of : Text → Option Text → Result Error ℕ
  count_of bucket none = ok 0
  count_of bucket (some bytes) =
      if is_utf8 bytes
      then ok_or (parse_u64 bytes)
          (store (text "rate bucket " ++ bucket ++ text " is not a u64: " ++ parse_int_error bytes))
      else err (store (text "rate bucket " ++ bucket ++ text " is not utf8: " ++ utf8_error bytes))

  unfoldable pub rate_get : Text → Exec World Error ℕ
  rate_get bucket = do
    raw ← call (get rate_limits bucket) (λ e. store (text "rate_get " ++ bucket ++ text ": " ++ e))
    lift (count_of bucket raw)

  -- `rate_limits.insert(bucket, (count + 1).to_string())`
  unfoldable pub rate_increment : Text → ℕ → Exec World Error (Unit {0})
  rate_increment bucket count =
      call (insert rate_limits bucket (show_u64 ((count + 1) % 2 ^ 64)))
        (λ e. store (text "rate increment " ++ bucket ++ text ": " ++ e))

  reserve : Text → Text → ℕ → ℕ → Exec World Error Bool
  reserve hour_bucket day_bucket hour_count day_count = do
    rate_increment hour_bucket hour_count
    rate_increment day_bucket day_count
    pure true

  unfoldable pub try_reserve_send_slot : Text → Text → ℕ → ℕ → Exec World Error Bool
  unfolding reserve
  try_reserve_send_slot hour_bucket day_bucket hourly_cap daily_cap = do
    hour_count ← rate_get hour_bucket
    day_count ← rate_get day_bucket
    if leb hourly_cap hour_count || leb daily_cap day_count
        then pure false
        else reserve hour_bucket day_bucket hour_count day_count
