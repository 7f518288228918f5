-- ===== src/Handlers/Send/Buckets.antt =====
-- The buckets of `hour_bucket` and `day_bucket` of src/handlers/send.rs.
use epistole.Prelude.{
  ℕ, zero, suc, ◌+◌, ◌-◌, ◌≤◌, ◌≡◌, ◌≢◌, refl, sym, ap, ◌∙◌, ◌++◌, [], ◌∷◌, Text, length, arith,
  append_assoc,
}
use epistole.Prelude.Decimal.{show_u64}
use epistole.Platform.{Platform}
use epistole.Handlers.Send.Compose.{zeros, padded, padded_year, day_bucket, hour_bucket}

length_append : (s t : Text) → length (s ++ t) ≡ length s + length t
length_append [] t = omega arith
length_append (c ∷ s) t = ground (arith, length_append s t)

length-zeros : (n : ℕ) → length (zeros n) ≡ n
length-zeros zero = refl
length-zeros (suc n) = ground (arith, length-zeros n)

length-padded : (width n : ℕ) → width ≤ length (padded width n)
unfolding padded
length-padded width n = ground (
  arith,
  length_append (zeros (width - length (show_u64 n))) (show_u64 n),
  length-zeros (width - length (show_u64 n)),
)

module _ (p : Platform) where
  open p use {Time, calendar}

  hour_bucket-day_bucket :
      (t : Time) → hour_bucket p t ≡ day_bucket p t ++ padded 2 (calendar t).hour
  unfolding hour_bucket day_bucket padded padded_year
  hour_bucket-day_bucket t =
      let year = padded_year (calendar t).year in
      let month = padded 2 (calendar t).month in
      let day = padded 2 (calendar t).day in
      let hour = padded 2 (calendar t).hour in
      rw (append_assoc year (month ++ day) hour, append_assoc month day hour) refl

  -- The hour and the day never share a bucket.
  pub hour_bucket-ne-day_bucket : (t : Time) → hour_bucket p t ≢ day_bucket p t
  hour_bucket-ne-day_bucket t e = ground (
    arith,
    ap length (sym (hour_bucket-day_bucket t) ∙ e),
    length_append (day_bucket p t) (padded 2 (calendar t).hour),
    length-padded 2 (calendar t).hour,
  )
