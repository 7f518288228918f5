-- ===== src/Store/RateLimits/Counts.antt =====
-- The counts of the buckets, and what a read and an increment do to them.
use epistole.Prelude.{
  ℕ, ◌+◌, ◌^◌, ◌%◌, ◌<◌, ◌≡◌, ◌≢◌, refl, sym, ap, ◌∙◌, inl, inr, some, if◌then◌else◌, Text, text_eq,
  Result, ok, arith, Bool-cases,
}
use epistole.Prelude.Effects.{call, >>=-eq-ok, map_err-eq-ok, Keeps, keeps_rules}
use epistole.Prelude.Decimal.{show_u64, parse_u64-show_u64, show_u64-IsAscii}
use epistole.Prelude.Utf8.{is_utf8_of_IsAscii}
use epistole.Error.{Error}
use epistole.Platform.{Platform, PlatformLaws, rate_limits, update, Space}
use epistole.Platform.Effects.{get-Keeps_rows}
use epistole.Store.RateLimits.{count_of, rate_get, rate_increment}

module _ (p : Platform) (laws : PlatformLaws p) where
  open p use {World}
  open laws use {rows}

  -- The count of a bucket, or why it cannot be read.
  abbrev pub count_at : World → Text → Result Error ℕ
  count_at w bucket = count_of p bucket (rows w rate_limits bucket)

  pub rate_get-Keeps : (bucket : Text) → Keeps rows (rate_get p bucket)
  unfolding rate_get
  rate_get-Keeps bucket = search (keeps_rules, get-Keeps_rows p laws)

  pub rate_get-count_at :
      (bucket : Text) (w : World) {n : ℕ}
      → (rate_get p bucket w).0 ≡ ok n
      → count_at w bucket ≡ ok n
  unfolding rate_get
  rate_get-count_at bucket w h =
      let (raw, got, same, counted) = >>=-eq-ok (call (p.get rate_limits bucket) _) _ w h in
      ap (count_of p bucket) (sym (laws.get-rows rate_limits bucket w (map_err-eq-ok _ _ got)))
      ∙ counted

  count_of-show :
      (bucket : Text) (n : ℕ) → n < 2 ^ 64 → count_of p bucket (some (show_u64 n)) ≡ ok n
  unfolding count_of
  count_of-show bucket n h =
      rw (is_utf8_of_IsAscii (show_u64 n) (show_u64-IsAscii n), parse_u64-show_u64 n h)

  -- A bucket that is incremented counts one more; the others count what they did.
  pub count_at-rate_increment :
      (bucket b : Text) (n : ℕ) (w : World)
      → (rate_increment p bucket n w).0 ≡ ok tt
      → n + 1 < 2 ^ 64
      → count_at (rate_increment p bucket n w).1 b
        ≡ (if text_eq bucket b then ok (n + 1) else count_at w b)
  unfolding rate_increment update
  count_at-rate_increment bucket b n w h bound =
      rw (laws.rows-insert rate_limits bucket (show_u64 ((n + 1) % 2 ^ 64)) w (map_err-eq-ok _ _ h))
        (elim (Bool-cases (text_eq bucket b)) [
          | inl same ↦ rw (same, mod_lem) (count_of-show b (n + 1) bound)
          | inr other ↦ rw other refl
        ])
    where
      mod_lem : (n + 1) % 18446744073709551616 ≡ n + 1
      mod_lem = omega arith

  pub rate_get-rows : (bucket : Text) (w : World) → rows (rate_get p bucket w).1 ≡ rows w
  rate_get-rows bucket w = (rate_get-Keeps bucket).at w

  -- An increment writes to no other keyspace.
  pub rate_increment-other_spaces :
      (bucket : Text) (n : ℕ) (w : World) (s : Space)
      → (rate_increment p bucket n w).0 ≡ ok tt
      → s ≢ rate_limits
      → rows (rate_increment p bucket n w).1 s ≡ rows w s
  unfolding rate_increment update
  rate_increment-other_spaces bucket n w s h ne =
      rw (laws.rows-insert rate_limits bucket (show_u64 ((n + 1) % 2 ^ 64)) w (map_err-eq-ok _ _ h))
        (ground (arith, ne))
