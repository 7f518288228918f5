-- ===== src/Handlers/Send/Totals.antt =====
-- The counters of the reply of `POST /send`.
use epistole.Prelude.{ℕ, ◌+◌, ◌^◌, ◌<◌, ◌≡◌, [], ◌∷◌, List, length, ok, arith}
use epistole.Prelude.Effects.{>>=-eq-ok}
use epistole.Crypto.{Crypto}
use epistole.Config.{Config}
use epistole.Platform.{Platform}
use epistole.Records.{Subscriber, Send}
use epistole.Handlers.Send.{Tally, count, fan_out}
use epistole.Handlers.Send.Compose.{hour_bucket, day_bucket}
use epistole.Handlers.Send.Deliver.{
  RecipientOutcome, sent, failed, already_delivered, deferred_by_cap, deliver_to_recipient,
}

-- How many recipients a tally accounts for.
abbrev pub total : Tally → ℕ
total t = t.sent + t.failed + t.already_delivered + t.deferred_by_cap

pub total-count :
    (outcome : RecipientOutcome) (t : Tally)
    → total t + 1 < 2 ^ 64
    → total (count outcome t) ≡ total t + 1
unfolding count
total-count sent t h = omega arith
total-count failed t h = omega arith
total-count already_delivered t h = omega arith
total-count deferred_by_cap t h = omega arith

module _ (p : Platform) (crypto : Crypto) (config : Config) where
  open p use {World, Time, Ulid}

  -- A fan-out that ends without an error counts every active subscriber once: the counters grow in
  -- total by their number, if the total stays below 2 ^ 64.
  pub total-fan_out :
      (send_rec : Send Ulid Time) (now : Time) (active : List (Subscriber Time)) (t : Tally)
      (w : World) {after : Tally}
      → total t + length active < 2 ^ 64
      → (fan_out p crypto config send_rec now active t w).0 ≡ ok after
      → total after ≡ total t + length active
  unfolding fan_out
  total-fan_out send_rec now [] t w {after} bound h =
      let same : t ≡ after = cc in rw (← same) (omega arith)
  total-fan_out send_rec now (s ∷ rest) t w {after} bound h =
      let (outcome, _, _, h1) =
        >>=-eq-ok
          (deliver_to_recipient p crypto config send_rec s (hour_bucket p now) (day_bucket p now)
            now)
          _ w h in
      let one = total-count outcome t (ground arith) in
      let others = total-fan_out send_rec now rest (count outcome t) _ (ground (arith, one)) h1 in
      ground (arith, one, others)
