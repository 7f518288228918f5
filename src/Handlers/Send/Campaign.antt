-- ===== src/Handlers/Send/Campaign.antt =====
-- The loop of `post` of src/handlers/send.rs over all active subscribers.
use epistole.Prelude.{
  ℕ, ◌+◌, ◌^◌, ◌≤◌, ◌<◌, ◌≡◌, ◌≢◌, refl, sym, ap, ◌∙◌, ◌⊎◌, inl, List, [], ◌∷◌, All, All-map,
  length, Text, ok, arith,
}
use epistole.Prelude.Effects.{>>=-eq-ok}
use epistole.Crypto.{Crypto}
use epistole.Config.{Config}
use epistole.Platform.{Platform, PlatformLaws}
use epistole.Records.{Subscriber, Send}
use epistole.Store.RateLimits.Counts.{count_at}
use epistole.Store.Sends.{delivery_key}
use epistole.Handlers.Send.{Tally, count, fan_out}
use epistole.Handlers.Send.Compose.{hour_bucket, day_bucket}
use epistole.Handlers.Send.Buckets.{hour_bucket-ne-day_bucket}
use epistole.Handlers.Send.Deliver.{RecipientOutcome, deliver_to_recipient}
use epistole.Handlers.Send.Deliver
use epistole.Handlers.Send.Once.{deliver_to_recipient-Effect}
use epistole.Handlers.Send.Progress.{IsRecorded, Counted, Progress, Effect-Progress, slots}
use epistole.Handlers.Send.Totals.{total, total-count}

-- The attempts that a tally accounts for.
abbrev pub attempts : Tally → ℕ
attempts t = t.sent + t.failed

attempts-count :
    (outcome : RecipientOutcome) (t : Tally)
    → total t + 1 < 2 ^ 64
    → attempts (count outcome t) ≡ attempts t + slots outcome
unfolding count
attempts-count Deliver.sent t h = omega arith
attempts-count Deliver.failed t h = omega arith
attempts-count Deliver.already_delivered t h = omega arith
attempts-count Deliver.deferred_by_cap t h = omega arith

-- A deferral shows in the tally.
deferred-count :
    (outcome : RecipientOutcome) (t : Tally)
    → total t + 1 < 2 ^ 64
    → (t.deferred_by_cap ≤ (count outcome t).deferred_by_cap)
      × ((count outcome t).deferred_by_cap ≤ t.deferred_by_cap → outcome ≢ Deliver.deferred_by_cap)
unfolding count
deferred-count Deliver.sent t h = (omega arith, λ same e. cc)
deferred-count Deliver.failed t h = (omega arith, λ same e. cc)
deferred-count Deliver.already_delivered t h = (omega arith, λ same e. cc)
deferred-count Deliver.deferred_by_cap t h = (omega arith, λ same. absurd (omega arith))

module _ (p : Platform) (laws : PlatformLaws p) (crypto : Crypto) (config : Config) where
  open p use {World, Time, Ulid}
  open laws use {rows, outbox}

  module _ (send_rec : Send Ulid Time) (now : Time) where
    abbrev pub HasDelivery : World → Subscriber Time → Type 0
    HasDelivery w s = IsRecorded p laws crypto config w (delivery_key p send_rec.id s.email)

    -- The count of a bucket grows by the attempts, and never beyond its cap.
    abbrev pub Grown : Text → ℕ → Tally → Tally → World → World → Type 0
    Grown bucket cap t after w w' =
        (n : ℕ)
        → count_at p laws w bucket ≡ ok n
        → (m : ℕ) × (count_at p laws w' bucket ≡ ok m)
          × (m + attempts t ≡ n + attempts after)
          × ((m ≡ n) ⊎ (m ≤ cap))

    -- What a fan-out leaves.
    pub record Fanned (active : List (Subscriber Time)) (t after : Tally) (w w' : World)
        : Type 0 where
      pub stays :
          (k : Text) → IsRecorded p laws crypto config w k → IsRecorded p laws crypto config w' k
      pub more_deferred : t.deferred_by_cap ≤ after.deferred_by_cap
      pub covered : after.deferred_by_cap ≤ t.deferred_by_cap → All (HasDelivery w') active
      pub hour_grown : Grown (hour_bucket p now) config.send_cap_per_hour t after w w'
      pub day_grown : Grown (day_bucket p now) config.send_cap_per_day t after w w'

    abbrev Stepped : Subscriber Time → RecipientOutcome → World → World → Type 0
    Stepped s = Progress p laws crypto config send_rec s (hour_bucket p now) (day_bucket p now)

    -- A recipient with a row of the ledger is skipped.
    known_skips :
        (s : Subscriber Time) (outcome : RecipientOutcome) (w v : World)
        → Stepped s outcome w v
        → HasDelivery w s
        → outcome ≡ Deliver.already_delivered
    known_skips s Deliver.already_delivered w v one known = refl
    known_skips s Deliver.sent w v one (d, found) = let new = one.fresh (λ e. cc) in cc
    known_skips s Deliver.failed w v one (d, found) = let new = one.fresh (λ e. cc) in cc
    known_skips s Deliver.deferred_by_cap w v one (d, found) = let new = one.fresh (λ e. cc) in cc

    Grown-cons :
        (bucket : Text) (cap : ℕ) (s : Subscriber Time) (outcome : RecipientOutcome)
        (t after : Tally) (w v w' : World)
        → total t + 1 < 2 ^ 64
        → Counted p laws crypto config send_rec s
            (hour_bucket p now)
            (day_bucket p now)
            bucket
            cap
            outcome
            w
            v
        → Grown bucket cap (count outcome t) after v w'
        → Grown bucket cap t after w w'
    Grown-cons bucket cap s outcome t after w v w' bound one rest n found =
        let (counted, free) = one n found in
        let (m, known, sum, limit) = rest (n + slots outcome) counted in
        let tallied = attempts-count outcome t bound in (m, known, omega arith, ground arith)

    Fanned-cons :
        (s : Subscriber Time) (rest : List (Subscriber Time)) (outcome : RecipientOutcome)
        (t after : Tally) (w v w' : World)
        → total t + 1 < 2 ^ 64
        → Stepped s outcome w v
        → Fanned rest (count outcome t) after v w'
        → Fanned (s ∷ rest) t after w w'
    Fanned-cons s rest outcome t after w v w' bound one others =
        let (more, deferred) = deferred-count outcome t bound in
        let later = others.more_deferred in
        record {
          stays = λ k known. others.stays k (one.stays k known);
          more_deferred = omega arith;
          covered = λ none_deferred. (
            others.stays _ (one.recorded (deferred (omega arith))),
            others.covered (omega arith),
          );
          hour_grown =
              Grown-cons (hour_bucket p now) config.send_cap_per_hour s outcome t after w v w' bound
                one.hour_counted others.hour_grown;
          day_grown =
              Grown-cons (day_bucket p now) config.send_cap_per_day s outcome t after w v w' bound
                one.day_counted others.day_grown;
        }

    module _ (hourly : config.send_cap_per_hour < 2 ^ 64)
        (daily : config.send_cap_per_day < 2 ^ 64) where
      deliver_to_recipient-Stepped :
          (s : Subscriber Time) (w : World) (outcome : RecipientOutcome)
          → (deliver_to_recipient p crypto config send_rec s
              (hour_bucket p now)
              (day_bucket p now)
              now
              w).0
            ≡ ok outcome
          → Stepped s outcome w
              (deliver_to_recipient p crypto config send_rec s
                (hour_bucket p now)
                (day_bucket p now)
                now
                w).1
      deliver_to_recipient-Stepped s w outcome h =
          let ne = hour_bucket-ne-day_bucket p now in
          Effect-Progress p laws crypto config send_rec s (hour_bucket p now) (day_bucket p now)
            outcome w _ ne
            (deliver_to_recipient-Effect p laws crypto config send_rec s (hour_bucket p now)
              (day_bucket p now) now w outcome ne hourly daily h)

      -- With caps below 2 ^ 64 and fewer than 2 ^ 64 subscribers in the tally and the list, a
      -- fan-out that ends without an error keeps every row of the ledger. The counts of its hour
      -- and of its day grow by the number of its attempts, and one that grows stays within its cap.
      -- If the tally of deferred recipients does not grow, every subscriber of the list has a row
      -- in the ledger.
      pub fan_out-Fanned :
          (active : List (Subscriber Time)) (t : Tally) (w : World) (after : Tally)
          → total t + length active < 2 ^ 64
          → (fan_out p crypto config send_rec now active t w).0 ≡ ok after
          → Fanned active t after w (fan_out p crypto config send_rec now active t w).1
      unfolding fan_out
      fan_out-Fanned [] t w after bound h =
          let same : t ≡ after = cc in
          rw (← same) (record {
            stays = λ k known. known;
            more_deferred = omega arith;
            covered = λ x. tt;
            hour_grown = λ n found. (n, found, refl, inl refl);
            day_grown = λ n found. (n, found, refl, inl refl);
          })
      fan_out-Fanned (s ∷ rest) t w after bound h =
          let (outcome, delivered, same, h1) =
            >>=-eq-ok
              (deliver_to_recipient p crypto config send_rec s (hour_bucket p now)
                (day_bucket p now) now)
              _ w h in
          let one = total-count outcome t (omega arith) in
          rw same (
            Fanned-cons s rest outcome t after w _ _ (omega arith)
              (deliver_to_recipient-Stepped s w outcome delivered)
              (fan_out-Fanned rest (count outcome t) _ after (omega arith) h1))

      -- With caps below 2 ^ 64, a fan-out over subscribers that all have a row in the ledger
      -- changes no row if it ends without an error, sends no message and counts no attempt.
      pub fan_out-again :
          (active : List (Subscriber Time)) (t : Tally) (w : World) (after : Tally)
          → All (HasDelivery w) active
          → (fan_out p crypto config send_rec now active t w).0 ≡ ok after
          → (rows (fan_out p crypto config send_rec now active t w).1 ≡ rows w)
            × (outbox (fan_out p crypto config send_rec now active t w).1 ≡ outbox w)
            × (attempts after ≡ attempts t)
      unfolding fan_out count
      fan_out-again [] t w after known h =
          let same : t ≡ after = cc in (refl, refl, ap attempts (sym same))
      fan_out-again (s ∷ rest) t w after (known, others) h =
          let (outcome, delivered, same, h1) =
            >>=-eq-ok
              (deliver_to_recipient p crypto config send_rec s (hour_bucket p now)
                (day_bucket p now) now)
              _ w h in
          let one = deliver_to_recipient-Stepped s w outcome delivered in
          let skipped = known_skips s outcome w _ one known in
          let (same_rows, same_outbox) = one.skipped skipped in
          let (rows_lem, outbox_lem, attempts_lem) =
            fan_out-again rest (count outcome t) _ after (All-map (λ r. one.stays _) rest others)
              h1 in
          let idle : attempts (count outcome t) ≡ attempts t = rw (skipped, count) refl in
          rw same (rows_lem ∙ same_rows, outbox_lem ∙ same_outbox, attempts_lem ∙ idle)
