-- ===== src/Handlers/Send/Progress.antt =====
-- What one call of `deliver_to_recipient` of src/handlers/send.rs does to the ledger and to the
-- counts, whatever its outcome.
use epistole.Prelude.{
  ℕ, ◌+◌, ◌≤◌, ◌≡◌, ◌≢◌, refl, ap, ◌∙◌, inl, inr, none, some, false, Text, text_eq, text_eq_sound,
  text_eq_refl, ok, arith, Bool-cases,
}
use epistole.Crypto.{Crypto}
use epistole.Config.{Config}
use epistole.Platform.{Platform, PlatformLaws, deliveries, rate_limits}
use epistole.Records.{Subscriber, Send, Delivery}
use epistole.Store.RateLimits.{count_of}
use epistole.Store.RateLimits.Counts.{count_at}
use epistole.Store.Sends.{decode_with, delivery_key}
use epistole.Store.Sends.Laws.{delivery_at}
use epistole.Handlers.Send.Deliver.{RecipientOutcome}
use epistole.Handlers.Send.Deliver
use epistole.Handlers.Send.Attempts.{Attempted}
use epistole.Handlers.Send.Once.{Effect}

pub text_eq_of_ne : (s t : Text) → s ≢ t → text_eq s t ≡ false
text_eq_of_ne s t ne = elim (Bool-cases (text_eq s t)) [
  | inl same ↦ absurd (ne (text_eq_sound s t same))
  | inr other ↦ other
]

-- How many slots an outcome takes.
abbrev pub slots : RecipientOutcome → ℕ
slots Deliver.sent = 1
slots Deliver.failed = 1
slots _ = 0

module _ (p : Platform) (laws : PlatformLaws p) (crypto : Crypto) (config : Config) where
  open p use {World, Time, Ulid}
  open laws use {rows, outbox}

  -- The ledger has a row at the key.
  abbrev pub IsRecorded : World → Text → Type 0
  IsRecorded w k = (d : Delivery Ulid Time) × (delivery_at p laws w k ≡ ok (some d))

  module _ (send_rec : Send Ulid Time) (s : Subscriber Time) (hour_bucket day_bucket : Text) where
    abbrev key : Text
    key = delivery_key p send_rec.id s.email

    -- A count that was `n` is higher by the slots that the outcome takes, and at most the cap if it
    -- takes one.
    abbrev pub Counted : Text → ℕ → RecipientOutcome → World → World → Type 0
    Counted bucket cap outcome w w' =
        (n : ℕ)
        → count_at p laws w bucket ≡ ok n
        → (count_at p laws w' bucket ≡ ok (n + slots outcome)) × (1 ≤ slots outcome → n + 1 ≤ cap)

    -- No row of the ledger is lost; the recipient has one unless it was deferred, and had none unless
    -- it is skipped; and a skipped recipient changes nothing.
    pub record Progress (outcome : RecipientOutcome) (w w' : World) : Type 0 where
      pub stays : (k : Text) → IsRecorded w k → IsRecorded w' k
      pub recorded : outcome ≢ Deliver.deferred_by_cap → IsRecorded w' key
      pub fresh : outcome ≢ Deliver.already_delivered → delivery_at p laws w key ≡ ok none
      pub skipped :
          outcome ≡ Deliver.already_delivered → (rows w' ≡ rows w) × (outbox w' ≡ outbox w)
      pub hour_counted : Counted hour_bucket config.send_cap_per_hour outcome w w'
      pub day_counted : Counted day_bucket config.send_cap_per_day outcome w w'

    same_rows-stays :
        (w w' : World) (k : Text) → rows w' ≡ rows w → IsRecorded w k → IsRecorded w' k
    same_rows-stays w w' k same (d, found) =
        (d, ap (λ r. decode_with p.delivery_json (r deliveries k)) same ∙ found)

    same_rows-Counted :
        (bucket : Text) (cap : ℕ) (outcome : RecipientOutcome) (w w' : World)
        → rows w' ≡ rows w
        → slots outcome ≡ 0
        → Counted bucket cap outcome w w'
    same_rows-Counted bucket cap outcome w w' same idle n found = (
      ap (λ r. count_of p bucket (r rate_limits bucket)) same ∙ found ∙ ap ok (omega arith),
      λ taken. omega arith,
    )

    Attempted-Progress :
        (outcome : RecipientOutcome) (w w' : World)
        → slots outcome ≡ 1
        → outcome ≢ Deliver.already_delivered
        → hour_bucket ≢ day_bucket
        → Attempted p laws crypto config send_rec s hour_bucket day_bucket outcome w w'
        → Progress outcome w w'
    Attempted-Progress outcome w w' one tried ne h = record {
      stays = λ k (d, found). elim (Bool-cases (text_eq key k)) [
        | inl same ↦ (h.delivery, h.recorded k ∙ rw same refl)
        | inr other ↦ (d, h.recorded k ∙ rw other found)
      ];
      recorded = λ x. (h.delivery, h.recorded key ∙ rw (text_eq_refl key) refl);
      fresh = λ x. h.unrecorded;
      skipped = λ e. absurd (tried e);
      hour_counted = λ n found.
          let same : n ≡ h.reserved.hour_count = cc (found, h.reserved.hour_before) in
          let free = h.reserved.hour_free in
          (
            h.reserved.after hour_bucket ∙ rw (text_eq_refl hour_bucket) (ap ok (omega arith)),
            λ taken. omega arith,
          );
      day_counted = λ n found.
          let same : n ≡ h.reserved.day_count = cc (found, h.reserved.day_before) in
          let free = h.reserved.day_free in
          (
            h.reserved.after day_bucket
                ∙ rw (text_eq_of_ne hour_bucket day_bucket ne, text_eq_refl day_bucket)
                    (ap ok (omega arith)),
            λ taken. omega arith,
          );
    }

    pub Effect-Progress :
        (outcome : RecipientOutcome) (w w' : World)
        → hour_bucket ≢ day_bucket
        → Effect p laws crypto config send_rec s hour_bucket day_bucket outcome w w'
        → Progress outcome w w'
    unfolding Effect
    Effect-Progress Deliver.sent w w' ne h =
        Attempted-Progress Deliver.sent w w' refl (λ e. cc) ne h
    Effect-Progress Deliver.failed w w' ne h =
        Attempted-Progress Deliver.failed w w' refl (λ e. cc) ne h
    Effect-Progress Deliver.already_delivered w w' ne h = record {
      stays = λ k. same_rows-stays w w' k h.same_rows;
      recorded = λ x. same_rows-stays w w' key h.same_rows (h.delivery, h.recorded);
      fresh = λ x. absurd (x refl);
      skipped = λ e. (h.same_rows, h.same_outbox);
      hour_counted =
          same_rows-Counted hour_bucket config.send_cap_per_hour Deliver.already_delivered w w'
            h.same_rows refl;
      day_counted =
          same_rows-Counted day_bucket config.send_cap_per_day Deliver.already_delivered w w'
            h.same_rows refl;
    }
    Effect-Progress Deliver.deferred_by_cap w w' ne h = record {
      stays = λ k. same_rows-stays w w' k h.refused.same_rows;
      recorded = λ x. absurd (x refl);
      fresh = λ x. h.unrecorded;
      skipped = λ e. cc;
      hour_counted =
          same_rows-Counted hour_bucket config.send_cap_per_hour Deliver.deferred_by_cap w w'
            h.refused.same_rows refl;
      day_counted =
          same_rows-Counted day_bucket config.send_cap_per_day Deliver.deferred_by_cap w w'
            h.refused.same_rows refl;
    }
