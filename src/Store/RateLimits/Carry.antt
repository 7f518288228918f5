-- ===== src/Store/RateLimits/Carry.antt =====
-- Outcomes of a reservation carry over to worlds with the same rows.
use epistole.Prelude.{ℕ, ◌≡◌, ap, ◌∙◌, Bool, true, false, Text}
use epistole.Platform.{Platform, PlatformLaws, rate_limits}
use epistole.Store.RateLimits.{count_of}
use epistole.Store.RateLimits.Caps.{Reserved, Outcome}

module _ (p : Platform) (laws : PlatformLaws p) where
  open p use {World}
  open laws use {rows}

  -- Only the counts matter to an outcome.
  pub Outcome-counts :
      (granted : Bool) (hour_bucket day_bucket : Text) (hourly_cap daily_cap : ℕ) (w v w' : World)
      → rows v ≡ rows w
      → Outcome p laws granted hour_bucket day_bucket hourly_cap daily_cap v w'
      → Outcome p laws granted hour_bucket day_bucket hourly_cap daily_cap w w'
  unfolding Outcome
  Outcome-counts true hour_bucket day_bucket hourly_cap daily_cap w v w' same h = record {
    reserved = record {
      hour_count = h.reserved.hour_count;
      day_count = h.reserved.day_count;
      hour_before = rw (← same) h.reserved.hour_before;
      day_before = rw (← same) h.reserved.day_before;
      hour_free = h.reserved.hour_free;
      day_free = h.reserved.day_free;
      after = λ b. rw (← same) (h.reserved.after b);
    };
    other_spaces = λ sp ne. rw (← same) (h.other_spaces sp ne);
  }
  Outcome-counts false hour_bucket day_bucket hourly_cap daily_cap w v w' same h = record {
    hour_count = h.hour_count;
    day_count = h.day_count;
    hour_before = rw (← same) h.hour_before;
    day_before = rw (← same) h.day_before;
    reached = h.reached;
    same_rows = h.same_rows ∙ same;
  }

  -- The counts outlast a write to another keyspace.
  pub Reserved-after :
      {hour_bucket day_bucket : Text} {hourly_cap daily_cap : ℕ} {w v w' : World}
      → rows w' rate_limits ≡ rows v rate_limits
      → Reserved p laws hour_bucket day_bucket hourly_cap daily_cap w v
      → Reserved p laws hour_bucket day_bucket hourly_cap daily_cap w w'
  Reserved-after same h = record {
    hour_count = h.hour_count;
    day_count = h.day_count;
    hour_before = h.hour_before;
    day_before = h.day_before;
    hour_free = h.hour_free;
    day_free = h.day_free;
    after = λ b. ap (λ r. count_of p b (r b)) same ∙ h.after b;
  }
