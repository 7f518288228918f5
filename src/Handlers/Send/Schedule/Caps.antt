-- ===== src/Handlers/Send/Schedule/Caps.antt =====
-- The caps of src/handlers/send.rs while fan-outs and other requests run at once.
use epistole.Prelude.{
  ℕ, ◌+◌, ◌^◌, ◌≤◌, ◌<◌, ◌≡◌, ◌≢◌, refl, ◌∙◌, ap, ◌⊎◌, inl, [], ◌∷◌, ◌++◌, List, Text, ok, arith,
}
use epistole.Crypto.{Crypto}
use epistole.Config.{Config}
use epistole.Platform.{Platform, PlatformLaws, rate_limits}
use epistole.Records.{Subscriber, Send}
use epistole.Store.RateLimits.Counts.{count_at}
use epistole.Handlers.Send.{zeros}
use epistole.Handlers.Send.Schedule.{Pc, ready, Running, advance}
use epistole.Handlers.Send.Schedule.Counts.{
  Window, hourly, daily, other, bucket, cap, held_in, count_at-same, held_in-le, advance-Stepped,
}

module _ (p : Platform) (laws : PlatformLaws p) (crypto : Crypto) (config : Config) where
  open p use {World, Time, Ulid}
  open laws use {rows}

  abbrev Fan : Type 0
  Fan = Running p crypto config

  -- One step of the whole: a fan-out advances, a fan-out begins, or another request does something
  -- that writes no count.
  pub data Step (w : World) (fans : List Fan) : World → List Fan → Type 0 where
    advanced :
        (before after : List Fan) (r : Fan) (pc : Pc p crypto config)
        → fans ≡ before ++ (r ∷ after)
        → (advance p crypto config r.send_rec r.now r.pc w).0 ≡ ok pc
        → Step w fans
            (advance p crypto config r.send_rec r.now r.pc w).1
            (before ++ (record r { pc = pc } ∷ after))
    begun :
        (send_rec : Send Ulid Time) (now : Time) (active : List (Subscriber Time))
        → Step w fans w (record { send_rec = send_rec; now = now; pc = ready active zeros } ∷ fans)
    elsewhere : (w' : World) → rows w' rate_limits ≡ rows w rate_limits → Step w fans w' fans

  -- Steps one after another.
  pub data Trace (w : World) (fans : List Fan) : World → List Fan → Type 0 where
    start : Trace w fans w fans
    next :
        {v w' : World} {fans' fans'' : List Fan}
        → Trace w fans v fans'
        → Step v fans' w' fans''
        → Trace w fans w' fans''

  module _ (v : Window) (b : Text) where
    -- The slots of the bucket that are reserved and not used.
    unfoldable pub all_held : List Fan → ℕ
    all_held [] = 0
    all_held (r ∷ fans) = held_in p laws crypto config v b r.now r.pc + all_held fans

    -- The messages of the bucket that a step or a trace hands over.
    unfoldable pub hands_over :
        {w : World} {fans : List Fan} {w' : World} {fans' : List Fan} → Step w fans w' fans' → ℕ
    hands_over (advanced before after r pc _ _) = held_in p laws crypto config v b r.now r.pc
    hands_over (begun _ _ _) = 0
    hands_over (elsewhere _ _) = 0

    unfoldable pub handed_over :
        {w : World} {fans : List Fan} {w' : World} {fans' : List Fan} → Trace w fans w' fans' → ℕ
    handed_over start = 0
    handed_over (next trace step) = handed_over trace + hands_over step

    all_held-append :
        (fans fans' : List Fan) → all_held (fans ++ fans') ≡ all_held fans + all_held fans'
    unfolding all_held
    all_held-append [] fans' = omega arith
    all_held-append (r ∷ fans) fans' = let later = all_held-append fans fans' in omega arith

    -- What a trace leaves of a count that was `n`.
    pub record Within (n handed : ℕ) (fans : List Fan) (w' : World) : Type 0 where
      pub total : ℕ
      pub counted : count_at p laws w' b ≡ ok total
      pub accounted : total ≡ n + handed + all_held fans
      pub capped : (total ≡ n) ⊎ (total ≤ cap p laws crypto config v)

    module _ (hourly_bound : cap p laws crypto config hourly < 2 ^ 64)
        (daily_bound : cap p laws crypto config daily < 2 ^ 64)
        (apart : (now : Time) → bucket p laws crypto config (other v) now ≢ b) where
      step-Within :
          {w : World} {fans : List Fan} {w' : World} {fans' : List Fan}
          (step : Step w fans w' fans') (n handed : ℕ)
          → Within n handed fans w
          → Within n (handed + hands_over step) fans' w'
      unfolding hands_over all_held
      step-Within {w} (advanced before after r pc placed h) n handed h0 =
          let (counted, free) =
            advance-Stepped p laws crypto config hourly_bound daily_bound v b h0.total r.send_rec
              r.now r.pc pc w (apart r.now) h0.counted h in
          let sum = ap all_held placed ∙ all_held-append before (r ∷ after) in
          let sum' = all_held-append before (record r { pc = pc } ∷ after) in
          record {
            total = h0.total + held_in p laws crypto config v b r.now pc;
            counted = counted;
            accounted = omega (arith, h0.accounted);
            capped = ground (arith, held_in-le p laws crypto config v b r.now pc, h0.capped);
          }
      step-Within (begun send_rec now active) n handed h =
          let idle : held_in p laws crypto config v b now (ready active zeros) ≡ 0 = ground arith in
          record {
            total = h.total;
            counted = h.counted;
            accounted = omega (arith, h.accounted);
            capped = h.capped;
          }
      step-Within {w} (elsewhere w' same) n handed h = record {
        total = h.total;
        counted = count_at-same p laws crypto config w w' b same ∙ h.counted;
        accounted = omega (arith, h.accounted);
        capped = h.capped;
      }

      -- The caps hold while fan-outs and other requests run at once. From a world with no fan-out
      -- under way, in any order of steps of which none fails at writing a count, the count of a
      -- bucket has grown by the attempts of its fan-outs to hand over a message and by the slots
      -- that they hold, and if it has grown it is within its cap. The caps are below 2 ^ 64, and no
      -- time has the bucket as that of its other window.
      pub trace-Within :
          {w w' : World} {fans : List Fan} (trace : Trace w [] w' fans) (n : ℕ)
          → count_at p laws w b ≡ ok n
          → Within n (handed_over trace) fans w'
      unfolding handed_over all_held
      trace-Within start n counted = record {
        total = n;
        counted = counted;
        accounted = omega arith;
        capped = inl refl;
      }
      trace-Within (next trace step) n counted =
          step-Within step n (handed_over trace) (trace-Within trace n counted)
