-- ===== src/Consent.antt =====
-- The consent of one address, as src/handlers/confirm.rs, unsubscribe.rs and webhooks.rs describe it
-- in their comments: a state and a generation, moved by three kinds of event. It knows no store, no
-- tokens' text and no pages; the handlers are proved to implement it.
pub mod History
use epistole.Prelude.{ℕ, ◌+◌, ◌^◌, ◌%◌, if◌then◌else◌, ◌==◌, List, [], ◌∷◌, Option, none, some}
use epistole.Records.{Subscriber, SubscriberState, pending, active, unsubscribed}

pub data Consent : Type 0 where
  absent : Consent
  at : SubscriberState → ℕ → Consent

-- A confirm or unsubscribe token of a generation is redeemed, or the relay reports that the address
-- must not be written to any more.
pub data Event : Type 0 where
  confirm unsubscribe : ℕ → Event
  suppress : Event

-- `u64` addition.
abbrev pub successor : ℕ → ℕ
successor g = (g + 1) % 2 ^ 64

unfoldable pub step : Consent → Event → Consent
step absent (confirm g) = at active g
step (at active h) (confirm g) = at active h
step (at s h) (confirm g) = if h == g then at active h else at s h
step absent (unsubscribe g) = absent
step (at unsubscribed h) (unsubscribe g) = at unsubscribed h
step (at s h) (unsubscribe g) = if h == g then at unsubscribed (successor h) else at s h
step (at active h) suppress = at unsubscribed (successor h)
step c suppress = c

unfoldable pub run : Consent → List Event → Consent
unfolding step
run c [] = c
run c (e ∷ es) = run (step c e) es

-- What a stored row says of its address.
unfoldable pub consent_of : {Time : Type 0} → Option (Subscriber Time) → Consent
consent_of none = absent
consent_of (some s) = at s.state s.generation
