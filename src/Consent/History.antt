-- ===== src/Consent/History.antt =====
-- What a history of events can and cannot do to the consent of an address.
use epistole.Prelude.{ℕ, ◌+◌, ◌^◌, ◌≤◌, ◌<◌, ◌≡◌, ◌≢◌, ◌⊎◌, refl, List, [], ◌∷◌, All, length, arith}
use epistole.Records.{SubscriberState, pending, active, unsubscribed}
use epistole.Consent.{Consent, absent, at, Event, confirm, unsubscribe, suppress, step, run}

abbrev pub generation : Consent → ℕ
generation absent = 0
generation (at s h) = h

-- A confirm token that is not of generation `h`.
abbrev pub NotConfirming : ℕ → Event → Type 0
NotConfirming h (confirm g) = g ≢ h
NotConfirming h _ = Unit

-- An address that opted out at generation `h` stays opted out at `h` through any events, as long as
-- no confirm token of generation `h` itself is among them.
pub run-unsubscribed :
    (h : ℕ) (es : List Event)
    → All (NotConfirming h) es
    → run (at unsubscribed h) es ≡ at unsubscribed h
unfolding run
run-unsubscribed h [] k = refl
run-unsubscribed h (confirm g ∷ es) (n, k) = ground (arith, run-unsubscribed h es k)
run-unsubscribed h (unsubscribe g ∷ es) (n, k) = run-unsubscribed h es k
run-unsubscribed h (suppress ∷ es) (n, k) = run-unsubscribed h es k

-- A confirm token that was made at generation `g` or before.
abbrev pub MadeBy : ℕ → Event → Type 0
MadeBy g (confirm h) = h ≤ g
MadeBy g _ = Unit

NotConfirming-of_MadeBy :
    (g : ℕ) (es : List Event) → All (MadeBy g) es → All (NotConfirming (g + 1)) es
NotConfirming-of_MadeBy g [] k = tt
NotConfirming-of_MadeBy g (confirm h ∷ es) (m, k) = (omega arith, NotConfirming-of_MadeBy g es k)
NotConfirming-of_MadeBy g (unsubscribe h ∷ es) (m, k) = (tt, NotConfirming-of_MadeBy g es k)
NotConfirming-of_MadeBy g (suppress ∷ es) (m, k) = (tt, NotConfirming-of_MadeBy g es k)

step-opt_out :
    (g : ℕ) (out : Event)
    → (out ≡ unsubscribe g) ⊎ (out ≡ suppress)
    → g + 1 < 2 ^ 64
    → step (at active g) out ≡ at unsubscribed (g + 1)
unfolding step
step-opt_out g (confirm h) o bound = ground arith
step-opt_out g (unsubscribe h) o bound = ground arith
step-opt_out g suppress o bound = ground arith

-- No confirm token made before an opt-out undoes it: after an active address at generation `g` opts
-- out, by its own token or by a report of the relay, any events whose confirm tokens were made at
-- generation `g` or before leave it opted out, at generation `g + 1`.
pub opt_out_is_final :
    (g : ℕ) (out : Event) (es : List Event)
    → (out ≡ unsubscribe g) ⊎ (out ≡ suppress)
    → g + 1 < 2 ^ 64
    → All (MadeBy g) es
    → run (at active g) (out ∷ es) ≡ at unsubscribed (g + 1)
unfolding run
opt_out_is_final g out es o bound k =
    rw (step-opt_out g out o bound) (run-unsubscribed (g + 1) es (NotConfirming-of_MadeBy g es k))

-- An unsubscribe token that is not of generation `h`; no report of the relay.
abbrev pub NotLeaving : ℕ → Event → Type 0
NotLeaving h (unsubscribe g) = g ≢ h
NotLeaving h (confirm g) = Unit
NotLeaving h suppress = ⊥

-- An unsubscribe token of an earlier opt-in cycle cannot cancel a later one: an address that is
-- active at generation `h` stays so through any events that hold no report of the relay and no
-- unsubscribe token of generation `h`.
pub run-active :
    (h : ℕ) (es : List Event) → All (NotLeaving h) es → run (at active h) es ≡ at active h
unfolding run
run-active h [] k = refl
run-active h (confirm g ∷ es) (n, k) = run-active h es k
run-active h (unsubscribe g ∷ es) (n, k) = ground (arith, run-active h es k)
run-active h (suppress ∷ es) (n, k) = absurd n

-- Redeeming a token, or reporting an address, a second time in a row changes nothing.
pub step_idempotent :
    (c : Consent) (e : Event) → generation c < 2 ^ 64 → step (step c e) e ≡ step c e
unfolding step
step_idempotent absent (confirm g) b = refl
step_idempotent absent (unsubscribe g) b = refl
step_idempotent absent suppress b = refl
step_idempotent (at s h) e b = ground arith

abbrev state_of : Consent → SubscriberState
state_of absent = pending
state_of (at s h) = s

-- A known address stays known.
step-known :
    (s : SubscriberState) (h : ℕ) (e : Event)
    → step (at s h) e ≡ at (state_of (step (at s h) e)) (generation (step (at s h) e))
unfolding step
step-known s h e = ground arith

step-generation :
    (s : SubscriberState) (h : ℕ) (e : Event)
    → h + 1 < 2 ^ 64
    → (h ≤ generation (step (at s h) e)) × (generation (step (at s h) e) ≤ h + 1)
unfolding step
step-generation s h e b = ground arith

-- The generation of a known address never falls, and rises by at most one with each event, as long
-- as it does not reach the end of its 64 bits.
pub run-generation :
    (s : SubscriberState) (h : ℕ) (es : List Event)
    → h + length es < 2 ^ 64
    → (h ≤ generation (run (at s h) es)) × (generation (run (at s h) es) ≤ h + length es)
unfolding run
run-generation s h [] b = omega arith
run-generation s h (e ∷ es) b =
    let (low, high) = step-generation s h e (omega arith) in
    rw (step-known s h e) (
      omega (
        arith,
        run-generation (state_of (step (at s h) e)) (generation (step (at s h) e)) es (omega arith),
      ))
