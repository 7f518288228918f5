-- ===== src/Handlers/Webhooks/Suppress.antt =====
-- `suppress_subscriber` of src/handlers/webhooks.rs implements the suppress event of a consent.
use epistole.Prelude.{
  ◌≡◌, refl, none, some, Option, Text, to_ascii_lowercase, ok, arith, Bool-cases, inl, inr,
}
use epistole.Prelude.Effects.{>>=-eq-ok}
use epistole.Consent.{Consent, step, consent_of}
use epistole.Consent
use epistole.Platform.{Platform, PlatformLaws}
use epistole.Records.{Subscriber, active, unsubscribed, state_eq}
use epistole.Store.Subscribers.{subscriber_get}
use epistole.Store.Subscribers.Laws.{subscriber_at, subscriber_get_lem, subscriber_put-Wrote}
use epistole.Handlers.Moves.{
  Moves, IsKeyed, IsKeyed-rows, Moves-rows, Moves-Wrote, Moves-same, IsKeyed-Wrote,
}
use epistole.Handlers.Unsubscribe.{next_generation}
use epistole.Handlers.Webhooks.{suppress_row, suppress_subscriber}

module _ (p : Platform) (laws : PlatformLaws p) where
  open p use {World, Time}
  open laws use {rows}

  suppress_row-Moves :
      (k : Text) (now : Time) (o : Option (Subscriber Time)) (w : World)
      → IsKeyed p laws w
      → subscriber_at p laws w k ≡ ok o
      → (suppress_row p now o w).0 ≡ ok tt
      → Moves p laws k Consent.suppress (consent_of o) w (suppress_row p now o w).1
        × IsKeyed p laws (suppress_row p now o w).1
  unfolding suppress_row consent_of step
  suppress_row-Moves k now none w v found h = (Moves-same p laws none _ _ found refl, v)
  suppress_row-Moves k now (some s) w v found h = elim (Bool-cases (state_eq s.state active)) [
    | inl on ↦
        let s' : Subscriber Time = record s {
          state = unsubscribed;
          unsubscribed_at = some now;
          generation = next_generation s.generation;
        } in
        let wrote = subscriber_put-Wrote p laws s' w (rw on at h) in
        rw on (
          Moves-Wrote p laws s' (some s) _ _ wrote found (v.at _ s found) (ground arith),
          IsKeyed-Wrote p laws s' wrote v,
        )
    | inr off ↦ rw off (Moves-same p laws (some s) _ _ found (ground arith), v)
  ]

  -- A suppression moves the address by the suppress event.
  pub suppress_subscriber-Moves :
      (email : Text) (now : Time) (w : World)
      → IsKeyed p laws w
      → (suppress_subscriber p email now w).0 ≡ ok tt
      → (before : Consent) × Moves p laws
          (to_ascii_lowercase email)
          Consent.suppress
          before
          w
          (suppress_subscriber p email now w).1
        × IsKeyed p laws (suppress_subscriber p email now w).1
  unfolding suppress_subscriber
  suppress_subscriber-Moves email now w v h =
      let (o, got, same, h1) = >>=-eq-ok (subscriber_get p email) _ w h in
      let (read, found) = subscriber_get_lem p laws email w got in
      let (moves, keyed) =
        suppress_row-Moves (to_ascii_lowercase email) now o (subscriber_get p email w).1
          (IsKeyed-rows p laws read v) found h1 in
      rw same (consent_of o, Moves-rows p laws read moves, keyed)
