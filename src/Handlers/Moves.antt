-- ===== src/Handlers/Moves.antt =====
-- How the rows of the store show the consent of each address, and what it means that a handler moves
-- one address by one event.
use epistole.Prelude.{
  ◌≡◌, ◌≢◌, refl, sym, ap, ◌∙◌, if◌then◌else◌, some, Option, Text, text_eq, text_eq_sound,
  to_ascii_lowercase, Result, ok, err, arith, Bool-cases, inl, inr,
}
use epistole.Consent.{Consent, Event, step, consent_of}
use epistole.Platform.{Platform, PlatformLaws, Space, subscribers}
use epistole.Records.{Subscriber}
use epistole.Store.Subscribers.Laws
use epistole.Store.Subscribers.{decode_row, subscriber_put}
use epistole.Store.Subscribers.Laws.{Wrote, subscriber_put-Wrote}
use epistole.Prelude.Effects.{pure, ◌>>◌, >>=-eq-ok}
use epistole.Handlers.Pages.{Page}

abbrev pub consent_of_row :
    {Time : Type 0} → Result Text (Option (Subscriber Time)) → Result Text Consent
consent_of_row (ok o) = ok (consent_of o)
consent_of_row (err e) = err e

module _ (p : Platform) (laws : PlatformLaws p) where
  open p use {World, Time}
  open laws use {rows}

  abbrev subscriber_at : World → Text → Result Text (Option (Subscriber Time))
  subscriber_at = Laws.subscriber_at p laws

  -- The consent of the address with a lowercased email.
  abbrev pub consent_at : World → Text → Result Text Consent
  consent_at w k = consent_of_row (Laws.subscriber_at p laws w k)

  -- Every subscriber row stands under the lowercased email that it holds.
  pub record IsKeyed (w : World) : Type 0 where
    pub at :
        (k : Text) (s : Subscriber Time)
        → Laws.subscriber_at p laws w k ≡ ok (some s)
        → to_ascii_lowercase s.email ≡ k

  -- The address `k` takes the step of the event `e` from `before`; no other address and no other keyspace changes.
  pub record Moves (k : Text) (e : Event) (before : Consent) (w w' : World) : Type 0 where
    pub known : consent_at w k ≡ ok before
    pub after :
        (j : Text) → consent_at w' j ≡ (if text_eq k j then ok (step before e) else consent_at w j)
    pub other_spaces : (s : Space) → s ≢ subscribers → rows w' s ≡ rows w s

  pub IsKeyed-Wrote :
      (s : Subscriber Time) {w w' : World} → Wrote p laws s w w' → IsKeyed w → IsKeyed w'
  IsKeyed-Wrote s h v = record {
    at = λ k u found.
        ground
          (arith, h.subscriber_at_key k, text_eq_sound (to_ascii_lowercase s.email) k, v.at k u);
  }

  pub Moves-Wrote :
      (s : Subscriber Time) (o : Option (Subscriber Time)) (k : Text) (e : Event) {w w' : World}
      → Wrote p laws s w w'
      → subscriber_at w k ≡ ok o
      → to_ascii_lowercase s.email ≡ k
      → consent_of (some s) ≡ step (consent_of o) e
      → Moves k e (consent_of o) w w'
  Moves-Wrote s o k e h found same moved = record {
    known = ap consent_of_row found;
    after = λ j. rw (h.subscriber_at_key j, same) (ground arith);
    other_spaces = h.other_spaces;
  }

  -- Nothing was written, and the event leaves the consent as it is.
  pub Moves-same :
      (o : Option (Subscriber Time)) (k : Text) (e : Event) {w : World}
      → subscriber_at w k ≡ ok o
      → consent_of o ≡ step (consent_of o) e
      → Moves k e (consent_of o) w w
  Moves-same o k e found still = record {
    known = ap consent_of_row found;
    after = λ j. ground (arith, text_eq_sound k j);
    other_spaces = λ s ne. refl;
  }

  -- A handler's arm that writes `s` and renders `page`.
  pub put-pure :
      (s : Subscriber Time) (page : Page) (w : World) {shown : Page}
      → ((subscriber_put p s >> pure page) w).0 ≡ ok shown
      → Wrote p laws s w ((subscriber_put p s >> pure page) w).1 × (shown ≡ page)
  put-pure s page w h =
      let (_, put, same, shown) = >>=-eq-ok (subscriber_put p s) (λ _. pure page) w h in
      rw same (subscriber_put-Wrote p laws s w put, ground arith)

  -- Only the rows count.
  pub IsKeyed-rows : {w v : World} → rows v ≡ rows w → IsKeyed w → IsKeyed v
  IsKeyed-rows same h = record {
    at = λ k s found. h.at k s (ap (λ r. decode_row p (r subscribers k)) (sym same) ∙ found);
  }

  pub Moves-rows :
      {k : Text} {e : Event} {before : Consent} {w v w' : World}
      → rows v ≡ rows w
      → Moves k e before v w'
      → Moves k e before w w'
  Moves-rows same h = record {
    known = rw (← same) h.known;
    after = λ j. rw (← same) (h.after j);
    other_spaces = λ s ne. rw (← same) (h.other_spaces s ne);
  }

  pub consent_at-rows : {w v : World} (k : Text) → rows v ≡ rows w → consent_at v k ≡ consent_at w k
  consent_at-rows k same = ap (λ r. consent_of_row (decode_row p (r subscribers k))) same

  -- Only the address that moves changes.
  pub Moves-changed :
      {j : Text} {e : Event} {before : Consent} {w w' : World} (k : Text)
      → Moves j e before w w'
      → consent_at w' k ≢ consent_at w k
      → j ≡ k
  Moves-changed {j} k h changed = elim (Bool-cases (text_eq j k)) [
    | inl same ↦ text_eq_sound j k same
    | inr other ↦ absurd (changed (h.after k ∙ rw other))
  ]
