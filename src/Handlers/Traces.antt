-- ===== src/Handlers/Traces.antt =====
-- Sequences of requests to src/handlers/confirm.rs, unsubscribe.rs, webhooks.rs and send.rs, among requests
-- that change no row.
use epistole.Prelude.{
  ℕ, Option, ◌&&◌, ◌≡◌, refl, sym, ap, ◌∙◌, [], ◌∷◌, ◌++◌, List, All, if◌then◌else◌, some, Text,
  text_eq, text_eq_sound, to_ascii_lowercase, ok, arith, Bool-cases, inl, inr,
}
use epistole.Prelude.Trim.{trim}
use epistole.Crypto.{Crypto}
use epistole.Config.{Config}
use epistole.Consent.{Consent, Event, step, run, at}
use epistole.Consent
use epistole.Consent.History.{NotConfirming, run-unsubscribed}
use epistole.Platform.{Platform, PlatformLaws, deliveries}
use epistole.Records.{EventBody, unsubscribed}
use epistole.Token
use epistole.Token.{Token}
use epistole.Store.Sends.{decode_with, delivery_key}
use epistole.Handlers.Links.{verified}
use epistole.Handlers.Pages.{Rendered}
use epistole.Handlers.Moves.{
  Moves, IsKeyed, IsKeyed-rows, consent_at, consent_at-rows, consent_of_row,
}
use epistole.Handlers.Confirm
use epistole.Handlers.Confirm.Refines.{post-Confirms}
use epistole.Handlers.Unsubscribe
use epistole.Handlers.Unsubscribe.Refines.{post-Leaves}
use epistole.Handlers.Send
use epistole.Handlers.Send.{Reply}
use epistole.Handlers.Send.Filing.{post-Filing}
use epistole.Store.Subscribers.{decode_row}
use epistole.Handlers.Webhooks.{report}
use epistole.Handlers.Webhooks.Reports.{
  ends_consent, IsFiled, IsKeyed-subscribers, IsFiled-rows, Reported, report-Reported,
}

run-append : (c : Consent) (es fs : List Event) → run c (es ++ fs) ≡ run (run c es) fs
unfolding run
run-append c [] fs = refl
run-append c (e ∷ es) fs = run-append (step c e) es fs

module _ (p : Platform) (laws : PlatformLaws p) (crypto : Crypto) (config : Config) where
  open p use {World, Time, Ulid, now_utc}
  open laws use {rows}

  -- One request that succeeds.
  pub data Step (w : World) : World → Type 0 where
    confirmed :
        (raw : Text) (t : Token) (r : Rendered)
        → verified p crypto config Token.confirm raw (now_utc w).0 ≡ some t
        → (Confirm.post p crypto config raw w).0 ≡ ok r
        → Step w (Confirm.post p crypto config raw w).1
    left :
        (raw : Text) (t : Token) (r : Rendered)
        → verified p crypto config Token.unsubscribe raw (now_utc w).0 ≡ some t
        → (Unsubscribe.post p crypto config raw w).0 ≡ ok r
        → Step w (Unsubscribe.post p crypto config raw w).1
    reported :
        (body : EventBody Ulid) (code : ℕ)
        → (report p body w).0 ≡ ok code
        → Step w (report p body w).1
    sent :
        (authorization : Option Text) (request : p.Body) (reply : Reply Ulid)
        → (Send.post p crypto config authorization request w).0 ≡ ok reply
        → Step w (Send.post p crypto config authorization request w).1
    idle : (w' : World) → rows w' ≡ rows w → Step w w'

  -- What a request is to the consent of the address `k`.
  unfoldable pub event_of : {w w' : World} → Step w w' → Text → List Event
  event_of (confirmed raw t r _ _) k =
      if text_eq (to_ascii_lowercase t.email) k then Consent.confirm t.generation ∷ [] else []
  event_of (left raw t r _ _) k =
      if text_eq (to_ascii_lowercase t.email) k then Consent.unsubscribe t.generation ∷ [] else []
  event_of (reported body code _) k =
      if ends_consent body.kind body.hard && text_eq (to_ascii_lowercase (trim body.email)) k
      then Consent.suppress ∷ []
      else []
  event_of (sent authorization request reply _) k = []
  event_of (idle w' _) k = []

  moved :
      (k j : Text) (e : Event) {before c : Consent} {w w' : World}
      → Moves p laws k e before w w'
      → consent_at p laws w j ≡ ok c
      → consent_at p laws w' j ≡ ok (run c (if text_eq k j then e ∷ [] else []))
  unfolding run
  moved k j e h known = elim (Bool-cases (text_eq k j)) [
    | inl same ↦ ground (arith, h.known, h.after j, text_eq_sound k j same)
    | inr other ↦ rw other (h.after j ∙ rw other known)
  ]

  IsFiled-deliveries :
      {w w' : World} → rows w' deliveries ≡ rows w deliveries → IsFiled p laws w → IsFiled p laws w'
  IsFiled-deliveries same h = record {
    at = λ k d found. h.at k d (ap (λ r. decode_with p.delivery_json (r k)) (sym same) ∙ found);
  }

  Reported-moved :
      (body : EventBody Ulid) (j : Text) {now : Time} {c : Consent} {w w' : World}
      → Reported p laws body now w w'
      → consent_at p laws w j ≡ ok c
      → consent_at p laws w' j
        ≡ ok (
            run c (
              if ends_consent body.kind body.hard
                && text_eq (to_ascii_lowercase (trim body.email)) j
              then Consent.suppress ∷ []
              else []))
  unfolding run
  Reported-moved body j h known =
      elim (Bool-cases
        (ends_consent body.kind body.hard && text_eq (to_ascii_lowercase (trim body.email)) j)) [
          | inl hit ↦ rw hit (h.consents j ∙ rw (hit, known) refl)
          | inr miss ↦ rw miss (h.consents j ∙ rw (miss, known) refl)
        ]

  Reported-IsFiled :
      (body : EventBody Ulid) {now : Time} {w w' : World}
      → Reported p laws body now w w'
      → IsFiled p laws w
      → IsFiled p laws w'
  Reported-IsFiled body h v =
      let key = delivery_key p body.send_id (to_ascii_lowercase (trim body.email)) in
      record {
        at = λ i d found. elim (Bool-cases (text_eq key i)) [
          | inl same ↦ ground (arith, h.ledger i, v.at key h.delivery h.found, text_eq_sound key i)
          | inr other ↦ v.at i d (sym (h.ledger i ∙ rw other refl) ∙ found)
        ];
      }

  -- Subscribers and deliveries stand under their own keys.
  pub record IsSane (w : World) : Type 0 where
    pub keyed : IsKeyed p laws w
    pub filed : IsFiled p laws w

  pub record Stepped (k : Text) (c : Consent) (es : List Event) (w' : World) : Type 0 where
    pub consent : consent_at p laws w' k ≡ ok (run c es)
    pub sane : IsSane w'

  step-Stepped :
      {w w' : World} (s : Step w w') (k : Text) (c : Consent)
      → IsSane w
      → consent_at p laws w k ≡ ok c
      → Stepped k c (event_of s k) w'
  unfolding event_of run
  step-Stepped {w} (confirmed raw t r valid h) k c v known =
      let (_, done, _) = post-Confirms p laws crypto config raw w t r v.keyed valid h in
      record {
        consent = moved _ k _ done.moves known;
        sane = record {
          keyed = done.keyed;
          filed = IsFiled-deliveries (done.moves.other_spaces deliveries (λ e. cc)) v.filed;
        };
      }
  step-Stepped {w} (left raw t r valid h) k c v known =
      let (_, done, _) = post-Leaves p laws crypto config raw w t r v.keyed valid h in
      record {
        consent = moved _ k _ done.moves known;
        sane = record {
          keyed = done.keyed;
          filed = IsFiled-deliveries (done.moves.other_spaces deliveries (λ e. cc)) v.filed;
        };
      }
  step-Stepped {w} (reported body code h) k c v known =
      let done = report-Reported p laws body w code v.keyed v.filed h in
      record {
        consent = Reported-moved body k done known;
        sane = record { keyed = done.keyed; filed = Reported-IsFiled body done v.filed };
      }
  step-Stepped {w} (sent authorization request reply h) k c v known =
      let done = post-Filing p laws crypto config authorization request w h in
      record {
        consent = ap (λ r. consent_of_row (decode_row p (r k))) done.subscribers_same ∙ known;
        sane = record {
          keyed = IsKeyed-subscribers p laws done.subscribers_same v.keyed;
          filed = done.filed v.filed;
        };
      }
  step-Stepped (idle w' same) k c v known = record {
    consent = consent_at-rows p laws k same ∙ known;
    sane = record {
      keyed = IsKeyed-rows p laws same v.keyed;
      filed = IsFiled-rows p laws same v.filed;
    };
  }

  -- Requests one after another.
  pub data Trace (w : World) : World → Type 0 where
    start : Trace w w
    next : {v w' : World} → Trace w v → Step v w' → Trace w w'

  unfoldable pub events : {w w' : World} → Trace w w' → Text → List Event
  events start k = []
  events (next before s) k = events before k ++ event_of s k

  trace-Stepped :
      {w w' : World} (trace : Trace w w') (k : Text) (c : Consent)
      → IsSane w
      → consent_at p laws w k ≡ ok c
      → Stepped k c (events trace k) w'
  unfolding events run
  trace-Stepped start k c v known = record { consent = known; sane = v }
  trace-Stepped (next before s) k c v known =
      let earlier = trace-Stepped before k c v known in
      let last = step-Stepped s k (run c (events before k)) earlier.sane earlier.consent in
      record {
        consent = last.consent ∙ ap ok (sym (run-append c (events before k) (event_of s k)));
        sane = last.sane;
      }

  -- From a world whose subscribers and deliveries stand under their own keys, any sequence of
  -- requests that are answered without an error, each of them a confirmation, an unsubscription, a
  -- report of the relay, a newsletter send or a request that changes no row, leaves the consent of
  -- each address that can be read where the abstract consent goes through the events of those
  -- requests for that address: a confirm or unsubscribe event of the link's generation, and a
  -- suppress event for a complaint or a hard bounce. A confirm event of the generation of an
  -- unsubscribed address makes it active again.
  pub consent_at-trace :
      {w w' : World} (trace : Trace w w') (k : Text) (c : Consent)
      → IsSane w
      → consent_at p laws w k ≡ ok c
      → consent_at p laws w' k ≡ ok (run c (events trace k))
  consent_at-trace trace k c v known = (trace-Stepped trace k c v known).consent

  -- Opting out lasts until a link of the new generation takes it back. From a world whose
  -- subscribers and deliveries stand under their own keys, an address that is unsubscribed at
  -- generation h is so after any sequence of requests that are answered without an error, each of
  -- them a confirmation, an unsubscription, a report of the relay, a newsletter send or a request
  -- that changes no row, unless a confirm link of generation h itself for that address was used.
  pub opt_out-trace :
      {w w' : World} (trace : Trace w w') (k : Text) (h : ℕ)
      → IsSane w
      → consent_at p laws w k ≡ ok (at unsubscribed h)
      → All (NotConfirming h) (events trace k)
      → consent_at p laws w' k ≡ ok (at unsubscribed h)
  opt_out-trace trace k h v known stale =
      consent_at-trace trace k (at unsubscribed h) v known
      ∙ ap ok (run-unsubscribed h (events trace k) stale)
