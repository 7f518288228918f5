-- ===== src/Handlers/Webhooks/Reports.antt =====
-- What `delivery_events` of src/handlers/webhooks.rs does with an event that it accepts.
use epistole.Prelude.{
  ℕ, ◌&&◌, ◌≡◌, refl, sym, ap, ◌∙◌, none, some, Option, Bool, true, false, if◌then◌else◌, Text,
  text_eq, text_eq_sound, to_ascii_lowercase, to_ascii_lowercase_idem, Result, ok, err, arith,
}
use epistole.Prelude.Trim.{trim}
use epistole.Prelude.Effects.{pure, >>=-eq-ok}
use epistole.Consent.{Consent, step, consent_of}
use epistole.Consent
use epistole.Platform.{Platform, PlatformLaws, subscribers, deliveries}
use epistole.Records.{
  Delivery, DeliveryStatus, bounced, complained, EventKind, bounce, complaint, EventBody,
}
use epistole.Store.Subscribers.{decode_row}
use epistole.Store.Sends.{delivery_key, delivery_get, decode_with}
use epistole.Store.Sends.Laws.{
  delivery_at, delivery_get-Keeps, delivery_get-delivery_at, Recorded, delivery_put-Recorded,
}
use epistole.Handlers.Moves.{IsKeyed, IsKeyed-rows, consent_at, consent_of_row}
use epistole.Handlers.Webhooks.{
  suppresses, status_of, suppress_subscriber, record_event, report_at, report,
}
use epistole.Handlers.Webhooks.Suppress.{suppress_subscriber-Moves}

-- What a suppression makes of a consent that can be read.
abbrev pub silenced : Result Text Consent → Result Text Consent
silenced (ok c) = ok (step c Consent.suppress)
silenced (err e) = err e

-- Which reports end a consent: each complaint, whatever its `hard` says, and a bounce that is hard.
abbrev pub ends_consent : EventKind → Bool → Bool
ends_consent complaint false = true
ends_consent complaint true = true
ends_consent bounce true = true
ends_consent bounce false = false

-- The status that a report leaves in the ledger.
abbrev pub reported_status : EventKind → DeliveryStatus
reported_status bounce = bounced
reported_status complaint = complained

suppresses-ends_consent :
    (kind : EventKind) (hard : Bool) → suppresses kind hard ≡ ends_consent kind hard
suppresses-ends_consent bounce true = refl
suppresses-ends_consent bounce false = refl
suppresses-ends_consent complaint true = refl
suppresses-ends_consent complaint false = refl

status_of-reported_status : (kind : EventKind) → status_of kind ≡ reported_status kind
status_of-reported_status bounce = refl
status_of-reported_status complaint = refl

module _ (p : Platform) (laws : PlatformLaws p) where
  open p use {World, Time, Ulid, now_utc}
  open laws use {rows}

  -- Every delivery stands under the key of its own send and address.
  pub record IsFiled (w : World) : Type 0 where
    pub at :
        (k : Text) (d : Delivery Ulid Time)
        → delivery_at p laws w k ≡ ok (some d)
        → delivery_key p d.send_id d.email ≡ k

  -- The whole effect of an event on the ledger and on the consents: the delivery that it names was
  -- there and takes the status of the event, and the address that it names is suppressed if the
  -- event is a complaint or a hard bounce. No other delivery and no other address changes.
  pub record Reported (body : EventBody Ulid) (now : Time) (w w' : World) : Type 0 where
    pub delivery : Delivery Ulid Time
    pub found :
        delivery_at p laws w (delivery_key p body.send_id (to_ascii_lowercase (trim body.email)))
        ≡ ok (some delivery)
    pub ledger :
        (k : Text)
        → delivery_at p laws w' k ≡ (
            if text_eq (delivery_key p body.send_id (to_ascii_lowercase (trim body.email))) k
            then ok (some (record delivery { status = reported_status body.kind; at = now }))
            else delivery_at p laws w k)
    pub consents :
        (j : Text)
        → consent_at p laws w' j ≡ (
            if ends_consent body.kind body.hard && text_eq (to_ascii_lowercase (trim body.email)) j
            then silenced (consent_at p laws w j)
            else consent_at p laws w j)
    pub keyed : IsKeyed p laws w'

  pub IsKeyed-subscribers :
      {w v : World} → rows v subscribers ≡ rows w subscribers → IsKeyed p laws w → IsKeyed p laws v
  IsKeyed-subscribers same h = record {
    at = λ k s found. h.at k s (ap (λ r. decode_row p (r k)) (sym same) ∙ found);
  }

  pub IsFiled-rows : {w v : World} → rows v ≡ rows w → IsFiled w → IsFiled v
  IsFiled-rows same h = record {
    at = λ k d found.
        h.at k d (ap (λ r. decode_with p.delivery_json (r deliveries k)) (sym same) ∙ found);
  }

  Reported-rows :
      {body : EventBody Ulid} {now : Time} {w v w' : World}
      → rows v ≡ rows w
      → Reported body now v w'
      → Reported body now w w'
  Reported-rows same h = record {
    delivery = h.delivery;
    found = rw (← same) h.found;
    ledger = λ k. rw (← same) (h.ledger k);
    consents = λ j. rw (← same) (h.consents j);
    keyed = h.keyed;
  }

  record Settled (on : Bool) (email : Text) (w w' : World) : Type 0 where
    consents :
        (j : Text)
        → consent_at p laws w' j ≡ (
            if on && text_eq email j
            then silenced (consent_at p laws w j)
            else consent_at p laws w j)
    ledger : rows w' deliveries ≡ rows w deliveries
    keyed : IsKeyed p laws w'

  suppress-Settled :
      (on : Bool) (email : Text) (now : Time) (w : World)
      → to_ascii_lowercase email ≡ email
      → IsKeyed p laws w
      → let step = if on then suppress_subscriber p email now else pure tt in
        (step w).0 ≡ ok tt → Settled on email w (step w).1
  suppress-Settled false email now w low v h = record {
    consents = λ j. refl;
    ledger = refl;
    keyed = v;
  }
  suppress-Settled true email now w low v h =
      let (before, moves, keyed) = suppress_subscriber-Moves p laws email now w v h in
      record {
        consents = λ j. ground (arith, low, moves.known, moves.after j, text_eq_sound email j);
        ledger = moves.other_spaces deliveries (λ e. cc);
        keyed = keyed;
      }

  record_event-Recorded :
      (body : EventBody Ulid) (now : Time) (o : Option (Delivery Ulid Time)) (w : World)
      → (record_event p body now o w).0 ≡ ok tt
      → (d : Delivery Ulid Time) × (o ≡ some d)
        × Recorded p laws
            (record d { status = status_of body.kind; at = now })
            w
            (record_event p body now o w).1
  unfolding record_event
  record_event-Recorded body now none w h = cc
  record_event-Recorded body now (some d) w h = (
    d,
    refl,
    delivery_put-Recorded p laws (record d { status = status_of body.kind; at = now }) w h,
  )

  report_at-Reported :
      (body : EventBody Ulid) (now : Time) (w : World) (code : ℕ)
      → IsKeyed p laws w
      → IsFiled w
      → (report_at p body now w).0 ≡ ok code
      → Reported body now w (report_at p body now w).1
  unfolding report_at
  report_at-Reported body now w code v filed h =
      let email = to_ascii_lowercase (trim body.email) in
      let k = delivery_key p body.send_id email in
      let (o, got, same, h1) = >>=-eq-ok (delivery_get p body.send_id email) _ w h in
      let w1 = (delivery_get p body.send_id email w).1 in
      let read = (delivery_get-Keeps p laws body.send_id email).at w in
      let found = delivery_get-delivery_at p laws body.send_id email w got in
      let (_, put, same2, h2) = >>=-eq-ok (record_event p body now o) _ w1 h1 in
      let w2 = (record_event p body now o w1).1 in
      let (d, there, recorded) = record_event-Recorded body now o w1 put in
      let (_, done, same3, _) =
        >>=-eq-ok
          (if suppresses body.kind body.hard then suppress_subscriber p email now else pure tt) _ w2
          h2 in
      let kept : rows w2 subscribers ≡ rows w subscribers =
        recorded.other_spaces subscribers (λ e. cc) ∙ ap (λ r. r subscribers) read in
      let settled =
        suppress-Settled (suppresses body.kind body.hard) email now w2
          (to_ascii_lowercase_idem (trim body.email)) (IsKeyed-subscribers kept v) done in
      let named = found ∙ ap ok there in
      rw (same, same2, same3)
        (record {
          delivery = d;
          found = named;
          ledger = λ i.
              ap (λ r. decode_with p.delivery_json (r i)) settled.ledger
              ∙ recorded.delivery_at_key i
              ∙ rw (filed.at k d named, read, status_of-reported_status body.kind) refl;
          consents = λ j. rw (← suppresses-ends_consent body.kind body.hard) (
              settled.consents j
              ∙ ap
                  (λ r.
                    let c = consent_of_row (decode_row p (r j)) in
                    if suppresses body.kind body.hard && text_eq email j then silenced c else c)
                  kept);
          keyed = settled.keyed;
        })

  -- In a world whose subscribers and deliveries stand under their own keys, an event of the relay
  -- that is accepted names a delivery of the ledger, which takes the time of the event and the
  -- status bounced for a bounce and complained for a complaint, while every other delivery stays as
  -- it was. If the event is a complaint, hard or not, or a hard bounce, the consent of its address
  -- moves by the suppress event; no other consent changes.
  pub report-Reported :
      (body : EventBody Ulid) (w : World) (code : ℕ)
      → IsKeyed p laws w
      → IsFiled w
      → (report p body w).0 ≡ ok code
      → Reported body (now_utc w).0 w (report p body w).1
  unfolding report
  report-Reported body w code v filed h = Reported-rows (laws.rows-now_utc w) (
      report_at-Reported body (now_utc w).0 (now_utc w).1 code
        (IsKeyed-rows p laws (laws.rows-now_utc w) v) (IsFiled-rows (laws.rows-now_utc w) filed) h)
