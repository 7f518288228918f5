-- ===== src/Store/Scans/Answers.antt =====
-- The list of active subscribers of src/store/subscriber.rs, with a database whose calls succeed.
use epistole.Prelude.{
  ◌≡◌, refl, inl, inr, Option, none, some, List, [], ◌∷◌, map, Text, text_eq, text_eq_sound, ok,
  Result-cases, Bool-cases,
}
use epistole.Prelude.Effects.{Returns}
use epistole.Prelude.Keys.{Ascending, keys_of, lookup, lookup-first, lookup_of_before}
use epistole.Platform.{Platform, PlatformLaws, subscribers}
use epistole.Platform.Available.{Available}
use epistole.Records.{Subscriber, active, state_eq}
use epistole.Store.Subscribers.{decode_row}
use epistole.Store.Subscribers.Answers.{IsReadable}
use epistole.Store.Scans.{active_rows, active_subscribers}

module _ (p : Platform) where
  open p use {Time, subscriber_json}

  -- Every key of some entries has a value that decodes.
  abbrev AllDecode : List (Text × Text) → Type 0
  AllDecode entries =
      (k : Text) → (o : Option (Subscriber Time)) × (decode_row p (lookup k entries) ≡ ok o)

  decoded_value :
      (v : Text) {o : Option (Subscriber Time)}
      → decode_row p (some v) ≡ ok o
      → (s : Subscriber Time) × (subscriber_json.from_slice v ≡ ok s)
  unfolding decode_row
  decoded_value v {o} h = elim (Result-cases (subscriber_json.from_slice v)) [
    | inl (s, good) ↦ (s, good)
    | inr (e, bad) ↦ cc (rw (decode_row, bad) at h)
  ]

  AllDecode-later :
      (k v : Text) (entries : List (Text × Text))
      → Ascending (keys_of ((k, v) ∷ entries))
      → AllDecode ((k, v) ∷ entries)
      → AllDecode entries
  unfolding decode_row lookup
  AllDecode-later k v entries (first, later) all j = elim (Bool-cases (text_eq k j)) [
    | inl here ↦
        let e = text_eq_sound k j here in
        rw (lookup_of_before j entries (rw (← e) first)) (none, refl)
    | inr other ↦ let (o, found) = all j in (o, rw other at found)
  ]

  active_rows-Returns :
      (entries : List (Text × Text))
      → Ascending (keys_of entries)
      → AllDecode entries
      → (out : List (Subscriber Time)) × (active_rows p (map ok entries) ≡ ok out)
  unfolding active_rows
  active_rows-Returns [] ascending all = ([], refl)
  active_rows-Returns ((k, v) ∷ entries) ascending all =
      let (o, found) = all k in
      let (s, good) = decoded_value v (rw (lookup-first k v entries) at found) in
      let (out, listed) =
        active_rows-Returns entries ascending.1 (AllDecode-later k v entries ascending all) in
      elim (Bool-cases (state_eq s.state active)) [
        | inl now_active ↦ (s ∷ out, rw (active_rows, good, listed, now_active) refl)
        | inr inactive ↦ (out, rw (active_rows, good, listed, inactive) refl)
      ]

module _ (p : Platform) (laws : PlatformLaws p) (available : Available p) where
  open p use {World}

  -- Where every subscriber row decodes, the active subscribers can be listed.
  pub active_subscribers-Returns :
      (w : World) → IsReadable p laws w → Returns (active_subscribers p) w
  unfolding active_subscribers
  active_subscribers-Returns w readable =
      let (entries, scanned) = available.iter-total subscribers w in
      let listing = laws.iter-IsListing subscribers w entries scanned in
      let (out, listed) =
        active_rows-Returns p entries listing.ascending
          λ k. let (o, found) = readable.at k in (o, rw (listing.row_at k) at found) in
      (out, rw scanned listed)
