-- ===== src/Store/Scans/Active.antt =====
-- The list of active subscribers of src/store/subscriber.rs.
use epistole.Prelude.{
  ◌≡◌, refl, ap, ◌∙◌, inl, inr, Bool, false, if◌then◌else◌, Option, none, some, List, [], ◌∷◌, map,
  Text, Result, ok, err, Result-cases, Bool-cases,
}
use mathlib.Core.Path.{fun_ext}
use epistole.Prelude.Keys.{
  has, Ascending, keys_of, lookup, passes, select, select-All, select-Ascending, has-select,
  map-lookup-cons, lookup-first, IsBefore,
}
use epistole.Platform.{Platform, PlatformLaws, subscribers}
use epistole.Records.{Subscriber, active, state_eq}
use epistole.Store.Subscribers.{decode_row}
use epistole.Store.Subscribers.Laws.{subscriber_at, decode_row-good}
use epistole.Store.Scans.{active_rows, active_subscribers}

module _ (p : Platform) where
  open p use {Time, subscriber_json}

  -- Whether a row is there, can be read, and is active.
  abbrev pub is_active : Result Text (Option (Subscriber Time)) → Bool
  is_active (ok (some s)) = state_eq s.state active
  is_active _ = false

  abbrev active_value : Text → Bool
  active_value v = is_active (decode_row p (some v))

  passes-is_active : (o : Option Text) → passes active_value o ≡ is_active (decode_row p o)
  unfolding decode_row
  passes-is_active none = refl
  passes-is_active (some v) = refl

  active_rows-cons :
      (k v : Text) (rows : List (Result Text (Text × Text))) {s : Subscriber Time}
      {rest : List (Subscriber Time)}
      → subscriber_json.from_slice v ≡ ok s
      → active_rows p rows ≡ ok rest
      → active_rows p (ok (k, v) ∷ rows) ≡ ok (if state_eq s.state active then s ∷ rest else rest)
  unfolding active_rows
  active_rows-cons k v rows {s} good listed = elim (Bool-cases (state_eq s.state active)) [
    | inl now_active ↦ rw (active_rows, good, listed, now_active) refl
    | inr inactive ↦ rw (active_rows, good, listed, inactive) refl
  ]

  -- What the selected keys of some entries hold.
  abbrev selected :
      List (Text × Text) → List (Text × Text) → List (Result Text (Option (Subscriber Time)))
  selected entries among = map (λ k. decode_row p (lookup k entries)) (select active_value among)

  selected-cons :
      (k v : Text) (entries : List (Text × Text)) {s : Subscriber Time}
      (rest : List (Subscriber Time))
      → decode_row p (some v) ≡ ok (some s)
      → Ascending (keys_of ((k, v) ∷ entries))
      → selected entries entries ≡ map (λ s. ok (some s)) rest
      → selected ((k, v) ∷ entries) ((k, v) ∷ entries)
        ≡ map (λ s. ok (some s)) (if state_eq s.state active then s ∷ rest else rest)
  selected-cons k v entries {s} rest good (first, later) found =
      let rest_same =
        map-lookup-cons (decode_row p) k v entries (select active_value entries)
          (select-All active_value (IsBefore k) entries first) in
      elim (Bool-cases (state_eq s.state active)) [
        | inl now_active ↦
            rw (good, now_active, lookup-first k v entries, good, rest_same, found) refl
        | inr inactive ↦ rw (good, inactive, rest_same, found) refl
      ]

  -- A scan that succeeds met no error, and what it lists is what the selected keys hold.
  active_rows-select :
      (rows : List (Result Text (Text × Text))) {out : List (Subscriber Time)}
      → active_rows p rows ≡ ok out
      → (entries : List (Text × Text)) × (rows ≡ map ok entries)
        × (Ascending (keys_of entries) → selected entries entries ≡ map (λ s. ok (some s)) out)
  unfolding active_rows
  active_rows-select [] {out} h = let same : [] ≡ out = cc in ([], refl, λ a. rw (← same) refl)
  active_rows-select (err e ∷ rows) h = cc
  active_rows-select (ok (k, v) ∷ rows) {out} h =
      elim (Result-cases (subscriber_json.from_slice v)) [
        | inr (e, bad) ↦ cc (rw (active_rows, bad) at h)
        | inl (s, good) ↦ elim (Result-cases (active_rows p rows)) [
          | inr (e, bad) ↦ cc (rw (active_rows, good, bad) at h)
          | inl (rest, listed) ↦
              let (entries, same, found) = active_rows-select rows listed in
              let end : (if state_eq s.state active then s ∷ rest else rest) ≡ out =
                cc (h, active_rows-cons k v rows good listed) in
              (
                (k, v) ∷ entries,
                rw same refl,
                λ ascending. rw (← end) (
                    selected-cons k v entries rest (decode_row-good p v good) ascending
                      (found ascending.1)),
              )
        ]
      ]

  -- `keys` are the keys of the active rows, and `out` is what they hold.
  pub record IsActiveList (at : Text → Result Text (Option (Subscriber Time))) (keys : List Text)
      (out : List (Subscriber Time)) : Type 0 where
    pub ascending : Ascending keys
    pub has_active : (k : Text) → has keys k ≡ is_active (at k)
    pub holds : map at keys ≡ map (λ s. ok (some s)) out

module _ (p : Platform) (laws : PlatformLaws p) where
  open p use {World, Time}

  -- The active subscribers, if they can be listed, are the subscribers of exactly the keys whose
  -- row is active, each once and in ascending order of their keys.
  pub active_subscribers-IsActiveList :
      (w : World) {out : List (Subscriber Time)}
      → (active_subscribers p w).0 ≡ ok out
      → (keys : List Text) × IsActiveList p (subscriber_at p laws w) keys out
  unfolding active_subscribers
  active_subscribers-IsActiveList w {out} h =
      let (entries, same, found) = active_rows-select p (p.iter subscribers w).0 h in
      let listing = laws.iter-IsListing subscribers w entries same in
      let select_k = λ (k : Text). has-select (active_value p) k entries listing.ascending in
      (
        select (active_value p) entries,
        record {
          ascending = select-Ascending (active_value p) entries listing.ascending;
          has_active =
              λ k. rw (listing.row_at k) (select_k k ∙ passes-is_active p (lookup k entries));
          holds =
              ap (λ at. map at (select (active_value p) entries))
                (fun_ext λ k. ap (decode_row p) (listing.row_at k))
              ∙ found listing.ascending;
        },
      )
