-- ===== src/Store/Scans/Recent.antt =====
-- The newest sends of src/store/send.rs: the last keys of the keyspace, since a key begins with the
-- time of its identifier.
use epistole.Prelude.{
  ℕ, zero, suc, ◌≤◌, ◌≡◌, refl, sym, ap, ◌∙◌, inl, inr, true, false, Option, some, List, [], ◌∷◌,
  map, Text, length, Result, ok, Result-cases, All, arith,
}
use mathlib.Core.Path.{fun_ext}
use mathlib.Core.List.{reverse}
use epistole.Prelude.Effects.{map_err-eq-ok}
use epistole.Prelude.Keys.{
  has, IsBefore, Ascending, Descending, keys_of, lookup, lookup-first, lookup-later,
}
use epistole.Prelude.Newest.{
  take, take-All, reverse-All, map-take, map-reverse, length-take, reverse-Descending,
  take-Descending, has-reverse, take-drops,
}
use epistole.Platform.{Platform, IsListing}
use epistole.Records.{Send}
use epistole.Store.Sends.{decode_with}
use epistole.Store.Scans.{decode_send, collect}

-- An entry is the first of its key.
abbrev IsOwn : List (Text × Text) → Text × Text → Type 0
IsOwn entries e = lookup e.0 entries ≡ some e.1

entries-IsOwn :
    (entries : List (Text × Text)) → Ascending (keys_of entries) → All (IsOwn entries) entries
entries-IsOwn [] h = tt
entries-IsOwn ((k, v) ∷ entries) (first, h) =
    (lookup-first k v entries, later entries first (entries-IsOwn entries h))
  where
    later :
        (es : List (Text × Text))
        → All (IsBefore k) (keys_of es)
        → All (IsOwn entries) es
        → All (IsOwn ((k, v) ∷ entries)) es
    later [] b own = tt
    later ((j, x) ∷ es) (before, b) (o, own) =
        (lookup-later k v j entries before ∙ o, later es b own)

has-lookup :
    (k : Text) (entries : List (Text × Text)) (v : Text)
    → lookup k entries ≡ some v
    → has (keys_of entries) k ≡ true
unfolding lookup
has-lookup k [] v h = cc
has-lookup k ((j, x) ∷ entries) v h = ground (arith, has-lookup k entries v)

module _ (p : Platform) where
  open p use {Time, Ulid, send_json}

  -- `collect` of a row and more rows.
  collect-cons :
      (row : Result Text (Text × Text)) (rows : List (Result Text (Text × Text)))
      {out : List (Send Ulid Time)}
      → collect p (row ∷ rows) ≡ ok out
      → (s : Send Ulid Time) × (rest : List (Send Ulid Time)) × (decode_send p row ≡ ok s)
        × (collect p rows ≡ ok rest)
        × (out ≡ s ∷ rest)
  unfolding collect
  collect-cons row rows {out} h = elim (Result-cases (decode_send p row)) [
    | inr (e, bad) ↦ cc (rw (collect, bad) at h)
    | inl (s, good) ↦ elim (Result-cases (collect p rows)) [
      | inr (e, bad) ↦ cc (rw (collect, good, bad) at h)
      | inl (rest, collected) ↦ (s, rest, good, collected, cc (rw (collect, good, collected) at h))
    ]
  ]

  collect-decoded :
      (entries among : List (Text × Text)) {out : List (Send Ulid Time)}
      → All (IsOwn entries) among
      → collect p (map ok among) ≡ ok out
      → map (λ k. decode_with send_json (lookup k entries)) (keys_of among)
        ≡ map (λ s. ok (some s)) out
  unfolding collect decode_send decode_with
  collect-decoded entries [] {out} own h = let same : [] ≡ out = cc in rw (← same) refl
  collect-decoded entries ((k, v) ∷ among) {out} (o, own) h =
      let (s, rest, one, others, same) = collect-cons (ok (k, v)) (map ok among) h in
      let good = map_err-eq-ok (send_json.from_slice v) _ one in
      rw (same, o) (rw (decode_with, good, collect-decoded entries among own others) refl)

  -- `keys` are the last `limit` keys of a keyspace, the last one first, or all of them if it has
  -- fewer, and `out` is what they hold.
  pub record IsNewest (row : Text → Option Text) (limit : ℕ) (keys : List Text)
      (out : List (Send Ulid Time)) : Type 0 where
    pub descending : Descending keys
    pub holds : map (λ k. decode_with send_json (row k)) keys ≡ map (λ s. ok (some s)) out
    pub length_le : length keys ≤ limit
    pub unlisted :
        (k v : Text)
        → row k ≡ some v
        → has keys k ≡ false
        → (length keys ≡ limit) × All (IsBefore k) keys

  -- What `collect` makes of the last entries.
  pub collect-IsNewest :
      (row : Text → Option Text) (limit : ℕ) (entries : List (Text × Text))
      {out : List (Send Ulid Time)}
      → IsListing row entries
      → collect p (take limit (reverse (map ok entries))) ≡ ok out
      → (keys : List Text) × IsNewest row limit keys out
  collect-IsNewest row limit entries {out} listing h =
      let newest = take limit (reverse entries) in
      let keys_lem : keys_of newest ≡ take limit (reverse (keys_of entries)) =
        map-take (λ e. e.0) limit (reverse entries)
        ∙ ap (take limit) (map-reverse (λ e. e.0) entries) in
      let descending = reverse-Descending (keys_of entries) listing.ascending in
      let own =
        take-All (IsOwn entries) limit (reverse entries)
          (reverse-All (IsOwn entries) entries (entries-IsOwn entries listing.ascending)) in
      let read : collect p (map ok newest) ≡ ok out =
        ap (collect p)
          (map-take ok limit (reverse entries) ∙ ap (take limit) (map-reverse ok entries))
        ∙ h in
      (
        keys_of newest,
        record {
          descending = rw keys_lem (take-Descending limit _ descending);
          holds =
              ap (λ at. map at (keys_of newest))
                (fun_ext λ k. ap (decode_with send_json) (listing.row_at k))
              ∙ collect-decoded entries newest own read;
          length_le = rw keys_lem (length-take limit (reverse (keys_of entries)));
          unlisted = λ k v there gone. rw keys_lem (
              take-drops limit (reverse (keys_of entries)) k descending
                (has-reverse (keys_of entries) k
                  ∙ has-lookup k entries v (sym (listing.row_at k) ∙ there))
                (rw keys_lem at gone));
        },
      )

  -- `collect` reads a row for each send, in order.
  pub collect-length :
      (rows : List (Result Text (Text × Text))) {out : List (Send Ulid Time)}
      → collect p rows ≡ ok out
      → length out ≡ length rows
  unfolding collect
  collect-length [] {out} h = let same : [] ≡ out = cc in rw (← same) refl
  collect-length (row ∷ rows) {out} h =
      let (s, rest, one, others, same) = collect-cons row rows h in
      rw same (ap suc (collect-length rows others))

  pub collect-take :
      (n : ℕ) (rows : List (Result Text (Text × Text))) {out : List (Send Ulid Time)}
      → collect p rows ≡ ok out
      → collect p (take n rows) ≡ ok (take n out)
  unfolding collect
  collect-take zero rows h = refl
  collect-take (suc n) [] {out} h = let same : [] ≡ out = cc in rw (← same) refl
  collect-take (suc n) (row ∷ rows) {out} h =
      let (s, rest, one, others, same) = collect-cons row rows h in
      rw same (rw (collect, one, collect-take n rows others) refl)
