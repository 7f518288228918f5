-- ===== src/Store/Scans/Purge.antt =====
-- The purge of src/store/subscriber.rs: pending rows that are too old go.
use epistole.Prelude.{
  ℕ, ◌≡◌, ◌≢◌, refl, sym, ap, ◌∙◌, inl, inr, Bool, true, false, ◌&&◌, if◌then◌else◌, ltb, lt→ltb,
  ◌<◌, Option, none, some, List, [], ◌∷◌, map, Text, length, Result, ok, err, Result-cases,
  Bool-cases, arith,
}
use mathlib.Core.Path.{fun_ext}
use epistole.Prelude.Keys.{has, Ascending, lookup, passes, select, select-Ascending, has-select}
use epistole.Prelude.Effects.{Exec, call, pure, ◌>>◌, >>=-eq-ok, map_err-eq-ok}
use epistole.Error.{Error}
use epistole.Platform.{
  Platform, PlatformLaws, Space, subscribers, sends, deliveries, rate_limits, delete, space_eq,
}
use epistole.Records.{Subscriber, pending, state_eq}
use epistole.Store.{persist_acknowledged}
use epistole.Store.Subscribers.{decode_row}
use epistole.Store.Subscribers.Laws.{subscriber_at, decode_row-good}
use epistole.Store.Scans.{expired_keys, remove_all, scan, purge_expired_pending}

module _ (p : Platform) where
  open p use {Time, subscriber_json}

  -- Whether a row is there, can be read, is pending, and is `max_age` old.
  abbrev pub is_expired : Time → ℕ → Result Text (Option (Subscriber Time)) → Bool
  is_expired now max_age (ok (some s)) =
      state_eq s.state pending && p.time_le (p.add_seconds s.created_at max_age) now
  is_expired now max_age _ = false

  abbrev expired_value : Time → ℕ → Text → Bool
  expired_value now max_age v = is_expired now max_age (decode_row p (some v))

  passes-is_expired :
      (now : Time) (max_age : ℕ) (o : Option Text)
      → passes (expired_value now max_age) o ≡ is_expired now max_age (decode_row p o)
  unfolding decode_row
  passes-is_expired now max_age none = refl
  passes-is_expired now max_age (some v) = refl

  expired_keys-cons :
      (now : Time) (max_age : ℕ) (k v : Text) (rows : List (Result Text (Text × Text)))
      {s : Subscriber Time} {rest : List Text}
      → subscriber_json.from_slice v ≡ ok s
      → expired_keys p now max_age rows ≡ ok rest
      → expired_keys p now max_age (ok (k, v) ∷ rows)
        ≡ ok (if expired_value now max_age v then k ∷ rest else rest)
  unfolding expired_keys
  expired_keys-cons now max_age k v rows {s} good found =
      rw (decode_row-good p v good) (elim (Bool-cases (is_expired now max_age (ok (some s)))) [
        | inl old ↦ rw (expired_keys, good, found, old) refl
        | inr young ↦ rw (expired_keys, good, found, young) refl
      ])

  -- A scan that succeeds met no error, and collects the keys whose rows are expired.
  expired_keys-select :
      (now : Time) (max_age : ℕ) (rows : List (Result Text (Text × Text))) {keys : List Text}
      → expired_keys p now max_age rows ≡ ok keys
      → (entries : List (Text × Text)) × (rows ≡ map ok entries)
        × (keys ≡ select (expired_value now max_age) entries)
  unfolding expired_keys
  expired_keys-select now max_age [] {keys} h = ([], refl, cc)
  expired_keys-select now max_age (err e ∷ rows) h = cc
  expired_keys-select now max_age (ok (k, v) ∷ rows) {keys} h =
      elim (Result-cases (subscriber_json.from_slice v)) [
        | inr (e, bad) ↦ cc (rw (expired_keys, bad) at h)
        | inl (s, good) ↦ elim (Result-cases (expired_keys p now max_age rows)) [
          | inr (e, bad) ↦ cc (rw (expired_keys, good, bad) at h)
          | inl (rest, found) ↦
              let (entries, same, selected) = expired_keys-select now max_age rows found in
              let end : (if expired_value now max_age v then k ∷ rest else rest) ≡ keys =
                cc (h, expired_keys-cons now max_age k v rows good found) in
              ((k, v) ∷ entries, rw same refl, rw (← end, selected) refl)
        ]
      ]

module _ (p : Platform) (laws : PlatformLaws p) where
  open p use {World, Time}
  open laws use {rows, durable}

  -- The rows without those of some subscribers.
  remove_all-rows :
      (keys : List Text) (w : World)
      → (remove_all p keys w).0 ≡ ok tt
      → (s : Space) (k : Text)
      → rows (remove_all p keys w).1 s k
        ≡ (if space_eq subscribers s && has keys k then none else rows w s k)
  unfolding remove_all delete
  remove_all-rows [] w h s k = ground arith
  remove_all-rows (key ∷ keys) w h s k =
      let (_, removed, same, others) = >>=-eq-ok (call (p.remove subscribers key) _) _ w h in
      let gone = laws.rows-remove subscribers key w (map_err-eq-ok _ _ removed) in
      let rest = remove_all-rows keys _ others s k in rw (same, rest, gone) (ground arith)

  -- The sync at the end.
  sync : Bool → Exec World Error (Unit {0})
  sync needed = if needed then persist_acknowledged p else pure tt

  sync-rows :
      (needed : Bool) (w : World)
      → (sync needed w).0 ≡ ok tt
      → (rows (sync needed w).1 ≡ rows w)
        × (needed ≡ true → durable (sync needed w).1 ≡ rows (sync needed w).1)
  unfolding sync persist_acknowledged
  sync-rows true w h =
      let same = laws.rows-persist w in
      (same, λ e. laws.durable-persist w (map_err-eq-ok _ _ h) ∙ sym same)
  sync-rows false w h = (refl, λ e. cc)

  -- What the purge does after its scan.
  finish : List Text → Exec World Error ℕ
  unfolding sync
  finish keys = remove_all p keys >> (sync (ltb 0 (length keys)) >> pure (length keys))

  finish-rows :
      (keys : List Text) (w : World) {n : ℕ}
      → (finish keys w).0 ≡ ok n
      → (n ≡ length keys)
        × ((s : Space) (k : Text)
            → rows (finish keys w).1 s k
              ≡ (if space_eq subscribers s && has keys k then none else rows w s k))
        × (0 < n → durable (finish keys w).1 ≡ rows (finish keys w).1)
  unfolding finish
  finish-rows keys w {n} h =
      let (_, removed, same, h1) = >>=-eq-ok (remove_all p keys) _ w h in
      let (_, synced, same1, h2) =
        >>=-eq-ok (sync (ltb 0 (length keys))) _ (remove_all p keys w).1 h1 in
      let (kept, on_disk) = sync-rows (ltb 0 (length keys)) (remove_all p keys w).1 synced in
      let counted : n ≡ length keys = cc in
      rw (same, same1)
        (
          counted,
          λ s k. ap (λ r. r s k) kept ∙ remove_all-rows keys w removed s k,
          λ some_gone. on_disk (lt→ltb 0 (length keys) (rw (← counted) some_gone)),
        )

  decode_if :
      (b : Bool) (o : Option Text)
      → decode_row p (if b then none else o) ≡ (if b then ok none else decode_row p o)
  unfolding decode_row
  decode_if true o = refl
  decode_if false o = refl

  not_subscribers : (s : Space) → s ≢ subscribers → space_eq subscribers s ≡ false
  not_subscribers subscribers h = absurd (h refl)
  not_subscribers sends h = refl
  not_subscribers deliveries h = refl
  not_subscribers rate_limits h = refl

  -- What a purge that deleted `n` rows leaves.
  pub record Purged (now : Time) (max_age n : ℕ) (w w' : World) : Type 0 where
    pub row :
        (k : Text)
        → subscriber_at p laws w' k ≡ (
            if is_expired p now max_age (subscriber_at p laws w k)
            then ok none
            else subscriber_at p laws w k)
    pub other_spaces : (s : Space) → s ≢ subscribers → rows w' s ≡ rows w s
    pub keys : List Text
    pub ascending : Ascending keys
    pub has_expired : (k : Text) → has keys k ≡ is_expired p now max_age (subscriber_at p laws w k)
    pub counted : n ≡ length keys
    pub durable_rows : 0 < n → durable w' ≡ rows w'

  -- A purge that returns a number removes exactly the rows that are pending and were created at
  -- least the given age before the given time: every other row and keyspace is as it was, the
  -- number is that of the removed keys, and unless it is 0 the rows that are left are on disk.
  pub purge_expired_pending-Purged :
      (now : Time) (max_age : ℕ) (w : World) {n : ℕ}
      → (purge_expired_pending p now max_age w).0 ≡ ok n
      → Purged now max_age n w (purge_expired_pending p now max_age w).1
  unfolding purge_expired_pending finish sync
  purge_expired_pending-Purged now max_age w {n} h =
      let (expired, found, same, h1) =
        >>=-eq-ok (scan p (expired_keys p now max_age) subscribers) _ w h in
      let (entries, listed, selected) =
        expired_keys-select p now max_age (p.iter subscribers w).0 found in
      let listing = laws.iter-IsListing subscribers w entries listed in
      let keys_lem = λ (k : Text).
        ap (λ keys. has keys k) selected
        ∙ has-select (expired_value p now max_age) k entries listing.ascending
        ∙ passes-is_expired p now max_age (lookup k entries)
        ∙ ap (λ o. is_expired p now max_age (decode_row p o)) (sym (listing.row_at k)) in
      let unread = laws.rows-iter subscribers w in
      let (counted, rows_after, on_disk) = finish-rows expired (p.iter subscribers w).1 h1 in
      rw same (record {
        row = λ k. rw (← keys_lem k) (
            ap (decode_row p) (rows_after subscribers k ∙ rw unread refl)
            ∙ decode_if (has expired k) (rows w subscribers k));
        other_spaces =
            λ s other. fun_ext λ k. rows_after s k ∙ rw (unread, not_subscribers s other) refl;
        keys = expired;
        ascending =
            rw selected (select-Ascending (expired_value p now max_age) entries listing.ascending);
        has_expired = keys_lem;
        counted = counted;
        durable_rows = on_disk;
      })
