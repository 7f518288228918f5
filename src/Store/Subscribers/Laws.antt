-- ===== src/Store/Subscribers/Laws.antt =====
-- What src/store/subscriber.rs promises of one row, over the laws of the database.
use epistole.Prelude.{
  ◌≡◌, refl, ◌≢◌, sym, ap, ◌∙◌, if◌then◌else◌, some, Option, Text, text_eq, to_ascii_lowercase,
  Result, ok, map_err, arith,
}
use epistole.Prelude.Effects.{call, lift, >>=-eq-ok, map_err-eq-ok, Keeps, keeps_rules}
use epistole.Platform.{Platform, PlatformLaws, Space, subscribers, update}
use epistole.Platform.Effects.{get-Keeps_rows}
use epistole.Records.{Subscriber}
use epistole.Store.Writes.{rows-insert-persist}
use epistole.Store.Subscribers.{decode_row, subscriber_get, subscriber_put}

module _ (p : Platform) where
  open p use {Time, subscriber_json}

  pub decode_row-good :
      (v : Text) {s : Subscriber Time}
      → subscriber_json.from_slice v ≡ ok s
      → decode_row p (some v) ≡ ok (some s)
  unfolding decode_row
  decode_row-good v good = rw (decode_row, good) refl

module _ (p : Platform) (laws : PlatformLaws p) where
  open p use {World, Time, subscriber_json}
  open laws use {rows, durable}

  -- The subscriber that the rows hold at a lowercased email, or why it cannot be read.
  abbrev pub subscriber_at : World → Text → Result Text (Option (Subscriber Time))
  subscriber_at w k = decode_row p (rows w subscribers k)

  -- Reading changes no row.
  pub subscriber_get-Keeps : (email : Text) → Keeps rows (subscriber_get p email)
  unfolding subscriber_get
  subscriber_get-Keeps email = search (keeps_rules, get-Keeps_rows p laws)

  -- A read that succeeds returns what the rows hold.
  pub subscriber_get-subscriber_at :
      (email : Text) (w : World) {o : Option (Subscriber Time)}
      → (subscriber_get p email w).0 ≡ ok o
      → subscriber_at w (to_ascii_lowercase email) ≡ ok o
  unfolding subscriber_get
  subscriber_get-subscriber_at email w h =
      let (raw, got, same, decoded) =
        >>=-eq-ok (call (p.get subscribers (to_ascii_lowercase email)) _) _ w h in
      ap (decode_row p)
        (sym (laws.get-rows subscribers (to_ascii_lowercase email) w (map_err-eq-ok _ _ got)))
      ∙ map_err-eq-ok (decode_row p raw) _ decoded

  -- The rows after a read, and what they hold at the key that was read.
  pub subscriber_get_lem :
      (email : Text) (w : World) {o : Option (Subscriber Time)}
      → (subscriber_get p email w).0 ≡ ok o
      → (rows (subscriber_get p email w).1 ≡ rows w)
        × (subscriber_at (subscriber_get p email w).1 (to_ascii_lowercase email) ≡ ok o)
  subscriber_get_lem email w h =
      let same = (subscriber_get-Keeps email).at w in
      (
        same,
        ap (λ r. decode_row p (r subscribers (to_ascii_lowercase email))) same
            ∙ subscriber_get-subscriber_at email w h,
      )

  -- What a write of `s` leaves: `s` under its own key, on disk too, and all else as it was.
  pub record Wrote (s : Subscriber Time) (w w' : World) : Type 0 where
    pub subscriber_at_key :
        (k : Text)
        → subscriber_at w' k
          ≡ (if text_eq (to_ascii_lowercase s.email) k then ok (some s) else subscriber_at w k)
    pub other_spaces : (sp : Space) → sp ≢ subscribers → rows w' sp ≡ rows w sp
    pub durable_rows : durable w' ≡ rows w'

  Wrote-of_update :
      (s : Subscriber Time) (w w' : World) (bytes : Text)
      → subscriber_json.to_vec s ≡ ok bytes
      → rows w' ≡ update (rows w) subscribers (to_ascii_lowercase s.email) bytes
      → durable w' ≡ update (rows w) subscribers (to_ascii_lowercase s.email) bytes
      → Wrote s w w'
  unfolding update decode_row
  Wrote-of_update s w w' bytes encoded now disk = record {
    subscriber_at_key = λ k. rw now (ground (arith, laws.subscriber_json-round_trip s encoded));
    other_spaces = λ sp ne. rw now (ground arith);
    durable_rows = disk ∙ sym now;
  }

  -- A write of a subscriber that is acknowledged is on disk: the rows hold the subscriber under its
  -- lowercased email, every other address and every other keyspace is as it was, and a power loss
  -- leaves the same rows.
  pub subscriber_put-Wrote :
      (s : Subscriber Time) (w : World)
      → (subscriber_put p s w).0 ≡ ok tt
      → Wrote s w (subscriber_put p s w).1
  unfolding subscriber_put
  subscriber_put-Wrote s w h =
      let (bytes, encoded, same, written) =
        >>=-eq-ok (lift (map_err (subscriber_json.to_vec s) _)) _ w h in
      let (now, disk) =
        rows-insert-persist p laws subscribers (to_ascii_lowercase s.email) bytes _ w written in
      rw same (Wrote-of_update s w _ bytes (map_err-eq-ok _ _ encoded) now disk)
