-- ===== src/Store/Sends/Laws.antt =====
-- What src/store/send.rs promises of a ledger row, over the laws of the database.
use epistole.Prelude.{
  ◌≡◌, ◌≢◌, sym, ap, ◌∙◌, if◌then◌else◌, some, Option, Text, text_eq, Result, ok, map_err, arith,
}
use epistole.Prelude.Effects.{
  call, lift, >>=-eq-ok, map_err-eq-ok, Keeps, keeps_rules, Keeps-bind, Keeps-lift, Keeps-call,
}
use epistole.Platform.{Platform, PlatformLaws, Space, deliveries, update}
use epistole.Platform.Effects.{
  get-Keeps_rows, get-Keeps_outbox, insert-Keeps_outbox, persist-Keeps_outbox,
}
use epistole.Records.{SendId, Delivery}
use epistole.Store.{persist_acknowledged}
use epistole.Store.Writes.{rows-insert-persist}
use epistole.Store.Sends.{decode_with, delivery_key, delivery_get, delivery_put}

module _ (p : Platform) (laws : PlatformLaws p) where
  open p use {World, Time, Ulid, delivery_json}
  open laws use {rows, durable, outbox}

  -- The delivery that the ledger holds at a key, or why it cannot be read.
  abbrev pub delivery_at : World → Text → Result Text (Option (Delivery Ulid Time))
  delivery_at w k = decode_with delivery_json (rows w deliveries k)

  pub delivery_get-Keeps : (id : SendId Ulid) (email : Text) → Keeps rows (delivery_get p id email)
  unfolding delivery_get
  delivery_get-Keeps id email = search (keeps_rules, get-Keeps_rows p laws)

  pub delivery_get-Keeps_outbox :
      (id : SendId Ulid) (email : Text) → Keeps outbox (delivery_get p id email)
  unfolding delivery_get
  delivery_get-Keeps_outbox id email = search (keeps_rules, get-Keeps_outbox p laws)

  pub delivery_put-Keeps_outbox : (d : Delivery Ulid Time) → Keeps outbox (delivery_put p d)
  unfolding delivery_put persist_acknowledged
  delivery_put-Keeps_outbox d =
      Keeps-bind (lift (map_err (delivery_json.to_vec d) _)) _ (Keeps-lift _) λ bytes.
        Keeps-bind (call (p.insert deliveries (delivery_key p d.send_id d.email) bytes) _) _
          (Keeps-call _ _ (insert-Keeps_outbox p laws deliveries _ bytes))
          λ _. Keeps-call p.persist _ (persist-Keeps_outbox p laws)

  -- A read that succeeds returns what the ledger holds.
  pub delivery_get-delivery_at :
      (id : SendId Ulid) (email : Text) (w : World) {o : Option (Delivery Ulid Time)}
      → (delivery_get p id email w).0 ≡ ok o
      → delivery_at w (delivery_key p id email) ≡ ok o
  unfolding delivery_get
  delivery_get-delivery_at id email w h =
      let k = delivery_key p id email in
      let (raw, got, same, decoded) = >>=-eq-ok (call (p.get deliveries k) _) _ w h in
      ap (decode_with delivery_json) (sym (laws.get-rows deliveries k w (map_err-eq-ok _ _ got)))
      ∙ map_err-eq-ok (decode_with delivery_json raw) _ decoded

  -- What a write of `d` leaves: `d` under its key, on disk too, and all else as it was.
  pub record Recorded (d : Delivery Ulid Time) (w w' : World) : Type 0 where
    pub delivery_at_key :
        (k : Text)
        → delivery_at w' k
          ≡ (if text_eq (delivery_key p d.send_id d.email) k then ok (some d) else delivery_at w k)
    pub other_spaces : (sp : Space) → sp ≢ deliveries → rows w' sp ≡ rows w sp
    pub durable_rows : durable w' ≡ rows w'

  Recorded_of_update :
      (d : Delivery Ulid Time) (w w' : World) (bytes : Text)
      → delivery_json.to_vec d ≡ ok bytes
      → rows w' ≡ update (rows w) deliveries (delivery_key p d.send_id d.email) bytes
      → durable w' ≡ update (rows w) deliveries (delivery_key p d.send_id d.email) bytes
      → Recorded d w w'
  unfolding update decode_with
  Recorded_of_update d w w' bytes encoded now disk = record {
    delivery_at_key = λ k. rw now (ground (arith, laws.delivery_json-round_trip d encoded));
    other_spaces = λ sp ne. rw now (ground arith);
    durable_rows = disk ∙ sym now;
  }

  pub delivery_put-Recorded :
      (d : Delivery Ulid Time) (w : World)
      → (delivery_put p d w).0 ≡ ok tt
      → Recorded d w (delivery_put p d w).1
  unfolding delivery_put
  delivery_put-Recorded d w h =
      let k = delivery_key p d.send_id d.email in
      let (bytes, encoded, same, written) =
        >>=-eq-ok (lift (map_err (delivery_json.to_vec d) _)) _ w h in
      let (now, disk) = rows-insert-persist p laws deliveries k bytes _ w written in
      rw same (Recorded_of_update d w _ bytes (map_err-eq-ok _ _ encoded) now disk)
