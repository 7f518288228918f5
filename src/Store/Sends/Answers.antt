-- ===== src/Store/Sends/Answers.antt =====
-- With a database whose calls succeed, src/store/send.rs reads and writes the ledger without an error.
use epistole.Prelude.{◌≡◌, refl, ap, ◌∙◌, Option, Text, ok}
use epistole.Platform.{Platform, PlatformLaws, deliveries}
use epistole.Platform.Available.{Available}
use epistole.Records.{SendId, Delivery}
use epistole.Store.{persist_acknowledged}
use epistole.Store.Sends.{decode_with, delivery_key, delivery_get, delivery_put}
use epistole.Store.Sends.Laws.{delivery_at}

module _ (p : Platform) (laws : PlatformLaws p) (available : Available p) where
  open p use {World, Time, Ulid, delivery_json}

  pub delivery_get-Returns :
      (id : SendId Ulid) (email : Text) (w : World) {o : Option (Delivery Ulid Time)}
      → delivery_at p laws w (delivery_key p id email) ≡ ok o
      → (delivery_get p id email w).0 ≡ ok o
  unfolding delivery_get
  delivery_get-Returns id email w {o} found =
      let k = delivery_key p id email in
      let (raw, got) = available.get-total deliveries k w in
      let decoded : decode_with delivery_json raw ≡ ok o =
        ap (decode_with delivery_json) (laws.get-rows deliveries k w got) ∙ found in
      rw (got, decoded) refl

  pub delivery_put-Returns : (d : Delivery Ulid Time) (w : World) → (delivery_put p d w).0 ≡ ok tt
  unfolding delivery_put persist_acknowledged
  delivery_put-Returns d w =
      let (bytes, encoded) = available.delivery_to_vec-total d in
      let k = delivery_key p d.send_id d.email in
      let w1 = (p.insert deliveries k bytes w).1 in
      rw (encoded, available.insert-total deliveries k bytes w, available.persist-total w1) refl
