-- ===== src/Store/Subscribers/Answers.antt =====
-- With a database whose calls succeed, src/store/subscriber.rs reads and writes rows without an error.
use epistole.Prelude.{◌≡◌, refl, ap, ◌∙◌, Option, Text, to_ascii_lowercase, ok}
use epistole.Prelude.Effects.{Returns}
use epistole.Platform.{Platform, PlatformLaws, subscribers}
use epistole.Platform.Available.{Available}
use epistole.Records.{Subscriber}
use epistole.Store.{persist_acknowledged}
use epistole.Store.Subscribers.{decode_row, subscriber_get, subscriber_put}
use epistole.Store.Subscribers.Laws.{subscriber_at}

module _ (p : Platform) (laws : PlatformLaws p) where
  open p use {World, Time}

  -- The row at each key decodes.
  pub record IsReadable (w : World) : Type 0 where
    pub at : (k : Text) → (o : Option (Subscriber Time)) × (subscriber_at p laws w k ≡ ok o)

module _ (p : Platform) (laws : PlatformLaws p) (available : Available p) where
  open p use {World, Time}

  pub subscriber_get-Returns :
      (email : Text) (w : World) → IsReadable p laws w → Returns (subscriber_get p email) w
  unfolding subscriber_get
  subscriber_get-Returns email w readable =
      let k = to_ascii_lowercase email in
      let (raw, got) = available.get-total subscribers k w in
      let (o, found) = readable.at k in
      let decoded : decode_row p raw ≡ ok o =
        ap (decode_row p) (laws.get-rows subscribers k w got) ∙ found in
      rw (got, decoded) (o, refl)

  pub subscriber_put-Returns : (s : Subscriber Time) (w : World) → Returns (subscriber_put p s) w
  unfolding subscriber_put persist_acknowledged
  subscriber_put-Returns s w =
      let (bytes, encoded) = available.subscriber_to_vec-total s in
      let k = to_ascii_lowercase s.email in
      let w1 = (p.insert subscribers k bytes w).1 in
      rw (encoded, available.insert-total subscribers k bytes w, available.persist-total w1)
        (tt, refl)
