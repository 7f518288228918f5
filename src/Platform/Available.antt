-- ===== src/Platform/Available.antt =====
-- A database and codecs whose calls succeed, whatever the relay and the visitors do.
use epistole.Prelude.{◌≡◌, Option, List, map, Text, ok}
use epistole.Platform.{Platform, Space}
use epistole.Records.{Subscriber, Delivery, Send}

module _ (p : Platform) where
  open p use {World, Time, Ulid}

  pub record Available : Type 0 where
    pub get-total :
        (s : Space) (k : Text) (w : World) → (v : Option Text) × ((p.get s k w).0 ≡ ok v)
    pub insert-total : (s : Space) (k v : Text) (w : World) → (p.insert s k v w).0 ≡ ok tt
    pub persist-total : (w : World) → (p.persist w).0 ≡ ok tt
    pub subscriber_to_vec-total :
        (s : Subscriber Time) → (b : Text) × (p.subscriber_json.to_vec s ≡ ok b)
    pub delivery_to_vec-total :
        (d : Delivery Ulid Time) → (b : Text) × (p.delivery_json.to_vec d ≡ ok b)
    pub send_to_vec-total : (d : Send Ulid Time) → (b : Text) × (p.send_json.to_vec d ≡ ok b)
    pub iter-total :
        (s : Space) (w : World) → (entries : List (Text × Text)) × ((p.iter s w).0 ≡ map ok entries)
