-- ===== src/Handlers/Overlaps.antt =====
-- The handlers of src/handlers/confirm.rs, unsubscribe.rs and webhooks.rs when requests overlap. The
-- code takes no lock from the read of a subscriber to the write, so each request is a read, which
-- leaves it in flight with the row that it saw, and later a write by what it saw.
pub mod Writes
pub mod Safety
use epistole.Prelude.{◌≡◌, ◌++◌, ◌⊎◌, [], ◌∷◌, List, Option, some, Text, to_ascii_lowercase, ok}
use epistole.Prelude.Effects.{Exec, pure, ◌>>◌}
use epistole.Error.{Error}
use epistole.Crypto.{Crypto}
use epistole.Config.{Config}
use epistole.Platform.{Platform, PlatformLaws, subscribers}
use epistole.Records.{Subscriber}
use epistole.Token
use epistole.Token.{Token}
use epistole.Store.Subscribers.{subscriber_get}
use epistole.Handlers.Links.{verified}
use epistole.Handlers.Confirm.{commit_row}
use epistole.Handlers.Unsubscribe.{apply_row}
use epistole.Handlers.Webhooks.{suppress_row}

module _ (p : Platform) (laws : PlatformLaws p) (crypto : Crypto) (config : Config) where
  open p use {World, Time}
  open laws use {rows}

  -- A request in flight: its token and time, and the row that it read.
  pub data Request : Type 0 where
    confirming : Token → Time → Option (Subscriber Time) → Request
    leaving : Token → Time → Option (Subscriber Time) → Request
    suppressing : Time → Option (Subscriber Time) → Request

  -- What a request does after its read.
  unfoldable pub settle : Request → Exec World Error (Unit {0})
  settle (confirming t now o) = commit_row p crypto config t now o >> pure tt
  settle (leaving t now o) = apply_row p crypto config t now o >> pure tt
  settle (suppressing now o) = suppress_row p now o

  -- A request reads, one in flight writes, or something happens that writes no subscriber. A read or a
  -- write that fails is no step: the laws of the database say nothing of what such a write leaves.
  pub data Step (w : World) (flying : List Request) : World → List Request → Type 0 where
    confirm_read :
        (raw : Text) (now : Time) (t : Token) (o : Option (Subscriber Time))
        → verified p crypto config Token.confirm raw now ≡ some t
        → (subscriber_get p t.email w).0 ≡ ok o
        → Step w flying (subscriber_get p t.email w).1 (confirming t now o ∷ flying)
    unsubscribe_read :
        (raw : Text) (now : Time) (t : Token) (o : Option (Subscriber Time))
        → verified p crypto config Token.unsubscribe raw now ≡ some t
        → (subscriber_get p t.email w).0 ≡ ok o
        → Step w flying (subscriber_get p t.email w).1 (leaving t now o ∷ flying)
    suppress_read :
        (email : Text) (now : Time) (o : Option (Subscriber Time))
        → (subscriber_get p email w).0 ≡ ok o
        → Step w flying (subscriber_get p email w).1 (suppressing now o ∷ flying)
    settled :
        (before after : List Request) (r : Request)
        → flying ≡ before ++ (r ∷ after)
        → (settle r w).0 ≡ ok tt
        → Step w flying (settle r w).1 (before ++ after)
    elsewhere : (w' : World) → rows w' subscribers ≡ rows w subscribers → Step w flying w' flying

  -- Steps one after another, from no request in flight.
  pub data Trace (w : World) : World → List Request → Type 0 where
    start : Trace w w []
    next :
        {v w' : World} {flying flying' : List Request}
        → Trace w v flying
        → Step v flying w' flying'
        → Trace w w' flying'

  -- A confirm link for the address `k` was submitted.
  unfoldable pub ConfirmsIn :
      {w : World} {flying : List Request} {w' : World} {flying' : List Request}
      → Step w flying w' flying'
      → Text
      → Type 0
  ConfirmsIn (confirm_read raw now t o _ _) k = to_ascii_lowercase t.email ≡ k
  ConfirmsIn (unsubscribe_read _ _ _ _ _ _) k = ⊥
  ConfirmsIn (suppress_read _ _ _ _) k = ⊥
  ConfirmsIn (settled _ _ _ _ _) k = ⊥
  ConfirmsIn (elsewhere _ _) k = ⊥

  unfoldable pub Confirmed :
      {w : World} {w' : World} {flying : List Request} → Trace w w' flying → Text → Type 0
  unfolding ConfirmsIn
  Confirmed start k = ⊥
  Confirmed (next trace step) k = Confirmed trace k ⊎ ConfirmsIn step k
