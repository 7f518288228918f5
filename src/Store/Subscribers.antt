-- ===== src/Store/Subscribers.antt =====
-- src/store/subscriber.rs: reads and writes of subscriber rows.
pub mod Laws
pub mod Answers
use epistole.Prelude.{
  ◌≡◌, ◌++◌, none, some, Option, Text, text, to_ascii_lowercase, Result, ok, err, map_err,
}
use epistole.Prelude.Effects.{Exec, call, lift, ◌>>=◌, ◌>>◌}
use epistole.Error.{Error, store}
use epistole.Platform.{Platform, subscribers}
use epistole.Records.{Subscriber}
use epistole.Store.{persist_acknowledged}

module _ (p : Platform) where
  open p use {World, Time, get, insert, subscriber_json}

  -- What the value at a key decodes to.
  unfoldable pub decode_row : Option Text → Result Text (Option (Subscriber Time))
  decode_row none = ok none
  decode_row (some bytes) = elim (subscriber_json.from_slice bytes) [
    | ok s ↦ ok (some s)
    | err e ↦ err e
  ]

  unfoldable pub subscriber_get : Text → Exec World Error (Option (Subscriber Time))
  subscriber_get email = do
    raw ←
        call (get subscribers (to_ascii_lowercase email))
          (λ e. store (text "subscriber_get " ++ email ++ text ": " ++ e))
    lift (
        map_err (decode_row raw)
          (λ e. store (text "decode subscriber " ++ email ++ text ": " ++ e)))

  unfoldable pub subscriber_put : Subscriber Time → Exec World Error (Unit {0})
  subscriber_put s = do
    bytes ← lift (
        map_err (subscriber_json.to_vec s)
          (λ e. store (text "encode subscriber " ++ s.email ++ text ": " ++ e)))
    call (insert subscribers (to_ascii_lowercase s.email) bytes)
        (λ e. store (text "subscriber_put " ++ s.email ++ text ": " ++ e))
    persist_acknowledged p
