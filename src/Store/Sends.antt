-- ===== src/Store/Sends.antt =====
-- src/store/send.rs: the newsletter sends and the ledger of deliveries.
pub mod Laws
pub mod Answers
use epistole.Prelude.{
  ℕ, ◌++◌, [], ◌∷◌, List, none, some, Option, Text, text, to_ascii_lowercase, Result, ok, err,
  map_err,
}
use epistole.Prelude.Effects.{Exec, call, lift, ◌>>=◌, ◌>>◌}
use epistole.Error.{Error, store}
use epistole.Platform.{Platform, Codec, sends, deliveries}
use epistole.Records.{Send, SendId, Delivery}
use epistole.Store.{persist_acknowledged}

-- What the value at a key decodes to.
unfoldable pub decode_with : {A : Type 0} → Codec A → Option Text → Result Text (Option A)
decode_with codec none = ok none
decode_with codec (some bytes) = elim (codec.from_slice bytes) [
  | ok a ↦ ok (some a)
  | err e ↦ err e
]

module _ (p : Platform) where
  open p use {World, Time, Ulid, get, insert, send_json, delivery_json}

  -- `SendId`'s display
  abbrev pub send_id_to_string : SendId Ulid → Text
  send_id_to_string id = p.ulid_to_string id.ulid

  unfoldable pub send_get : SendId Ulid → Exec World Error (Option (Send Ulid Time))
  send_get send_id = do
    raw ←
        call (get sends (send_id_to_string send_id))
          (λ e. store (text "send_get " ++ send_id_to_string send_id ++ text ": " ++ e))
    lift (
        map_err (decode_with send_json raw)
          (λ e. store (text "decode send " ++ send_id_to_string send_id ++ text ": " ++ e)))

  unfoldable pub send_put : Send Ulid Time → Exec World Error (Unit {0})
  send_put send = do
    bytes ← lift (
        map_err (send_json.to_vec send)
          (λ e. store (text "encode send " ++ send_id_to_string send.id ++ text ": " ++ e)))
    call (insert sends (send_id_to_string send.id) bytes)
        (λ e. store (text "sends partition write: " ++ e))
    persist_acknowledged p

  -- The key of one delivery: `<send_id>/<email>`.
  unfoldable pub delivery_key : SendId Ulid → Text → Text
  delivery_key send_id email = send_id_to_string send_id ++ (b'/' ∷ to_ascii_lowercase email)

  -- `{send_id}/{email}` of the error messages
  abbrev pub delivery_name : SendId Ulid → Text → Text
  delivery_name send_id email = send_id_to_string send_id ++ (b'/' ∷ email)

  unfoldable pub delivery_get : SendId Ulid → Text → Exec World Error (Option (Delivery Ulid Time))
  delivery_get send_id email = do
    raw ←
        call (get deliveries (delivery_key send_id email))
          (λ e. store (text "delivery_get " ++ delivery_name send_id email ++ text ": " ++ e))
    lift (
        map_err (decode_with delivery_json raw)
          (λ e. store (text "decode delivery " ++ delivery_name send_id email ++ text ": " ++ e)))

  unfoldable pub delivery_put : Delivery Ulid Time → Exec World Error (Unit {0})
  delivery_put d = do
    bytes ← lift (
        map_err (delivery_json.to_vec d) (λ e.
          store (text "encode delivery " ++ delivery_name d.send_id d.email ++ text ": " ++ e)))
    call (insert deliveries (delivery_key d.send_id d.email) bytes)
        (λ e. store (text "delivery_put " ++ delivery_name d.send_id d.email ++ text ": " ++ e))
    persist_acknowledged p
