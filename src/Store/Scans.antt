-- ===== src/Store/Scans.antt =====
-- The scans of src/store/subscriber.rs and src/store/send.rs over a keyspace.
pub mod Active
pub mod Answers
pub mod Purge
pub mod Recent
use epistole.Prelude.{
  ℕ, zero, suc, ◌++◌, [], ◌∷◌, List, ◌&&◌, if◌then◌else◌, ltb, Text, text, length, Result, ok, err,
  map_err,
}
use epistole.Prelude.Effects.{Exec, call, pure, ◌>>=◌, ◌>>◌}
use epistole.Error.{Error, store}
use epistole.Platform.{Platform, Space, subscribers, sends}
use epistole.Records.{Subscriber, pending, active, state_eq, Send}
use epistole.Store.{persist_acknowledged}
use epistole.Prelude.Newest.{take}
use mathlib.Core.List.{reverse}

module _ (p : Platform) where
  open p use {World, Time, Ulid, iter, remove, subscriber_json, send_json, add_seconds, time_le}

  -- A scan in key order, as an action that cannot fail: each row can.
  abbrev pub scan :
      {A : Type 0}
      → (List (Result Text (Text × Text)) → Result Error A)
      → Space
      → Exec World Error A
  scan f s w = (f (iter s w).0, (iter s w).1)

  -- The loop of `purge_expired_pending` that collects the keys of expired rows.
  unfoldable pub expired_keys :
      Time → ℕ → List (Result Text (Text × Text)) → Result Error (List Text)
  expired_keys now max_age [] = ok []
  expired_keys now max_age (err e ∷ rows) = err (store (text "subscribers iter: " ++ e))
  expired_keys now max_age (ok (key, value) ∷ rows) =
      let rest = expired_keys now max_age rows in
      elim (subscriber_json.from_slice value) [
        | err e ↦ err (store (text "subscriber decode during pending purge: " ++ e))
        | ok s ↦ elim rest [
          | err e ↦ err e
          | ok keys ↦
              if state_eq s.state pending && time_le (add_seconds s.created_at max_age) now
              then ok (key ∷ keys)
              else ok keys
        ]
      ]

  -- The loop that removes them.
  unfoldable pub remove_all : List Text → Exec World Error (Unit {0})
  remove_all [] = pure tt
  remove_all (key ∷ keys) =
      call (remove subscribers key) (λ e. store (text "pending purge remove: " ++ e))
      >> remove_all keys

  -- `max_age` is in seconds.
  unfoldable pub purge_expired_pending : Time → ℕ → Exec World Error ℕ
  purge_expired_pending now max_age = do
    expired ← scan (expired_keys now max_age) subscribers
    remove_all expired
    if ltb 0 (length expired) then persist_acknowledged p else pure tt
    pure (length expired)

  unfoldable pub active_rows :
      List (Result Text (Text × Text)) → Result Error (List (Subscriber Time))
  active_rows [] = ok []
  active_rows (err e ∷ rows) = err (store (text "active_subscribers iter: " ++ e))
  active_rows (ok (key, value) ∷ rows) =
      let rest = active_rows rows in
      elim (subscriber_json.from_slice value) [
        | err e ↦ err (store (text "active_subscribers decode: " ++ e))
        | ok s ↦ elim rest [
          | err e ↦ err e
          | ok out ↦ if state_eq s.state active then ok (s ∷ out) else ok out
        ]
      ]

  unfoldable pub active_subscribers : Exec World Error (List (Subscriber Time))
  active_subscribers = scan active_rows subscribers

  unfoldable pub decode_send : Result Text (Text × Text) → Result Error (Send Ulid Time)
  decode_send (err e) = err (store (text "sends iter: " ++ e))
  decode_send (ok (key, value)) =
      map_err (send_json.from_slice value) (λ e. store (text "sends decode: " ++ e))

  -- `collect` into a `Result`: the first error ends it.
  unfoldable pub collect : List (Result Text (Text × Text)) → Result Error (List (Send Ulid Time))
  unfolding decode_send
  collect [] = ok []
  collect (row ∷ rows) =
      let rest = collect rows in
      elim (decode_send row) [
        | err e ↦ err e
        | ok send ↦ elim rest [ err e ↦ err e | ok out ↦ ok (send ∷ out) ]
      ]

  unfoldable pub recent_sends : ℕ → Exec World Error (List (Send Ulid Time))
  recent_sends limit = scan (λ rows. collect (take limit (reverse rows))) sends
