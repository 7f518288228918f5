-- ===== src/Store/Writes.antt =====
-- The durable write of src/store.rs's callers: an insert, then `persist_acknowledged`.
use epistole.Prelude.{◌≡◌, ◌∙◌, Text, ok}
use epistole.Prelude.Effects.{call, ◌>>◌, >>=-eq-ok, map_err-eq-ok}
use epistole.Error.{Error}
use epistole.Platform.{Platform, PlatformLaws, Space, update}
use epistole.Store.{persist_acknowledged}

module _ (p : Platform) (laws : PlatformLaws p) where
  open p use {World}
  open laws use {rows, durable}

  -- A write that is acknowledged is in the rows, is the only change to them, and is on disk.
  pub rows-insert-persist :
      (s : Space) (k v : Text) (f : Text → Error) (w : World)
      → ((call (p.insert s k v) f >> persist_acknowledged p) w).0 ≡ ok tt
      → (rows ((call (p.insert s k v) f >> persist_acknowledged p) w).1 ≡ update (rows w) s k v)
        × (durable ((call (p.insert s k v) f >> persist_acknowledged p) w).1
            ≡ update (rows w) s k v)
  unfolding persist_acknowledged
  rows-insert-persist s k v f w h =
      let (_, inserted, same, persisted) = >>=-eq-ok (call (p.insert s k v) f) _ w h in
      let written = laws.rows-insert s k v w (map_err-eq-ok _ _ inserted) in
      let w' = (p.insert s k v w).1 in
      rw same (
        laws.rows-persist w' ∙ written,
        laws.durable-persist w' (map_err-eq-ok _ _ persisted) ∙ written,
      )
