-- ===== src/Store.antt =====
-- src/store.rs and its children: the keyspaces behind typed reads and durable writes.
pub mod Guard
pub mod Writes
pub mod Subscribers
pub mod RateLimits
pub mod Sends
pub mod Scans
use epistole.Prelude.{◌++◌, text}
use epistole.Prelude.Effects.{Exec, call}
use epistole.Error.{Error, store}
use epistole.Platform.{Platform}

module _ (p : Platform) where
  open p use {World, persist}

  -- `Store::persist_acknowledged`
  unfoldable pub persist_acknowledged : Exec World Error (Unit {0})
  persist_acknowledged = call persist (λ e. store (text "persist journal: " ++ e))
