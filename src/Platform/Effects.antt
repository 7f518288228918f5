-- ===== src/Platform/Effects.antt =====
-- The calls of the platform that change no row, as rules for `Keeps`.
use epistole.Prelude.{Text}
use epistole.Prelude.Effects.{Keeps}
use epistole.Platform.{Platform, PlatformLaws, Space}

module _ (p : Platform) (laws : PlatformLaws p) where
  open p use {Message}
  open laws use {rows, outbox}

  pub get-Keeps_rows : (s : Space) (k : Text) → Keeps rows (p.get s k)
  get-Keeps_rows s k = record { at = laws.rows-get s k }

  pub mail-Keeps_rows : (m : Message) → Keeps rows (p.mail m)
  mail-Keeps_rows m = record { at = laws.rows-mail m }

  pub get-Keeps_outbox : (s : Space) (k : Text) → Keeps outbox (p.get s k)
  get-Keeps_outbox s k = record { at = laws.outbox-get s k }

  pub insert-Keeps_outbox : (s : Space) (k v : Text) → Keeps outbox (p.insert s k v)
  insert-Keeps_outbox s k v = record { at = laws.outbox-insert s k v }

  pub persist-Keeps_outbox : Keeps outbox p.persist
  persist-Keeps_outbox = record { at = laws.outbox-persist }
