-- ===== src/Handlers/Archive.antt =====
-- src/handlers/archive.rs: the public archive of sends.
pub mod Laws
use epistole.Prelude.{ℕ, ◌+◌, none, some, Option, Bool, List, ltb, length, Text, text}
use epistole.Prelude.Effects.{Exec, pure, raise, ◌>>=◌}
use epistole.Error.{Error, not_found}
use epistole.Config.{Config}
use epistole.Platform.{Platform}
use epistole.Records.{Send, SendId}
use epistole.Store.Sends.{send_get}
use epistole.Prelude.Newest.{take}
use epistole.Store.Scans.{recent_sends}

abbrev pub index_limit : ℕ
index_limit = 100

-- The two archive pages of src/templates.rs, each with what its template is given.
pub data ArchivePage (S : Type 0) : Type 0 where
  archive_index : Text → List S → Bool → ArchivePage S
  archive_detail : Text → S → ArchivePage S

pub record Archived (S : Type 0) : Type 0 where
  pub cache_control : Text
  pub page : ArchivePage S

module _ (p : Platform) (config : Config) where
  open p use {World, Time, Ulid}

  -- `GET /archive`
  unfoldable pub get : Exec World Error (Archived (Send Ulid Time))
  get = do
    sends ← recent_sends p (index_limit + 1)
    pure (record {
      cache_control = text "public, max-age=300";
      page =
          archive_index config.brand.name (take index_limit sends) (ltb index_limit (length sends));
    })

  unfoldable pub found : Option (Send Ulid Time) → Exec World Error (Archived (Send Ulid Time))
  found none = raise not_found
  found (some send) = pure (record {
    cache_control = text "public, max-age=31536000, immutable";
    page = archive_detail config.brand.name send;
  })

  -- `GET /archive/{send_id}`, with the identifier that the path extractor has parsed
  unfoldable pub detail : SendId Ulid → Exec World Error (Archived (Send Ulid Time))
  unfolding found
  detail send_id = do send ← send_get p send_id; found send
