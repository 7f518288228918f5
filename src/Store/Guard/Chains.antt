-- ===== src/Store/Guard/Chains.antt =====
-- What src/store/path.rs resolves a path to, described without its loop: a chain of symbolic links
-- whose targets are missing, and below each the names that do not exist yet.
use epistole.Prelude.{
  ℕ, suc, Bool, true, false, if◌then◌else◌, ◌≡◌, refl, ap, ◌⊎◌, inl, inr, List, [], ◌∷◌, ◌++◌, Text,
  ok, err, Result-cases, Bool-cases,
}
use epistole.Prelude.Results.{◌>>=◌}
use epistole.Store.Guard.{
  FilePath, FileSystem, is_name, file_name, push_all, make_absolute, walk_up, resolved_target,
  canonicalize_bounded,
}

-- The names among some components.
unfoldable pub names : List Text → List Text
names [] = []
names (part ∷ parts) = let rest = names parts in if is_name part then part ∷ rest else rest

-- A path with the names among `missing` below it.
abbrev pub extend : FilePath → List Text → FilePath
extend path missing = record path { parts = names missing ++ path.parts }

module _ (fs : FileSystem) where
  open fs use {entry_exists, canonicalize, read_link}

  -- Nothing exists at `base` followed by one component of `missing` or more.
  unfoldable pub AllMissing : Bool → List Text → List Text → Type 0
  AllMissing absolute [] base = Unit
  AllMissing absolute (part ∷ missing) base =
      (entry_exists (record { absolute = absolute; parts = part ∷ (missing ++ base) }) ≡ false)
      × AllMissing absolute missing base

  -- `entry` is the nearest ancestor of `path` that exists, or has no components, and `missing` is
  -- what `path` has below it.
  pub record Nearest (path : FilePath) (missing : List Text) (entry : FilePath) : Type 0 where
    pub absolute : path.absolute ≡ entry.absolute
    pub parts : path.parts ≡ missing ++ entry.parts
    pub found : (entry_exists entry ≡ true) ⊎ (entry.parts ≡ [])
    pub missed : AllMissing entry.absolute missing entry.parts

  -- `path` stands below an entry that the system resolves to `canonical`.
  pub record Resolves (path : FilePath) (missing : List Text) (canonical : FilePath) : Type 0 where
    pub from : FilePath
    pub entry : FilePath
    pub made : make_absolute fs path ≡ ok from
    pub nearest : Nearest from missing entry
    pub resolved : canonicalize entry ≡ ok canonical

  -- `path` stands below a link that the system cannot resolve, and which points to `next`.
  pub record BrokenLink (path : FilePath) (missing : List Text) (next : FilePath) : Type 0 where
    pub from : FilePath
    pub entry : FilePath
    pub target : FilePath
    pub reason : Text
    pub made : make_absolute fs path ≡ ok from
    pub nearest : Nearest from missing entry
    pub broken : canonicalize entry ≡ err reason
    pub points : read_link entry ≡ ok target
    pub onwards : resolved_target entry target ≡ next

  -- `path` leads to `canonical` over that many broken links.
  pub data Leads : ℕ → FilePath → FilePath → Type 0 where
    resolves :
        {path canonical : FilePath} (missing : List Text)
        → Resolves path missing canonical
        → Leads 0 path (extend canonical missing)
    follows :
        {n : ℕ} {path next canonical : FilePath} (missing : List Text)
        → BrokenLink path missing next
        → Leads n next canonical
        → Leads (suc n) path (extend canonical missing)

  -- Every path has a nearest entry.
  pub Nearest-exists :
      (absolute : Bool) (parts : List Text)
      → (missing : List Text) × (entry : FilePath) × Nearest
          (record { absolute = absolute; parts = parts })
          missing
          entry
  unfolding AllMissing
  Nearest-exists absolute [] = (
    [],
    record { absolute = absolute; parts = [] },
    record { absolute = refl; parts = refl; found = inr refl; missed = tt },
  )
  Nearest-exists absolute (part ∷ parts) =
      elim (Bool-cases (entry_exists (record { absolute = absolute; parts = part ∷ parts }))) [
        | inl here ↦ (
          [],
          record { absolute = absolute; parts = part ∷ parts },
          record { absolute = refl; parts = refl; found = inl here; missed = tt },
        )
        | inr away ↦
            let (missing, entry, near) = Nearest-exists absolute parts in
            (
              part ∷ missing,
              entry,
              record {
                absolute = near.absolute;
                parts = ap (λ ps. part ∷ ps) near.parts;
                found = near.found;
                missed = (rw (← near.absolute, ← near.parts) away, near.missed);
              },
            )
      ]

  walk_up-found :
      (absolute : Bool) (parts tail : List Text)
      → (entry_exists (record { absolute = absolute; parts = parts }) ≡ true) ⊎ (parts ≡ [])
      → walk_up fs absolute parts tail ≡ (record { absolute = absolute; parts = parts }, tail)
  unfolding walk_up
  walk_up-found absolute [] tail found = refl
  walk_up-found absolute (part ∷ parts) tail (inl here) = rw here
  walk_up-found absolute (part ∷ parts) tail (inr none_left) = cc

  -- The walk ends at the nearest entry, and what is pushed back is what it passed.
  walk_up-missing :
      (entry : FilePath) (missing tail : List Text) (canonical : FilePath)
      → (entry_exists entry ≡ true) ⊎ (entry.parts ≡ [])
      → AllMissing entry.absolute missing entry.parts
      → ((walk_up fs entry.absolute (missing ++ entry.parts) tail).0 ≡ entry)
        × (push_all canonical (walk_up fs entry.absolute (missing ++ entry.parts) tail).1
            ≡ push_all (extend canonical missing) tail)
  unfolding walk_up names AllMissing file_name push_all
  walk_up-missing entry [] tail canonical found missed =
      rw (walk_up-found entry.absolute entry.parts tail found) (refl, refl)
  walk_up-missing entry (part ∷ missing) tail canonical found (away, missed) =
      elim (Bool-cases (is_name part)) [
        | inl name ↦
            rw (away, name) (walk_up-missing entry missing (part ∷ tail) canonical found missed)
        | inr special ↦
            rw (away, special) (walk_up-missing entry missing tail canonical found missed)
      ]

  -- The walk up from a path.
  walk_up-Nearest :
      (path entry canonical : FilePath) (missing : List Text)
      → Nearest path missing entry
      → ((walk_up fs path.absolute path.parts []).0 ≡ entry)
        × (push_all canonical (walk_up fs path.absolute path.parts []).1 ≡ extend canonical missing)
  unfolding push_all
  walk_up-Nearest path entry canonical missing near =
      rw (near.absolute, near.parts)
        (walk_up-missing entry missing [] canonical near.found near.missed)

  -- One level of the resolution, at an entry that the system resolves.
  pub canonicalize_bounded-Resolves :
      (n : ℕ) (path canonical : FilePath) (missing : List Text)
      → Resolves path missing canonical
      → canonicalize_bounded fs (suc n) path ≡ ok (extend canonical missing)
  unfolding canonicalize_bounded
  canonicalize_bounded-Resolves n path canonical missing r =
      let (same, pushed) = walk_up-Nearest r.from r.entry canonical missing r.nearest in
      rw (r.made, same, r.resolved, pushed)

  -- One level of the resolution, at a broken link.
  pub canonicalize_bounded-BrokenLink :
      (n : ℕ) (path next : FilePath) (missing : List Text)
      → BrokenLink path missing next
      → canonicalize_bounded fs (suc n) path
        ≡ (canonicalize_bounded fs n next >>= λ canonical. ok (extend canonical missing))
  unfolding canonicalize_bounded
  canonicalize_bounded-BrokenLink n path next missing l =
      let walked = λ (c : FilePath). walk_up-Nearest l.from l.entry c missing l.nearest in
      let same = (walked l.from).0 in
      rw (l.made, same, l.broken, same, l.points, l.onwards)
        (elim (Result-cases (canonicalize_bounded fs n next)) [
          | inl (c, reached) ↦ rw (reached, (walked c).1) refl
          | inr (e, lost) ↦ rw lost refl
        ])

  -- One level of the resolution, at an entry that is neither resolved nor read as a link.
  pub canonicalize_bounded-unreadable :
      (n : ℕ) (path from entry : FilePath) (missing : List Text) {reason error : Text}
      → make_absolute fs path ≡ ok from
      → Nearest from missing entry
      → canonicalize entry ≡ err reason
      → read_link entry ≡ err error
      → canonicalize_bounded fs (suc n) path ≡ err error
  unfolding canonicalize_bounded
  canonicalize_bounded-unreadable n path from entry missing made near broken unreadable =
      let same = (walk_up-Nearest from entry from missing near).0 in
      rw (made, same, broken, same, unreadable) refl
