-- ===== src/Store/Guard.antt =====
-- src/store/path.rs: the refusal of a path that resolves inside the `partitions` directory of
-- another keyspace. A path is what `Path::components` makes of it, and the file system is what its
-- calls answer while the guard runs.
pub mod Chains
pub mod Laws
use epistole.Prelude.{
  ℕ, zero, suc, ◌-◌, Bool, true, false, ◌||◌, not, if◌then◌else◌, Option, none, some, List, [], ◌∷◌,
  ◌++◌, Text, text, text_eq, Result, ok, err, map_err,
}
use epistole.Prelude.Results.{◌>>=◌}
use epistole.Error.{Error, store}

-- `std::path::Path`: whether it starts at the root, and its components, the last one first.
pub record FilePath : Type 0 where
  pub absolute : Bool
  pub parts : List Text

-- `symlink_metadata(p).is_ok()`, `std::fs::canonicalize` and `read_link`, `std::env::current_dir`
-- and `Path::display`; an error is its display.
pub record FileSystem : Type 0 where
  pub entry_exists : FilePath → Bool
  pub canonicalize : FilePath → Result Text FilePath
  pub read_link : FilePath → Result Text FilePath
  pub current_dir : Result Text FilePath
  pub display : FilePath → Text

-- A component that is a name, neither `..` nor `.`.
unfoldable pub is_name : Text → Bool
is_name part = not (text_eq part (text "..") || text_eq part (text "."))

-- `Path::file_name` of a path with those components.
unfoldable pub file_name : List Text → Option Text
file_name [] = none
file_name (part ∷ parts) = if is_name part then some part else none

-- The components of a path that is joined to another: a `.` in front goes.
unfoldable pub drop_here : List Text → List Text
drop_here [] = []
drop_here (part ∷ []) = if text_eq part (text ".") then [] else part ∷ []
drop_here (part ∷ part' ∷ parts) = part ∷ drop_here (part' ∷ parts)

-- `Path::join`
unfoldable pub join : FilePath → FilePath → FilePath
unfolding drop_here
join base path =
    if path.absolute
    then path
    else record { absolute = base.absolute; parts = drop_here path.parts ++ base.parts }

-- `PathBuf::push` of names, the first one first.
unfoldable pub push_all : FilePath → List Text → FilePath
push_all path [] = path
push_all path (name ∷ names) = push_all (record path { parts = name ∷ path.parts }) names

abbrev pub max_symlink_hops : ℕ
max_symlink_hops = 40

-- An em dash.
abbrev dash : Text
dash = 0xe2 ∷ 0x80 ∷ 0x94 ∷ []

-- `resolved_target` of `canonicalize_bounded`
unfoldable pub resolved_target : FilePath → FilePath → FilePath
unfolding join
resolved_target existing target = elim existing.parts [
  | [] ↦ target
  | _ ∷ above ↦ join (record existing { parts = above }) target
]

-- The loop of the guard over `p`, `p.parent()` and so on, for the components of `p`.
unfoldable pub in_partitions : List Text → Bool
unfolding file_name
in_partitions [] = false
in_partitions (part ∷ parts) = elim (file_name (part ∷ parts)) [
  | none ↦ in_partitions parts
  | some name ↦ text_eq name (text "partitions") || in_partitions parts
]

abbrev pub parent_parts : List Text → List Text
parent_parts [] = []
parent_parts (_ ∷ parts) = parts

module _ (fs : FileSystem) where
  open fs use {entry_exists, canonicalize, read_link, current_dir, display}

  -- `absolute` of `canonicalize_bounded`
  unfoldable pub make_absolute : FilePath → Result Text FilePath
  unfolding join
  make_absolute path = if path.absolute then ok path else current_dir >>= λ dir. ok (join dir path)

  -- The loop that walks up to the first entry that exists. It gives that entry and the names that
  -- it passed, the one below the entry first.
  unfoldable pub walk_up : Bool → List Text → List Text → FilePath × List Text
  unfolding file_name
  walk_up absolute [] tail = (record { absolute = absolute; parts = [] }, tail)
  walk_up absolute (part ∷ parts) tail =
      let above =
        walk_up absolute parts
          (elim (file_name (part ∷ parts)) [ none ↦ tail | some name ↦ name ∷ tail ]) in
      if entry_exists (record { absolute = absolute; parts = part ∷ parts })
      then (record { absolute = absolute; parts = part ∷ parts }, tail)
      else above

  unfoldable pub too_many_links : FilePath → Text
  too_many_links path =
      text "symlink chain at "
      ++ display path
      ++ text " exceeded 40 hops "
      ++ dash
      ++ text " the path is circular or too deeply linked"

  -- `hops_left` is `MAX_SYMLINK_HOPS + 1 - hops`.
  unfoldable pub canonicalize_bounded : ℕ → FilePath → Result Text FilePath
  unfolding too_many_links make_absolute walk_up resolved_target push_all
  canonicalize_bounded zero path = err (too_many_links path)
  canonicalize_bounded (suc hops_left) path = make_absolute path >>= λ absolute.
      let (existing, tail) = walk_up absolute.absolute absolute.parts [] in
      let followed = read_link existing >>= λ target.
      canonicalize_bounded hops_left (resolved_target existing target) in
      elim (canonicalize existing) [
        | ok canonical ↦ ok (push_all canonical tail)
        | err _ ↦ followed >>= λ canonical. ok (push_all canonical tail)
      ]

  unfoldable pub canonicalize_with_nonexistent : FilePath → Result Text FilePath
  unfolding canonicalize_bounded
  canonicalize_with_nonexistent = canonicalize_bounded (suc max_symlink_hops)

  unfoldable pub refusal : FilePath → FilePath → Text
  refusal path canonical =
      text "refusing to open: "
      ++ display path
      ++ text " canonicalizes to "
      ++ display canonical
      ++ text " which is inside a parent keyspace's partitions/ directory (nested keyspaces trap "
      ++ text "lsm-tree's V1-format check; pick a path outside any existing fjall keyspace "
      ++ dash
      ++ text " see feedback_fjall_nested_keyspace_pitfall.md)"

  unfoldable pub guard_against_nested_keyspace : FilePath → Result Error (Unit {0})
  unfolding canonicalize_with_nonexistent in_partitions refusal
  guard_against_nested_keyspace path =
      map_err (canonicalize_with_nonexistent path)
        (λ e. store (text "canonicalize " ++ display path ++ text ": " ++ e))
      >>= λ canonical.
          if in_partitions (parent_parts canonical.parts)
          then err (store (refusal path canonical))
          else ok tt
