-- ===== src/Tests/Paths.antt =====
-- The theorems about src/store/path.rs on a file system with a directory `/srv`, a link `/new` to
-- `srv/store` that does not exist yet, and two links `/a` and `/b` to each other.
use epistole.Prelude.{
  ℕ, ◌≤◌, Bool, true, false, ◌||◌, ◌≡◌, refl, ◌≢◌, ◌↔◌, ◌⊎◌, inl, inr, List, [], ◌∷◌, Text, text,
  text_eq, if◌then◌else◌, All, Result, ok, err,
}
use epistole.Store.Guard.{
  FilePath, FileSystem, is_name, file_name, drop_here, join, push_all, make_absolute, walk_up,
  resolved_target, canonicalize_bounded, canonicalize_with_nonexistent, too_many_links,
  guard_against_nested_keyspace, parent_parts,
}
use epistole.Store.Guard.Chains.{AllMissing, Leads}
use epistole.Store.Guard.Laws.{
  canonicalize_with_nonexistent_iff, canonicalize_with_nonexistent-circular, IsCircular,
  guard_against_nested_keyspace_iff,
}

abbrev pub at_root : List Text → FilePath
at_root parts = record { absolute = true; parts = parts }

abbrev pub part_exists : List Text → Bool
part_exists [] = true
part_exists (part ∷ []) =
    text_eq part (text "srv")
    || text_eq part (text "new")
    || text_eq part (text "a")
    || text_eq part (text "b")
part_exists _ = false

abbrev pub link_target : List Text → Result Text FilePath
link_target [] = err (text "Invalid argument")
link_target (part ∷ parts) =
    if text_eq part (text "new")
    then ok (record { absolute = false; parts = text "store" ∷ text "srv" ∷ [] })
    else if text_eq part (text "a")
    then ok (at_root (text "b" ∷ []))
    else if text_eq part (text "b")
    then ok (at_root (text "a" ∷ []))
    else err (text "Invalid argument")

abbrev pub system_target : List Text → Result Text FilePath
system_target [] = ok (at_root [])
system_target (part ∷ parts) =
    if text_eq part (text "srv")
    then ok (at_root (text "srv" ∷ []))
    else err (text "No such file or directory")

abbrev pub disk : FileSystem
disk = record {
  entry_exists = λ path. part_exists path.parts;
  canonicalize = λ path. system_target path.parts;
  read_link = λ path. link_target path.parts;
  current_dir = ok (at_root []);
  display = λ path. text "path";
}

canonicalize_with_nonexistent-new :
    canonicalize_with_nonexistent disk (at_root (text "sends" ∷ text "new" ∷ []))
    ≡ ok (at_root (text "sends" ∷ text "store" ∷ text "srv" ∷ []))
unfolding canonicalize_with_nonexistent canonicalize_bounded make_absolute walk_up file_name is_name
    resolved_target join drop_here push_all text text_eq
canonicalize_with_nonexistent-new = refl

canonicalize_with_nonexistent_iff_example :
    (canonicalize_with_nonexistent disk (at_root (text "sends" ∷ text "new" ∷ []))
      ≡ ok (at_root (text "sends" ∷ text "store" ∷ text "srv" ∷ [])))
    ↔ ((hops : ℕ) × (hops ≤ 40)
        × Leads disk hops
            (at_root (text "sends" ∷ text "new" ∷ []))
            (at_root (text "sends" ∷ text "store" ∷ text "srv" ∷ [])))
canonicalize_with_nonexistent_iff_example =
    canonicalize_with_nonexistent_iff disk (at_root (text "sends" ∷ text "new" ∷ []))
      (at_root (text "sends" ∷ text "store" ∷ text "srv" ∷ []))

guard_against_nested_keyspace_iff_example :
    (guard_against_nested_keyspace disk (at_root (text "new" ∷ [])) ≡ ok tt) ↔ (
      (hops : ℕ) × (canonical : FilePath) × (hops ≤ 40)
      × Leads disk hops (at_root (text "new" ∷ [])) canonical
      × All (λ part. part ≢ text "partitions") (parent_parts canonical.parts))
guard_against_nested_keyspace_iff_example =
    guard_against_nested_keyspace_iff disk (at_root (text "new" ∷ []))

abbrev Loops : FilePath → Type 0
Loops path = (path ≡ at_root (text "a" ∷ [])) ⊎ (path ≡ at_root (text "b" ∷ []))

Loops-IsCircular : IsCircular disk Loops
unfolding make_absolute AllMissing resolved_target join text text_eq
Loops-IsCircular path (inl a) = rw a (
  [],
  at_root (text "b" ∷ []),
  record {
    from = at_root (text "a" ∷ []);
    entry = at_root (text "a" ∷ []);
    target = at_root (text "b" ∷ []);
    reason = text "No such file or directory";
    made = refl;
    nearest = record { absolute = refl; parts = refl; found = inl refl; missed = tt };
    broken = refl;
    points = refl;
    onwards = refl;
  },
  inr refl,
)
Loops-IsCircular path (inr b) = rw b (
  [],
  at_root (text "a" ∷ []),
  record {
    from = at_root (text "b" ∷ []);
    entry = at_root (text "b" ∷ []);
    target = at_root (text "a" ∷ []);
    reason = text "No such file or directory";
    made = refl;
    nearest = record { absolute = refl; parts = refl; found = inl refl; missed = tt };
    broken = refl;
    points = refl;
    onwards = refl;
  },
  inl refl,
)

two_links_in_a_circle :
    (last : FilePath) × Loops last
    × (canonicalize_with_nonexistent disk (at_root (text "a" ∷ []))
        ≡ err (too_many_links disk last))
two_links_in_a_circle =
    canonicalize_with_nonexistent-circular disk Loops (at_root (text "a" ∷ [])) Loops-IsCircular
      (inl refl)
