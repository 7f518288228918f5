-- ===== src/Store/Guard/Laws.antt =====
-- What src/store/path.rs promises: the resolution follows chains of broken links up to its bound
-- and always ends, and the guard looks at where the chain ends.
use epistole.Prelude.{
  ℕ, zero, suc, ◌≤◌, ◌<◌, true, false, ◌||◌, ◌≡◌, refl, ◌≢◌, ◌↔◌, sym, ◌∙◌, ap, inl, inr, List, [],
  ◌∷◌, Text, text, text_eq, text_eq_sound, text_eq_refl, All, ok, err, Result-cases, Bool-cases,
  map_err, arith,
}
use epistole.Prelude.Results.{>>=-eq-ok}
use epistole.Prelude.Effects.{map_err-eq-ok}
use epistole.Store.Guard.{
  FilePath, FileSystem, is_name, file_name, make_absolute, canonicalize_bounded,
  canonicalize_with_nonexistent, too_many_links, in_partitions, guard_against_nested_keyspace,
  resolved_target, parent_parts,
}
use epistole.Store.Guard.Chains.{
  extend, Nearest-exists, Resolves, BrokenLink, Leads, resolves, follows,
  canonicalize_bounded-Resolves, canonicalize_bounded-BrokenLink, canonicalize_bounded-unreadable,
}

-- Whether the loop finds `partitions` among the names of some components.
partitions-is_name : is_name (text "partitions") ≡ true
unfolding is_name text text_eq
partitions-is_name = refl

in_partitions-step :
    (part : Text) (parts : List Text)
    → in_partitions (part ∷ parts) ≡ (text_eq part (text "partitions") || in_partitions parts)
unfolding in_partitions file_name
in_partitions-step part parts = elim (Bool-cases (is_name part)) [
  | inl name ↦ rw (in_partitions, file_name, name) refl
  | inr special ↦ elim (Bool-cases (text_eq part (text "partitions"))) [
    | inl same ↦
        absurd (
          cc
            (special, partitions-is_name, ap is_name (text_eq_sound part (text "partitions") same)))
    | inr other ↦ rw (in_partitions, file_name, special, other) refl
  ]
]

in_partitions_iff :
    (parts : List Text)
    → (in_partitions parts ≡ false) ↔ All (λ part. part ≢ text "partitions") parts
in_partitions_iff [] = (λ h. tt, λ h. (unfold in_partitions in refl))
in_partitions_iff (part ∷ parts) = rw (in_partitions-step part parts) (
    ground (
      arith,
      in_partitions_iff parts,
      text_eq_sound part (text "partitions"),
      text_eq_refl (text "partitions"),
    ))

module _ (fs : FileSystem) where
  open fs use {canonicalize, read_link}

  canonicalize_bounded-Leads :
      (n k : ℕ) (path canonical : FilePath)
      → k < n
      → Leads fs k path canonical
      → canonicalize_bounded fs n path ≡ ok canonical
  canonicalize_bounded-Leads zero k path canonical less leads = elim less [ ]
  canonicalize_bounded-Leads (suc n) _ path _ less (resolves missing r) =
      canonicalize_bounded-Resolves fs n path _ missing r
  canonicalize_bounded-Leads (suc n) _ path _ less (follows missing link leads) =
      rw
        (
          canonicalize_bounded-BrokenLink fs n path _ missing link,
          canonicalize_bounded-Leads n _ _ _ (omega arith) leads,
        )
        refl

  Leads-canonicalize_bounded :
      (n : ℕ) (path canonical : FilePath)
      → canonicalize_bounded fs n path ≡ ok canonical
      → (k : ℕ) × (k < n) × Leads fs k path canonical
  unfolding canonicalize_bounded
  Leads-canonicalize_bounded zero path canonical h = cc
  Leads-canonicalize_bounded (suc n) path canonical h =
      let (from, made, _) = >>=-eq-ok (make_absolute fs path) _ h in
      let (missing, entry, near) = Nearest-exists fs from.absolute from.parts in
      elim (Result-cases (canonicalize entry)) [
        | inl (c, resolved) ↦
            let r : Resolves fs path missing c = record {
              from = from;
              entry = entry;
              made = made;
              nearest = near;
              resolved = resolved;
            } in
            let same : canonical ≡ extend c missing =
              cc (h, canonicalize_bounded-Resolves fs n path c missing r) in
            rw same (0, omega arith, resolves missing r)
        | inr (reason, broken) ↦ elim (Result-cases (read_link entry)) [
          | inl (target, points) ↦
              let l : BrokenLink fs path missing (resolved_target entry target) = record {
                from = from;
                entry = entry;
                target = target;
                reason = reason;
                made = made;
                nearest = near;
                broken = broken;
                points = points;
                onwards = refl;
              } in
              let (c, reached, same) =
                >>=-eq-ok (canonicalize_bounded fs n (resolved_target entry target)) _
                  (sym (canonicalize_bounded-BrokenLink fs n path _ missing l) ∙ h) in
              let (k, less, leads) =
                Leads-canonicalize_bounded n (resolved_target entry target) c reached in
              let end : canonical ≡ extend c missing = cc in
              rw end (suc k, omega arith, follows missing l leads)
          | inr (e, unreadable) ↦ cc (
            h,
            canonicalize_bounded-unreadable fs n path from entry missing made near broken
                unreadable,
          )
        ]
      ]

  -- The resolution of a path returns a canonical path exactly when a chain of at most 40 broken
  -- links leads there: at each link, the path stands below its nearest entry that exists, the names
  -- that are missing below it are kept, and the last entry is one that the system resolves.
  pub canonicalize_with_nonexistent_iff :
      (path canonical : FilePath)
      → (canonicalize_with_nonexistent fs path ≡ ok canonical)
        ↔ ((hops : ℕ) × (hops ≤ 40) × Leads fs hops path canonical)
  unfolding canonicalize_with_nonexistent
  canonicalize_with_nonexistent_iff path canonical = (
    λ h.
        (let (k, less, leads) = Leads-canonicalize_bounded 41 path canonical h in
          (k, omega arith, leads)),
    λ h. canonicalize_bounded-Leads 41 h.0 path canonical (omega arith) h.2,
  )

  -- The paths of `P` are broken links to paths of `P`.
  abbrev pub IsCircular : (FilePath → Type 0) → Type 0
  IsCircular P =
      (path : FilePath)
      → P path
      → (missing : List Text) × (next : FilePath) × BrokenLink fs path missing next × P next

  circular_ends :
      (P : FilePath → Type 0) (n : ℕ) (path : FilePath)
      → IsCircular P
      → P path
      → (last : FilePath) × P last × (canonicalize_bounded fs n path ≡ err (too_many_links fs last))
  circular_ends P zero path circular inside = (path, inside, (unfold canonicalize_bounded in refl))
  circular_ends P (suc n) path circular inside =
      let (missing, next, link, stays) = circular path inside in
      let (last, within, ended) = circular_ends P n next circular stays in
      (last, within, rw (canonicalize_bounded-BrokenLink fs n path next missing link, ended) refl)

  -- Links in a circle end in an error. From a path of a set in which each path is a broken link to
  -- a path of the set, the resolution ends, with the error that names a path of the set and says
  -- that its chain of links is too long.
  pub canonicalize_with_nonexistent-circular :
      (P : FilePath → Type 0) (path : FilePath)
      → IsCircular P
      → P path
      → (last : FilePath) × P last
        × (canonicalize_with_nonexistent fs path ≡ err (too_many_links fs last))
  unfolding canonicalize_with_nonexistent
  canonicalize_with_nonexistent-circular P path circular inside =
      circular_ends P 41 path circular inside

  -- The guard accepts a path exactly when at most 40 broken links lead from it to a canonical path
  -- none of whose components above the last is `partitions`.
  pub guard_against_nested_keyspace_iff :
      (path : FilePath)
      → (guard_against_nested_keyspace fs path ≡ ok tt) ↔ (
          (hops : ℕ) × (canonical : FilePath) × (hops ≤ 40)
          × Leads fs hops path canonical
          × All (λ part. part ≢ text "partitions") (parent_parts canonical.parts))
  unfolding guard_against_nested_keyspace
  guard_against_nested_keyspace_iff path = (
    λ h.
        let (canonical, mapped, passed) =
          >>=-eq-ok (map_err (canonicalize_with_nonexistent fs path) _) _ h in
        let (hops, few, leads) =
          (canonicalize_with_nonexistent_iff path canonical).0 (map_err-eq-ok _ _ mapped) in
        elim (Bool-cases (in_partitions (parent_parts canonical.parts))) [
          | inl inside ↦ cc (rw inside at passed)
          | inr outside ↦ (hops, canonical, few, leads, (in_partitions_iff _).0 outside)
        ],
    λ (hops, canonical, few, leads, outside).
        rw
          (
            (canonicalize_with_nonexistent_iff path canonical).1 (hops, few, leads),
            (in_partitions_iff _).1 outside,
          )
          refl,
  )
