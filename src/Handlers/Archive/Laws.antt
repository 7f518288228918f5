-- ===== src/Handlers/Archive/Laws.antt =====
-- The index of src/handlers/archive.rs: the newest sends, and whether there are more.
use epistole.Prelude.{
  ℕ, zero, suc, ◌+◌, ◌≤◌, ◌≡◌, refl, ap, sym, ◌∙◌, List, [], ◌∷◌, ◌++◌, map, ltb, length, Text, ok,
  arith,
}
use mathlib.Core.List.{reverse, reverse-cons}
use epistole.Prelude.Effects.{>>=-eq-ok}
use epistole.Prelude.Newest.{take}
use epistole.Config.{Config}
use epistole.Platform.{Platform, PlatformLaws, sends}
use epistole.Records.{Send}
use epistole.Store.Scans.{collect, recent_sends}
use epistole.Store.Scans.Recent.{IsNewest, collect-IsNewest, collect-length, collect-take}
use epistole.Handlers.Archive.{Archived, archive_index, index_limit, get}

take-take {ℓ} : {A : Type ℓ} (m n : ℕ) (xs : List A) → m ≤ n → take m (take n xs) ≡ take m xs
take-take zero n xs h = refl
take-take (suc m) zero xs h = absurd (omega arith)
take-take (suc m) (suc n) [] h = refl
take-take (suc m) (suc n) (x ∷ xs) h = ap (λ ys. x ∷ ys) (take-take m n xs (omega arith))

ltb-length-take {ℓ} :
    {A : Type ℓ} (m : ℕ) (xs : List A) → ltb m (length (take (suc m) xs)) ≡ ltb m (length xs)
ltb-length-take m [] = refl
ltb-length-take zero (x ∷ xs) = ground arith
ltb-length-take (suc m) (x ∷ xs) = ground (arith, ltb-length-take m xs)

length-append_one {ℓ} : {A : Type ℓ} (xs : List A) (x : A) → length (xs ++ x ∷ []) ≡ suc (length xs)
length-append_one [] x = refl
length-append_one (y ∷ xs) x = ap suc (length-append_one xs x)

length-reverse {ℓ} : {A : Type ℓ} (xs : List A) → length (reverse xs) ≡ length xs
length-reverse [] = refl
length-reverse (x ∷ xs) =
    rw (reverse-cons x xs, length-append_one (reverse xs) x, length-reverse xs) refl

length-map {ℓ κ} :
    {A : Type ℓ} {B : Type κ} (f : A → B) (xs : List A) → length (map f xs) ≡ length xs
length-map f [] = refl
length-map f (x ∷ xs) = ap suc (length-map f xs)

module _ (p : Platform) (laws : PlatformLaws p) (config : Config) where
  open p use {World, Time, Ulid}

  -- If the keyspace of sends can be read whole and `GET /archive` answers, its page lists the sends
  -- of the newest keys, the newest first: all of them if there are at most 100, else 100, and then
  -- the page says that the list is truncated.
  pub get-IsNewest :
      (w : World) (entries : List (Text × Text)) (a : Archived (Send Ulid Time))
      → (p.iter sends w).0 ≡ map ok entries
      → (get p config w).0 ≡ ok a
      → (keys : List Text) × (shown : List (Send Ulid Time)) × IsNewest p
          (laws.rows w sends)
          100
          keys
          shown
        × (a.page ≡ archive_index config.brand.name shown (ltb 100 (length entries)))
  unfolding get recent_sends
  get-IsNewest w entries a listed h =
      let (out, found, _, answer) = >>=-eq-ok (recent_sends p (index_limit + 1)) _ w h in
      let read = rw listed at found in
      let first = collect-take p 100 (take 101 (reverse (map ok entries))) read in
      let (keys, newest) =
        collect-IsNewest p (laws.rows w sends) 100 entries
          (laws.iter-IsListing sends w entries listed)
          (ap (collect p) (sym (take-take 100 101 (reverse (map ok entries)) (omega arith)))
            ∙ first) in
      let size : ltb 100 (length out) ≡ ltb 100 (length entries) =
        ap (ltb 100) (collect-length p (take 101 (reverse (map ok entries))) read)
        ∙ ltb-length-take 100 (reverse (map ok entries))
        ∙ ap (ltb 100) (length-reverse (map ok entries) ∙ length-map ok entries) in
      let page : a.page ≡ archive_index config.brand.name (take 100 out) (ltb 100 (length out)) =
        cc in
      (keys, take 100 out, newest, page ∙ ap (archive_index config.brand.name (take 100 out)) size)
