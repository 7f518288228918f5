-- ===== src/Prelude/Newest.antt =====
-- The last keys of a keyspace, the last one first.
use epistole.Prelude.Tests.{Bool-cases}
use epistole.Prelude.Texts.{Text, text_eq, text_eq_sound, length, All, All-append}
use epistole.Prelude.Keys.{IsBefore, Ascending, Descending, has}
use Prim.Native.Nat.{ℕ, zero, suc, ◌≤◌}
use mathlib.Core.Path.{◌≡◌, refl, ap, subst}
use mathlib.Core.Logic.{inl, inr}
use mathlib.Core.Bool.{true, false, ◌||◌}
use mathlib.Core.List.{List, [], ◌∷◌, ◌++◌, map, reverse, reverse-cons}
use native.Mathlib.Omega.{arith}

-- `Iterator::take`
abbrev pub take {ℓ} : {A : Type ℓ} → ℕ → List A → List A
take zero xs = []
take (suc n) [] = []
take (suc n) (x ∷ xs) = x ∷ take n xs

module _ {ℓ κ} {A : Type ℓ} (P : A → Type κ) where
  pub take-All : (n : ℕ) (xs : List A) → All P xs → All P (take n xs)
  take-All zero xs h = tt
  take-All (suc n) [] h = tt
  take-All (suc n) (x ∷ xs) (p, h) = (p, take-All n xs h)

  pub reverse-All : (xs : List A) → All P xs → All P (reverse xs)
  reverse-All [] h = tt
  reverse-All (x ∷ xs) (p, h) =
      rw (reverse-cons x xs) (All-append P (reverse xs) (x ∷ []) (reverse-All xs h) (p, tt))

module _ {ℓ κ} {A : Type ℓ} {B : Type κ} (f : A → B) where
  pub map-take : (n : ℕ) (xs : List A) → map f (take n xs) ≡ take n (map f xs)
  map-take zero xs = refl
  map-take (suc n) [] = refl
  map-take (suc n) (x ∷ xs) = ap (λ ys. f x ∷ ys) (map-take n xs)

  map-append_one : (xs : List A) (y : A) → map f (xs ++ y ∷ []) ≡ map f xs ++ f y ∷ []
  map-append_one [] y = refl
  map-append_one (x ∷ xs) y = ap (λ ys. f x ∷ ys) (map-append_one xs y)

  pub map-reverse : (xs : List A) → map f (reverse xs) ≡ reverse (map f xs)
  map-reverse [] = refl
  map-reverse (x ∷ xs) =
      rw
        (
          reverse-cons x xs,
          reverse-cons (f x) (map f xs),
          map-append_one (reverse xs) x,
          map-reverse xs,
        )
        refl

pub length-take {ℓ} : {A : Type ℓ} (n : ℕ) (xs : List A) → length (take n xs) ≤ n
length-take zero xs = omega arith
length-take (suc n) [] = omega arith
length-take (suc n) (x ∷ xs) = ground (arith, length-take n xs)

Descending-append_one :
    (keys : List Text) (k : Text)
    → Descending keys
    → All (IsBefore k) keys
    → Descending (keys ++ k ∷ [])
Descending-append_one [] k h l = (tt, tt)
Descending-append_one (j ∷ keys) k (first, h) (before, l) = (
  All-append (λ i. IsBefore i j) keys (k ∷ []) first (before, tt),
  Descending-append_one keys k h l,
)

pub reverse-Descending : (keys : List Text) → Ascending keys → Descending (reverse keys)
reverse-Descending [] h = tt
reverse-Descending (k ∷ keys) (first, h) = rw (reverse-cons k keys) (
    Descending-append_one (reverse keys) k (reverse-Descending keys h)
      (reverse-All (IsBefore k) keys first))

pub take-Descending : (n : ℕ) (keys : List Text) → Descending keys → Descending (take n keys)
take-Descending zero keys h = tt
take-Descending (suc n) [] h = tt
take-Descending (suc n) (k ∷ keys) (first, h) = (take-All _ n keys first, take-Descending n keys h)

has-append_one :
    (keys : List Text) (j k : Text) → has (keys ++ j ∷ []) k ≡ (has keys k || text_eq j k)
has-append_one [] j k = ground arith
has-append_one (i ∷ keys) j k = ground (arith, has-append_one keys j k)

pub has-reverse : (keys : List Text) (k : Text) → has (reverse keys) k ≡ has keys k
has-reverse [] k = refl
has-reverse (j ∷ keys) k =
    rw (reverse-cons j keys, has-append_one (reverse keys) j k, has-reverse keys k) (ground arith)

-- A key that `take` drops from a descending list is before those it keeps, which are as many as
-- were asked for.
pub take-drops :
    (n : ℕ) (keys : List Text) (k : Text)
    → Descending keys
    → has keys k ≡ true
    → has (take n keys) k ≡ false
    → (length (take n keys) ≡ n) × All (IsBefore k) (take n keys)
take-drops zero keys k h there gone = (refl, tt)
take-drops (suc n) [] k h there gone = cc
take-drops (suc n) (j ∷ keys) k (first, h) there gone = elim (Bool-cases (text_eq j k)) [
  | inl same ↦ ground (arith, same)
  | inr other ↦
      let later : has keys k ≡ true = ground (arith, other) in
      let (full, below) = take-drops n keys k h later (ground (arith, other)) in
      (ap suc full, (has-All (λ i. IsBefore i j) keys first later, below))
]
  where
    has-All :
        (P : Text → Type 0) (keys : List Text) → All P keys → {k : Text} → has keys k ≡ true → P k
    has-All P [] h {k} there = cc
    has-All P (i ∷ keys) (p, h) {k} there = elim (Bool-cases (text_eq i k)) [
      | inl same ↦ subst P (text_eq_sound i k same) p
      | inr other ↦ has-All P keys h (ground (arith, other))
    ]
