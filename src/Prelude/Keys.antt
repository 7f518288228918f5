-- ===== src/Prelude/Keys.antt =====
-- The keys of a keyspace, in the byte order of the database, and the entries that it lists.

use mathlib.Core.Path.{◌≡◌, refl, ap, ◌∙◌}
use mathlib.Core.Logic.{inl, inr}
use mathlib.Core.Bool.{Bool, true, false, ◌&&◌, ◌||◌}
use mathlib.Core.Option.{Option, none, some}
use mathlib.Core.List.{List, [], ◌∷◌, map}
use native.Mathlib.Omega.{arith}
use epistole.Prelude.Tests.{ltb, ◌==◌, if◌then◌else◌, Bool-cases}
use epistole.Prelude.Texts.{Text, text_eq, text_eq_sound, text_eq_refl, All}

-- The order of byte strings.
unfoldable pub text_lt : Text → Text → Bool
text_lt [] [] = false
text_lt [] (b ∷ t) = true
text_lt (a ∷ s) [] = false
text_lt (a ∷ s) (b ∷ t) = ltb a b || (a == b && text_lt s t)

pub text_lt_irrefl : (s : Text) → text_lt s s ≡ false
unfolding text_lt
text_lt_irrefl [] = refl
text_lt_irrefl (a ∷ s) = ground (arith, text_lt_irrefl s)

pub text_lt_trans : (s t u : Text) → text_lt s t ≡ true → text_lt t u ≡ true → text_lt s u ≡ true
unfolding text_lt
text_lt_trans [] [] u h k = k
text_lt_trans [] (b ∷ t) [] h k = k
text_lt_trans [] (b ∷ t) (c ∷ u) h k = refl
text_lt_trans (a ∷ s) [] u h k = cc
text_lt_trans (a ∷ s) (b ∷ t) [] h k = k
text_lt_trans (a ∷ s) (b ∷ t) (c ∷ u) h k = ground (arith, text_lt_trans s t u)

-- Two keys are equal, or one is before the other.
pub text_lt_total : (s t : Text) → text_lt s t ≡ false → text_eq t s ≡ false → text_lt t s ≡ true
unfolding text_lt text_eq
text_lt_total [] [] h k = cc
text_lt_total [] (b ∷ t) h k = cc
text_lt_total (a ∷ s) [] h k = refl
text_lt_total (a ∷ s) (b ∷ t) h k = ground (arith, text_lt_total s t)

pub text_eq_of_lt : (s t : Text) → text_lt s t ≡ true → text_eq s t ≡ false
text_eq_of_lt s t h = elim (Bool-cases (text_eq s t)) [
  | inl same ↦ let e = text_eq_sound s t same in cc (rw e at h, text_lt_irrefl t)
  | inr other ↦ other
]

-- Whether a key is among some keys.
abbrev pub has : List Text → Text → Bool
has [] k = false
has (j ∷ keys) k = text_eq j k || has keys k

-- The key `k` is before each of some keys.
abbrev pub IsBefore : Text → Text → Type 0
IsBefore j k = text_lt j k ≡ true

abbrev pub Ascending : List Text → Type 0
Ascending [] = Unit
Ascending (k ∷ keys) = All (IsBefore k) keys × Ascending keys

abbrev pub Descending : List Text → Type 0
Descending [] = Unit
Descending (k ∷ keys) = All (λ j. IsBefore j k) keys × Descending keys

pub has_of_before : (k : Text) (keys : List Text) → All (IsBefore k) keys → has keys k ≡ false
has_of_before k [] h = refl
has_of_before k (j ∷ keys) (before, h) =
    ground (arith, has_of_before k keys h, text_eq_sound j k, text_lt_irrefl k, before)

-- The value of a key in a list of entries.
unfoldable pub lookup : Text → List (Text × Text) → Option Text
lookup k [] = none
lookup k ((j, v) ∷ entries) = let rest = lookup k entries in if text_eq j k then some v else rest

abbrev pub keys_of : List (Text × Text) → List Text
keys_of [] = []
keys_of ((k, v) ∷ entries) = k ∷ keys_of entries

pub lookup_of_before :
    (k : Text) (entries : List (Text × Text))
    → All (IsBefore k) (keys_of entries)
    → lookup k entries ≡ none
unfolding lookup
lookup_of_before k [] h = refl
lookup_of_before k ((j, v) ∷ entries) (before, h) =
    ground (arith, lookup_of_before k entries h, text_eq_sound j k, text_lt_irrefl k, before)

-- Whether the value of a key is there and passes a test.
abbrev pub passes : (Text → Bool) → Option Text → Bool
passes f none = false
passes f (some v) = f v

-- The keys whose values pass a test.
abbrev pub select : (Text → Bool) → List (Text × Text) → List Text
select f [] = []
select f ((k, v) ∷ entries) = let rest = select f entries in if f v then k ∷ rest else rest

module _ (f : Text → Bool) where
  pub select-All :
      (P : Text → Type 0) (entries : List (Text × Text))
      → All P (keys_of entries)
      → All P (select f entries)
  select-All P [] h = tt
  select-All P ((k, v) ∷ entries) (first, h) = elim (Bool-cases (f v)) [
    | inl passed ↦ rw passed (first, select-All P entries h)
    | inr refused ↦ rw refused (select-All P entries h)
  ]

  pub select-Ascending :
      (entries : List (Text × Text)) → Ascending (keys_of entries) → Ascending (select f entries)
  select-Ascending [] h = tt
  select-Ascending ((k, v) ∷ entries) (first, h) = elim (Bool-cases (f v)) [
    | inl passed ↦ rw passed (select-All (IsBefore k) entries first, select-Ascending entries h)
    | inr refused ↦ rw refused (select-Ascending entries h)
  ]

  -- In a keyspace, the selected keys are those whose rows pass the test.
  pub has-select :
      (k : Text) (entries : List (Text × Text))
      → Ascending (keys_of entries)
      → has (select f entries) k ≡ passes f (lookup k entries)
  unfolding lookup
  has-select k [] h = refl
  has-select k ((j, v) ∷ entries) (first, h) = elim (Bool-cases (text_eq j k)) [
    | inl same ↦
        let e = text_eq_sound j k same in
        let none_left = lookup_of_before k entries (rw (← e) first) in
        let rest = has-select k entries h in
        elim (Bool-cases (f v)) [
          | inl passed ↦ rw (same, passed) (rw same refl)
          | inr refused ↦ rw (same, refused) (rest ∙ ap (passes f) none_left)
        ]
    | inr other ↦
        let rest = has-select k entries h in
        elim (Bool-cases (f v)) [
          | inl passed ↦ rw (other, passed) (rw other rest)
          | inr refused ↦ rw (other, refused) rest
        ]
  ]

-- An entry in front does not change the values of the keys after it.
pub map-lookup-cons {ℓ} :
    {A : Type ℓ} (g : Option Text → A) (j v : Text) (entries : List (Text × Text))
    (keys : List Text)
    → All (IsBefore j) keys
    → map (λ k. g (lookup k ((j, v) ∷ entries))) keys ≡ map (λ k. g (lookup k entries)) keys
unfolding lookup
map-lookup-cons g j v entries [] h = refl
map-lookup-cons g j v entries (k ∷ keys) (before, h) =
    rw (text_eq_of_lt j k before, map-lookup-cons g j v entries keys h) refl

pub lookup-first :
    (k v : Text) (entries : List (Text × Text)) → lookup k ((k, v) ∷ entries) ≡ some v
unfolding lookup
lookup-first k v entries = rw (text_eq_refl k) refl

pub lookup-later :
    (j v k : Text) (entries : List (Text × Text))
    → IsBefore j k
    → lookup k ((j, v) ∷ entries) ≡ lookup k entries
unfolding lookup
lookup-later j v k entries before = rw (text_eq_of_lt j k before) refl
