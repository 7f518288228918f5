-- ===== src/Examples/Tables.antt =====
-- Tables in memory, and their entries in key order.
use epistole.Prelude.{
  ◌≡◌, refl, true, if◌then◌else◌, Option, none, some, List, [], ◌∷◌, map, Text, text_eq,
  text_eq_sound, text_eq_refl, arith, Bool-cases, inl, inr, Result, ok, All, All-map,
}
use epistole.Prelude.Keys.{
  text_lt, text_lt_trans, text_lt_total, IsBefore, Ascending, keys_of, lookup,
}
use epistole.Platform.{IsListing}

abbrev pub Table : Type 0
Table = List (Text × Text)

unfoldable pub find : Text → Table → Option Text
find k [] = none
find k ((j, v) ∷ t) = if text_eq j k then some v else find k t

unfoldable pub without : Text → Table → Table
without k [] = []
without k ((j, v) ∷ t) = let rest = without k t in if text_eq j k then rest else (j, v) ∷ rest

pub text_eq_cases : (j k : Text) → (text_eq j k ≡ true → j ≡ k) × (j ≡ k → text_eq j k ≡ true)
text_eq_cases j k = (text_eq_sound j k, λ e. rw e (text_eq_refl k))

pub find-without :
    (k i : Text) (t : Table) → find i (without k t) ≡ (if text_eq k i then none else find i t)
unfolding find without
find-without k i [] = ground arith
find-without k i ((j, v) ∷ t) =
    ground (arith, find-without k i t, text_eq_cases k i, text_eq_cases j k, text_eq_cases j i)

-- An entry put into a sorted table, in place of one with the same key.
unfoldable pub put : Text → Text → Table → Table
put k v [] = (k, v) ∷ []
put k v ((j, x) ∷ t) =
    let rest = put k v t in
    if text_eq j k then (k, v) ∷ t else if text_lt k j then (k, v) ∷ (j, x) ∷ t else (j, x) ∷ rest

unfoldable pub sort : Table → Table
unfolding put
sort [] = []
sort ((k, v) ∷ t) = put k v (sort t)

lookup-put :
    (k v i : Text) (t : Table) → lookup i (put k v t) ≡ (if text_eq k i then some v else lookup i t)
unfolding lookup put
lookup-put k v i [] = refl
lookup-put k v i ((j, x) ∷ t) =
    ground (arith, lookup-put k v i t, text_eq_cases k i, text_eq_cases j k, text_eq_cases j i)

lookup-sort : (i : Text) (t : Table) → find i t ≡ lookup i (sort t)
unfolding lookup sort find
lookup-sort i [] = refl
lookup-sort i ((k, v) ∷ t) = rw (lookup-put k v i (sort t), lookup-sort i t) refl

put-All :
    (P : Text → Type 0) (k v : Text) (t : Table)
    → P k
    → All P (keys_of t)
    → All P (keys_of (put k v t))
unfolding put
put-All P k v [] h hs = (h, tt)
put-All P k v ((j, x) ∷ t) h (hj, hs) = elim (Bool-cases (text_eq j k)) [
  | inl same ↦ rw same (h, hs)
  | inr other ↦ elim (Bool-cases (text_lt k j)) [
    | inl before ↦ rw (other, before) (h, (hj, hs))
    | inr after ↦ rw (other, after) (hj, put-All P k v t h hs)
  ]
]

put-Ascending : (k v : Text) (t : Table) → Ascending (keys_of t) → Ascending (keys_of (put k v t))
unfolding put
put-Ascending k v [] h = (tt, tt)
put-Ascending k v ((j, x) ∷ t) (first, rest) = elim (Bool-cases (text_eq j k)) [
  | inl same ↦ rw same (rw (← text_eq_sound j k same) (first, rest))
  | inr other ↦ elim (Bool-cases (text_lt k j)) [
    | inl before ↦
        rw (other, before)
          ((before, All-map (λ i h. text_lt_trans k j i before h) (keys_of t) first), (first, rest))
    | inr after ↦
        rw (other, after)
          (
            put-All (IsBefore j) k v t (text_lt_total k j after other) first,
            put-Ascending k v t rest,
          )
  ]
]

sort-Ascending : (t : Table) → Ascending (keys_of (sort t))
unfolding sort
sort-Ascending [] = tt
sort-Ascending ((k, v) ∷ t) = put-Ascending k v (sort t) (sort-Ascending t)

abbrev pub listed : Text × Text → Result Text (Text × Text)
listed e = ok e

map-ok-injective : (t u : Table) → map listed t ≡ map listed u → t ≡ u
map-ok-injective [] [] h = refl
map-ok-injective [] (y ∷ u) h = cc
map-ok-injective (x ∷ t) [] h = cc
map-ok-injective (x ∷ t) (y ∷ u) h = ground (arith, map-ok-injective t u)

pub sort-IsListing :
    (t entries : Table)
    → map listed (sort t) ≡ map listed entries
    → IsListing (λ k. find k t) entries
sort-IsListing t entries h =
    rw (← map-ok-injective (sort t) entries h)
      (record { ascending = sort-Ascending t; row_at = λ k. lookup-sort k t })
