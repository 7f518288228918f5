-- ===== src/Config/Secrets/Grammar.antt =====
-- The texts that src/config.rs takes for a reference to the environment, described without its code.
use epistole.Prelude.{
  ℕ, ◌≤◌, ◌≡◌, refl, ap, ◌∙◌, ◌↔◌, ◌⊎◌, inl, inr, ◌++◌, [], ◌∷◌, true, some, Option-cases, Text,
  text, All, arith, Bool-cases,
}
use epistole.Handlers.Bearer.{strip_prefix}
use epistole.Handlers.Bearer.Laws.{strip_prefix-eq-some}
use epistole.Config.Secrets.{
  starts_with, contains, all_name, strip_brace, env_name, is_name, is_valid_env_ref,
}

-- `[A-Z_][A-Z0-9_]*`
abbrev pub IsFirst : ℕ → Type 0
IsFirst c = ((b'A' ≤ c) × (c ≤ b'Z')) ⊎ (c ≡ b'_')

abbrev pub IsLater : ℕ → Type 0
IsLater c = IsFirst c ⊎ ((b'0' ≤ c) × (c ≤ b'9'))

abbrev pub IsEnvName : Text → Type 0
IsEnvName [] = ⊥
IsEnvName (c ∷ s) = IsFirst c × All IsLater s

-- `q` stands somewhere in `s`.
abbrev pub Occurs : Text → Text → Type 0
Occurs q s = (before : Text) × (after : Text) × (s ≡ before ++ (q ++ after))

starts_with-append : (q rest : Text) → starts_with q (q ++ rest) ≡ true
unfolding starts_with
starts_with-append [] rest = refl
starts_with-append (c ∷ q) rest = ground (arith, starts_with-append q rest)

starts_with-eq-true : (q s : Text) → starts_with q s ≡ true → (rest : Text) × (s ≡ q ++ rest)
unfolding starts_with
starts_with-eq-true [] s h = (s, refl)
starts_with-eq-true (c ∷ q) [] h = cc
starts_with-eq-true (c ∷ q) (d ∷ s) h =
    let both : (c ≡ d) × (starts_with q s ≡ true) = ground arith in
    let (rest, same) = starts_with-eq-true q s both.1 in (rest, rw (both.0, same) refl)

contains-Occurs : (q s : Text) → contains q s ≡ true → Occurs q s
unfolding contains
contains-Occurs q [] h = let (rest, same) = starts_with-eq-true q [] h in ([], rest, same)
contains-Occurs q (c ∷ s) h = elim (Bool-cases (starts_with q (c ∷ s))) [
  | inl here ↦ let (rest, same) = starts_with-eq-true q (c ∷ s) here in ([], rest, same)
  | inr later ↦
      let (before, after, same) = contains-Occurs q s (ground arith) in
      (c ∷ before, after, rw same refl)
]

contains_head : (q s : Text) → starts_with q s ≡ true → contains q s ≡ true
unfolding contains
contains_head q [] h = h
contains_head q (c ∷ s) h = rw h refl

contains-append : (q before after : Text) → contains q (before ++ (q ++ after)) ≡ true
unfolding contains
contains-append q [] after = contains_head q (q ++ after) (starts_with-append q after)
contains-append q (c ∷ before) after = ground (arith, contains-append q before after)

-- `contains` finds exactly the texts that occur.
pub contains_iff : (q s : Text) → (contains q s ≡ true) ↔ Occurs q s
contains_iff q s =
    (contains-Occurs q s, λ (before, after, same). rw same (contains-append q before after))

strip_brace-append : (s : Text) → strip_brace (s ++ (b'}' ∷ [])) ≡ some s
unfolding strip_brace
strip_brace-append [] = refl
strip_brace-append (c ∷ []) = refl
strip_brace-append (c ∷ d ∷ s) = rw (strip_brace-append (d ∷ s)) refl

strip_brace-eq-some : (s rest : Text) → strip_brace s ≡ some rest → s ≡ rest ++ (b'}' ∷ [])
unfolding strip_brace
strip_brace-eq-some [] rest h = cc
strip_brace-eq-some (c ∷ []) rest h = ground arith
strip_brace-eq-some (c ∷ d ∷ s) rest h = elim (Option-cases (strip_brace (d ∷ s))) [
  | inl open_ended ↦ cc (rw open_ended at h)
  | inr (r, closed) ↦
      let end : c ∷ r ≡ rest = cc (rw closed at h) in
      rw (← end) (ap (λ t. c ∷ t) (strip_brace-eq-some (d ∷ s) r closed))
]

all_name_iff : (s : Text) → (all_name s ≡ true) ↔ All IsLater s
unfolding all_name
all_name_iff [] = (λ h. tt, λ h. refl)
all_name_iff (c ∷ s) = ground (arith, all_name_iff s)

pub is_name_iff : (s : Text) → (is_name s ≡ true) ↔ IsEnvName s
unfolding is_name
is_name_iff [] = (λ h. cc, λ h. absurd h)
is_name_iff (c ∷ s) = ground (arith, all_name_iff s)

-- `${` and `}` round a name.
abbrev pub reference : Text → Text
reference name = text "${" ++ (name ++ (b'}' ∷ []))

pub env_name-reference : (name : Text) → env_name (reference name) ≡ some name
unfolding env_name strip_prefix text
env_name-reference name = strip_brace-append name

pub env_name-eq-some : (raw name : Text) → env_name raw ≡ some name → raw ≡ reference name
unfolding env_name
env_name-eq-some raw name h = elim (Option-cases (strip_prefix (text "${") raw)) [
  | inl other ↦ cc (rw other at h)
  | inr (s, begun) ↦
      let closed = strip_brace-eq-some s name (rw begun at h) in
      strip_prefix-eq-some (text "${") raw s begun ∙ ap (λ t. text "${" ++ t) closed
]

pub reference-Occurs : (name : Text) → Occurs (text "${") (reference name)
reference-Occurs name = ([], name ++ (b'}' ∷ []), refl)

-- `is_valid_env_ref` accepts exactly the references whose name is in the grammar.
pub is_valid_env_ref_iff :
    (raw : Text)
    → (is_valid_env_ref raw ≡ true) ↔ ((name : Text) × (raw ≡ reference name) × IsEnvName name)
unfolding is_valid_env_ref
is_valid_env_ref_iff raw = (
  λ h. elim (Option-cases (env_name raw)) [
    | inl other ↦ cc (rw other at h)
    | inr (name, read) ↦ (name, env_name-eq-some raw name read, (is_name_iff name).0 (rw read at h))
  ],
  λ (name, same, named). rw (same, env_name-reference name) ((is_name_iff name).1 named),
)
