-- ===== src/Prelude/Utf8.antt =====
-- `std::str::from_utf8`: which byte sequences are the bytes of a `str`.
use Prim.Native.Nat.{ℕ, zero, suc, ◌<◌}
use mathlib.Core.Path.{◌≡◌, refl}
use mathlib.Core.Logic.{inl, inr}
use mathlib.Core.Bool.{Bool, true, false, ◌&&◌, ◌||◌}
use mathlib.Core.Option.{Option, none, some}
use mathlib.Core.List.{[], ◌∷◌}
use native.Mathlib.Omega.{arith}
use epistole.Prelude.Tests.{ltb, leb, ◌==◌, if◌then◌else◌, Option-cases}
use epistole.Prelude.Texts.{Text, All}

-- Between two bytes: how many continuation bytes are due, and the range of the next one.
record State : Type 0 where
  due : ℕ
  low : ℕ
  high : ℕ

abbrev expect : ℕ → ℕ → ℕ → Option State
expect n lo hi = some (record { due = n; low = lo; high = hi })

abbrev between : ℕ → ℕ → ℕ → Bool
between lo hi c = leb lo c && leb c hi

-- A byte that begins a character.
lead : ℕ → Option State
lead c =
    if ltb c 0x80
    then expect 0 0 0
    else if between 0xc2 0xdf c
    then expect 1 0x80 0xbf
    else if c == 0xe0
    then expect 2 0xa0 0xbf
    else if between 0xe1 0xec c || between 0xee 0xef c
    then expect 2 0x80 0xbf
    else if c == 0xed
    then expect 2 0x80 0x9f
    else if c == 0xf0
    then expect 3 0x90 0xbf
    else if between 0xf1 0xf3 c
    then expect 3 0x80 0xbf
    else if c == 0xf4
    then expect 3 0x80 0x8f
    else none

next : State → ℕ → Option State
unfolding lead
next s c = elim s.due [
  | zero ↦ lead c
  | suc n ↦ if between s.low s.high c then expect n 0x80 0xbf else none
]

scan : State → Text → Bool
scan s [] = s.due == 0
scan s (c ∷ cs) = elim (next s c) [ none ↦ false | some t ↦ scan t cs ]

abbrev start : State
start = record { due = 0; low = 0; high = 0 }

unfoldable pub is_utf8 : Text → Bool
unfolding scan next
is_utf8 = scan start

abbrev pub IsAscii : ℕ → Type 0
IsAscii c = c < 128

abbrev pub IsByte : ℕ → Type 0
IsByte c = c < 256

lead_ascii : (c : ℕ) → IsAscii c → lead c ≡ some start
unfolding lead
lead_ascii c h = ground arith

-- ASCII is UTF-8.
pub is_utf8_of_IsAscii : (s : Text) → All IsAscii s → is_utf8 s ≡ true
unfolding is_utf8
is_utf8_of_IsAscii [] h = refl
is_utf8_of_IsAscii (c ∷ s) (p, h) = rw (lead_ascii c p, scan) (is_utf8_of_IsAscii s h)

-- A continuation range within the bytes.
abbrev Fits : State → Type 0
Fits s = s.high < 256

next-Fits : (s : State) (c : ℕ) (t : State) → Fits s → next s c ≡ some t → IsByte c × Fits t
unfolding next lead
next-Fits s c t f h = ground arith

scan-IsByte : (s : State) (cs : Text) → Fits s → scan s cs ≡ true → All IsByte cs
unfolding scan
scan-IsByte s [] f h = tt
scan-IsByte s (c ∷ cs) f h = elim (Option-cases (next s c)) [
  | inl refused ↦ cc (rw (refused, scan) at h)
  | inr (t, taken) ↦
      let (byte, fits) = next-Fits s c t f taken in
      (byte, scan-IsByte t cs fits (rw (taken, scan) at h))
]

-- UTF-8 consists of bytes.
pub IsByte-of_is_utf8 : (s : Text) → is_utf8 s ≡ true → All IsByte s
unfolding is_utf8
IsByte-of_is_utf8 s h = scan-IsByte start s (omega arith) h
