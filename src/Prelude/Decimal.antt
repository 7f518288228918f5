-- ===== src/Prelude/Decimal.antt =====
-- `u64` and `i64` printed by `Display` and read by `str::parse`.
use Prim.Native.Nat.{ℕ, zero, suc, ◌+◌, ◌-◌, ◌*◌, ◌/◌, ◌%◌, ◌^◌, ◌≤◌, ◌<◌}
use mathlib.Core.Path.{◌≡◌, refl, ap, ◌∙◌}
use mathlib.Core.Logic.{◌≢◌, inl, inr}
use mathlib.Core.Bool.{Bool, ◌&&◌}
use mathlib.Core.Option.{Option, none, some}
use mathlib.Core.List.{[], ◌∷◌, ◌++◌}
use native.Mathlib.Omega.{arith}
use epistole.Prelude.Tests.{ltb, leb, ◌==◌, if◌then◌else◌, Bool-cases, Option-cases, ltb→lt}
use epistole.Prelude.Texts.{Text, All, All-append, All-map}
use epistole.Prelude.Int.{ℤ, pos, negsuc, IsI64}

-- The digits of `n`, most significant first, in at most `fuel` places.
decimal : ℕ → ℕ → Text
decimal zero n = []
decimal (suc fuel) n =
    let front = decimal fuel (n / 10) ++ (b'0' + n % 10) ∷ [] in
    if ltb n 10 then (b'0' + n) ∷ [] else front

unfoldable pub show_u64 : ℕ → Text
unfolding decimal
show_u64 n = decimal (suc n) n

unfoldable pub show_i64 : ℤ → Text
unfolding show_u64
show_i64 (pos n) = show_u64 n
show_i64 (negsuc n) = b'-' ∷ show_u64 (suc n)

abbrev is_digit : ℕ → Bool
is_digit c = leb b'0' c && leb c b'9'

-- One more digit, refused when the value passes `most`.
push_digit : ℕ → ℕ → ℕ → Option ℕ
push_digit most n c =
    if is_digit c && leb (n * 10 + (c - b'0')) most then some (n * 10 + (c - b'0')) else none

abbrev bind {ℓ κ} : {A : Type ℓ} {B : Type κ} → Option A → (A → Option B) → Option B
bind none f = none
bind (some a) f = f a

parse_from : ℕ → ℕ → Text → Option ℕ
parse_from most n [] = some n
parse_from most n (c ∷ s) = elim (push_digit most n c) [
  | none ↦ none
  | some m ↦ parse_from most m s
]

-- The digits of a number that is at most `most`; at least one is needed.
parse_digits : ℕ → Text → Option ℕ
unfolding parse_from push_digit
parse_digits most [] = none
parse_digits most (c ∷ s) = parse_from most 0 (c ∷ s)

unfoldable pub parse_u64 : Text → Option ℕ
unfolding parse_digits
parse_u64 [] = none
parse_u64 (c ∷ s) =
    if c == b'+' then parse_digits (2 ^ 64 - 1) s else parse_digits (2 ^ 64 - 1) (c ∷ s)

abbrev positive : Option ℕ → Option ℤ
positive none = none
positive (some n) = some (pos n)

abbrev negative : Option ℕ → Option ℤ
negative none = none
negative (some zero) = some (pos 0)
negative (some (suc n)) = some (negsuc n)

unfoldable pub parse_u8 : Text → Option ℕ
unfolding parse_digits
parse_u8 [] = none
parse_u8 (c ∷ s) = if c == b'+' then parse_digits 255 s else parse_digits 255 (c ∷ s)

unfoldable pub parse_i64 : Text → Option ℤ
unfolding parse_digits
parse_i64 [] = none
parse_i64 (c ∷ s) =
    if c == b'-'
    then negative (parse_digits (2 ^ 63) s)
    else if c == b'+'
    then positive (parse_digits (2 ^ 63 - 1) s)
    else positive (parse_digits (2 ^ 63 - 1) (c ∷ s))

parse_from-append :
    (most n : ℕ) (s t : Text)
    → parse_from most n (s ++ t) ≡ bind (parse_from most n s) (λ m. parse_from most m t)
unfolding parse_from
parse_from-append most n [] t = refl
parse_from-append most n (c ∷ s) t = elim (Option-cases (push_digit most n c)) [
  | inl stopped ↦ rw (stopped, parse_from)
  | inr (m, pushed) ↦ rw (pushed, parse_from) (parse_from-append most m s t)
]

push_last : (most n : ℕ) → n ≤ most → push_digit most (n / 10) (b'0' + n % 10) ≡ some n
unfolding push_digit
push_last most n k = ground arith

push_only : (most n : ℕ) → n ≤ most → n < 10 → push_digit most 0 (b'0' + n) ≡ some n
unfolding push_digit
push_only most n k h = ground arith

parse_from-decimal :
    (most fuel n : ℕ) → n < fuel → n ≤ most → parse_from most 0 (decimal fuel n) ≡ some n
unfolding decimal parse_from
parse_from-decimal most zero n h k = elim h [ ]
parse_from-decimal most (suc fuel) n h k = elim (Bool-cases (ltb n 10)) [
  | inl small ↦ rw small (rw (push_only most n k (ltb→lt n 10 small), parse_from))
  | inr large ↦
      rw (large, parse_from-append)
        (rw (parse_from-decimal most fuel (n / 10) (ground arith) (omega arith))
          (rw (push_last most n k, parse_from)))
]

-- A decimal digit.
abbrev pub IsDigit : ℕ → Type 0
IsDigit c = (b'0' ≤ c) × (c ≤ b'9')

decimal-IsDigit : (fuel n : ℕ) → All IsDigit (decimal fuel n)
unfolding decimal
decimal-IsDigit zero n = tt
decimal-IsDigit (suc fuel) n = elim (Bool-cases (ltb n 10)) [
  | inl small ↦ rw small (ground arith)
  | inr large ↦ rw large (
      All-append IsDigit (decimal fuel (n / 10)) ((b'0' + n % 10) ∷ [])
        (decimal-IsDigit fuel (n / 10)) (omega arith))
]

decimal-ne-nil : (fuel n : ℕ) → decimal (suc fuel) n ≢ []
unfolding decimal
decimal-ne-nil fuel n e = elim (Bool-cases (ltb n 10)) [
  | inl small ↦ cc (rw small at e)
  | inr large ↦ not_nil (decimal fuel (n / 10)) _ (rw large at e)
]
  where
    not_nil : (s : Text) (c : ℕ) → s ++ c ∷ [] ≢ []
    not_nil [] c h = cc
    not_nil (d ∷ s) c h = cc

parse_digits-decimal :
    (most fuel n : ℕ) → n < suc fuel → n ≤ most → parse_digits most (decimal (suc fuel) n) ≡ some n
parse_digits-decimal most fuel n h k =
    nonempty (decimal (suc fuel) n) (decimal-ne-nil fuel n)
      (parse_from-decimal most (suc fuel) n h k)
  where
    nonempty : (s : Text) → s ≢ [] → parse_from most 0 s ≡ some n → parse_digits most s ≡ some n
    nonempty [] h k = absurd (h refl)
    nonempty (c ∷ s) h k = unfold parse_digits in k

pub show_u64-IsDigit : (n : ℕ) → All IsDigit (show_u64 n)
unfolding show_u64
show_u64-IsDigit n = decimal-IsDigit (suc n) n

show_u64_read :
    (most n : ℕ) → n ≤ most → (parse_digits most (show_u64 n) ≡ some n) × All IsDigit (show_u64 n)
unfolding show_u64
show_u64_read most n k = (parse_digits-decimal most n n (omega arith) k, decimal-IsDigit (suc n) n)

-- A text of digits has no sign to skip.
unsigned_u64 : (s : Text) → All IsDigit s → parse_u64 s ≡ parse_digits (2 ^ 64 - 1) s
unfolding parse_u64
unsigned_u64 [] h = refl
unsigned_u64 (c ∷ s) h = ground arith

unsigned_i64 : (s : Text) → All IsDigit s → parse_i64 s ≡ positive (parse_digits (2 ^ 63 - 1) s)
unfolding parse_i64
unsigned_i64 [] h = refl
unsigned_i64 (c ∷ s) h = ground arith

-- Printing a `u64` and parsing it gives the number back.
pub parse_u64-show_u64 : (n : ℕ) → n < 2 ^ 64 → parse_u64 (show_u64 n) ≡ some n
parse_u64-show_u64 n h =
    let (read, digits) = show_u64_read (2 ^ 64 - 1) n (omega arith) in
    unsigned_u64 (show_u64 n) digits ∙ read

-- Printing an `i64`, with its sign, and parsing it gives the integer back.
pub parse_i64-show_i64 : (z : ℤ) → IsI64 z → parse_i64 (show_i64 z) ≡ some z
unfolding show_i64
parse_i64-show_i64 (pos n) h =
    let (read, digits) = show_u64_read (2 ^ 63 - 1) n (omega arith) in
    unsigned_i64 (show_u64 n) digits ∙ ap positive read
parse_i64-show_i64 (negsuc n) h =
    unfold parse_i64 in ap negative (show_u64_read (2 ^ 63) (suc n) (omega arith)).0

-- The characters of a printed integer.
pub show_i64-All :
    (P : ℕ → Type 0) → P b'-' → ((c : ℕ) → IsDigit c → P c) → (z : ℤ) → All P (show_i64 z)
unfolding show_i64
show_i64-All P dash digit (pos n) = All-map digit (show_u64 n) (show_u64-IsDigit n)
show_i64-All P dash digit (negsuc n) =
    (dash, All-map digit (show_u64 (suc n)) (show_u64-IsDigit (suc n)))

pub show_u64-IsAscii : (n : ℕ) → All (λ c. c < 128) (show_u64 n)
show_u64-IsAscii n = All-map (λ c d. omega arith) (show_u64 n) (show_u64-IsDigit n)
