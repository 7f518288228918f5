-- ===== src/Prelude/Trim.antt =====
-- `str::trim`, over the UTF-8 bytes of a text: the characters with the property White_Space go.
use Prim.Native.Nat.{ℕ, zero, suc}
use mathlib.Core.Bool.{Bool, ◌&&◌, ◌||◌}
use mathlib.Core.List.{[], ◌∷◌, reverse}
use epistole.Prelude.Tests.{leb, ◌==◌, if◌then◌else◌}
use epistole.Prelude.Texts.{Text, length}

-- U+0009 to U+000D and the space.
abbrev one : ℕ → Bool
one a = (leb 0x09 a && leb a 0x0d) || a == 0x20

-- U+0085 and U+00A0.
abbrev two : ℕ → ℕ → Bool
two a b = a == 0xc2 && (b == 0x85 || b == 0xa0)

-- U+1680, U+2000 to U+200A, U+2028, U+2029, U+202F, U+205F and U+3000.
abbrev three : ℕ → ℕ → ℕ → Bool
three a b c =
    (a == 0xe1 && (b == 0x9a && c == 0x80))
    || ((a == 0xe2 && (b == 0x80 && (leb 0x80 c && leb c 0x8a)))
        || ((a == 0xe2 && (b == 0x80 && (c == 0xa8 || (c == 0xa9 || c == 0xaf))))
            || ((a == 0xe2 && (b == 0x81 && c == 0x9f))
                || (a == 0xe3 && (b == 0x80 && c == 0x80)))))

-- The text without its first character, if that is white space.
strip_start : Text → Text
strip_start [] = []
strip_start (a ∷ []) = if one a then [] else a ∷ []
strip_start (a ∷ b ∷ []) = if one a then b ∷ [] else if two a b then [] else a ∷ b ∷ []
strip_start (a ∷ b ∷ c ∷ s) =
    if one a then b ∷ c ∷ s else if two a b then c ∷ s else if three a b c then s else a ∷ b ∷ c ∷ s

-- The same at the end, over the reversed bytes.
strip_end : Text → Text
strip_end [] = []
strip_end (a ∷ []) = if one a then [] else a ∷ []
strip_end (a ∷ b ∷ []) = if one a then b ∷ [] else if two b a then [] else a ∷ b ∷ []
strip_end (a ∷ b ∷ c ∷ s) =
    if one a then b ∷ c ∷ s else if two b a then c ∷ s else if three c b a then s else a ∷ b ∷ c ∷ s

-- A text has at most as many characters as bytes, so its length is fuel enough.
repeat : ℕ → (Text → Text) → Text → Text
repeat zero f s = s
repeat (suc fuel) f s = repeat fuel f (f s)

unfoldable pub trim : Text → Text
unfolding repeat strip_start strip_end
trim s =
    let front = repeat (length s) strip_start s in
    reverse (repeat (length s) strip_end (reverse front))
