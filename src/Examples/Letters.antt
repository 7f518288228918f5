-- ===== src/Examples/Letters.antt =====
-- An instance of `Crypto` that meets its laws: two letters for a byte, and the sum of a keyed text as
-- its tag. It stands in for the real codec and the real hash, and is no model of their strength.
use epistole.Prelude.{
  ℕ, ◌+◌, ◌-◌, ◌*◌, ◌/◌, ◌%◌, ◌≡◌, ◌↔◌, refl, ap, ◌++◌, true, Option, none, some, [], ◌∷◌, Text,
  All, text_eq, text_eq_sound, text_eq_refl, arith, ok,
}
use epistole.Prelude.Utf8.{IsByte}
use epistole.Crypto.{Crypto, CryptoLaws, InAlphabet}

unfoldable pub letters : Text → Text
letters [] = []
letters (c ∷ s) = (b'a' + c / 16) ∷ (b'a' + c % 16) ∷ letters s

unfoldable pub bytes : Text → Option Text
bytes [] = some []
bytes (h ∷ []) = none
bytes (h ∷ l ∷ s) = elim (bytes s) [
  | none ↦ none
  | some r ↦ some ((16 * (h - b'a') + (l - b'a')) ∷ r)
]

unfoldable pub total : Text → ℕ
total [] = 0
total (c ∷ s) = c + total s

unfoldable pub tag : Text → Text
unfolding total
tag s = total s % 256 ∷ []

abbrev pub letter_crypto : Crypto
letter_crypto = record {
  encode = letters;
  decode = bytes;
  Mac = Text;
  new_from_slice = λ key. ok key;
  update = λ m s. m ++ s;
  finalize = tag;
  verify_slice = λ m t. text_eq t (tag m);
  digest = λ s. s;
  ct_eq = text_eq;
}

bytes-letters : (b : Text) → All IsByte b → bytes (letters b) ≡ some b
unfolding bytes letters
bytes-letters [] h = refl
bytes-letters (c ∷ b) (p, h) = rw (bytes-letters b h) (ap some (cons_eq (omega arith)))
  where
    cons_eq : {x y : ℕ} → x ≡ y → x ∷ b ≡ y ∷ b
    cons_eq e = ap (λ z. z ∷ b) e

letters-InAlphabet : (b : Text) → All IsByte b → All InAlphabet (letters b)
unfolding letters
letters-InAlphabet [] h = tt
letters-InAlphabet (c ∷ b) (p, h) =
    let high : InAlphabet (97 + c / 16) = record {
      ascii = omega arith;
      not_dot = omega arith;
      not_bar = omega arith;
    } in
    let low : InAlphabet (97 + c % 16) = record {
      ascii = omega arith;
      not_dot = omega arith;
      not_bar = omega arith;
    } in
    (high, (low, letters-InAlphabet b h))

tag-IsByte : (s : Text) → All IsByte (tag s)
unfolding tag
tag-IsByte s = omega arith

text_eq_iff : (s t : Text) → (text_eq s t ≡ true) ↔ (s ≡ t)
text_eq_iff s t = (text_eq_sound s t, λ e. rw e (text_eq_refl t))

pub letter_laws : CryptoLaws letter_crypto
letter_laws = record {
  decode-encode = bytes-letters;
  encode-InAlphabet = letters-InAlphabet;
  new_from_slice-total = λ key. (key, refl);
  finalize-IsByte = tag-IsByte;
  verify_slice_iff = λ m t. text_eq_iff t (tag m);
  ct_eq_iff = text_eq_iff;
}
