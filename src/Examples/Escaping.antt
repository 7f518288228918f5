-- ===== src/Examples/Escaping.antt =====
-- The escaping of `maud`, as an instance.
use epistole.Prelude.{
  ℕ, ◌≡◌, false, if◌then◌else◌, ◌==◌, [], ◌∷◌, ◌++◌, Text, All, All-append, arith,
}
use epistole.Platform.{is_markup}

abbrev escape_byte : ℕ → Text
escape_byte c =
    if c == b'&'
    then b'&' ∷ b'a' ∷ b'm' ∷ b'p' ∷ b';' ∷ []
    else if c == b'<'
    then b'&' ∷ b'l' ∷ b't' ∷ b';' ∷ []
    else if c == b'>'
    then b'&' ∷ b'g' ∷ b't' ∷ b';' ∷ []
    else if c == b'"'
    then b'&' ∷ b'q' ∷ b'u' ∷ b'o' ∷ b't' ∷ b';' ∷ []
    else c ∷ []

abbrev pub escape_html : Text → Text
escape_html [] = []
escape_html (c ∷ s) = escape_byte c ++ escape_html s

escape_byte-marks : (c : ℕ) → All (λ d. is_markup d ≡ false) (escape_byte c)
escape_byte-marks c = ground arith

pub escape_html-marks : (s : Text) → All (λ d. is_markup d ≡ false) (escape_html s)
escape_html-marks [] = tt
escape_html-marks (c ∷ s) =
    All-append (λ d. is_markup d ≡ false) (escape_byte c) (escape_html s) (escape_byte-marks c)
      (escape_html-marks s)
