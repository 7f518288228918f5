-- ===== src/Handlers/Bearer.antt =====
-- `check_bearer` of src/handlers.rs: the token of an `Authorization: Bearer` header.
pub mod Laws
use epistole.Prelude.{
  none, some, Option, Bool, true, false, [], ◌∷◌, if◌then◌else◌, ◌==◌, Text, text,
}
use epistole.Crypto.{Crypto}
use epistole.Platform.{Platform}

-- `str::strip_prefix`
unfoldable pub strip_prefix : Text → Text → Option Text
strip_prefix [] s = some s
strip_prefix (c ∷ q) [] = none
strip_prefix (c ∷ q) (d ∷ s) = if c == d then strip_prefix q s else none

abbrev and_then : Option Text → (Text → Option Text) → Option Text
and_then none f = none
and_then (some s) f = f s

-- `unwrap_or("")`
abbrev or_empty : Option Text → Text
or_empty none = []
or_empty (some s) = s

abbrev is_empty : Text → Bool
is_empty [] = true
is_empty (c ∷ s) = false

module _ (p : Platform) (crypto : Crypto) where
  unfoldable pub check_bearer : Option Text → Text → Bool
  unfolding strip_prefix
  check_bearer authorization expected =
      let presented =
        or_empty
          (and_then (and_then authorization p.header_to_str) (strip_prefix (text "Bearer "))) in
      if is_empty presented
      then false
      else crypto.ct_eq (crypto.digest presented) (crypto.digest expected)
