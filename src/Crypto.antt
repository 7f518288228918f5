-- ===== src/Crypto.antt =====
-- The crates `base64`, `hmac`, `sha2` and `subtle`, which the program calls and does not implement:
-- what src/token.rs and src/handlers.rs use of them, and what their documentation promises.
use epistole.Prelude.{ℕ, ◌≡◌, ◌≢◌, ◌↔◌, Bool, true, Option, some, Text, All, Result, ok}
use epistole.Prelude.Utf8.{IsAscii, IsByte}

pub record Crypto : Type 1 where
  -- `URL_SAFE_NO_PAD.encode` and `.decode`
  pub encode : Text → Text
  pub decode : Text → Option Text
  -- `HmacSha256`: `new_from_slice`, `update`, `finalize().into_bytes()` and `verify_slice`
  pub Mac : Type 0
  pub new_from_slice : Text → Result Text Mac
  pub update : Mac → Text → Mac
  pub finalize : Mac → Text
  pub verify_slice : Mac → Text → Bool
  -- `Sha256::digest` and `ConstantTimeEq::ct_eq`
  pub digest : Text → Text
  pub ct_eq : Text → Text → Bool

-- The URL-safe alphabet has no dot and no bar.
pub record InAlphabet (c : ℕ) : Type 0 where
  pub ascii : IsAscii c
  pub not_dot : c ≢ b'.'
  pub not_bar : c ≢ b'|'

pub record CryptoLaws (crypto : Crypto) : Type 0 where
  pub decode-encode : (b : Text) → All IsByte b → crypto.decode (crypto.encode b) ≡ some b
  pub encode-InAlphabet : (b : Text) → All IsByte b → All InAlphabet (crypto.encode b)
  -- a key of any length is accepted
  pub new_from_slice-total : (key : Text) → (m : crypto.Mac) × (crypto.new_from_slice key ≡ ok m)
  pub finalize-IsByte : (m : crypto.Mac) → All IsByte (crypto.finalize m)
  pub verify_slice_iff :
      (m : crypto.Mac) (tag : Text) → (crypto.verify_slice m tag ≡ true) ↔ (tag ≡ crypto.finalize m)
  pub ct_eq_iff : (a b : Text) → (crypto.ct_eq a b ≡ true) ↔ (a ≡ b)
