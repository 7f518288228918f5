-- ===== src/Token/RoundTrip.antt =====
-- What src/token.rs signs, it verifies.
use epistole.Prelude.{
  ◌≡◌, ◌≢◌, refl, ◌++◌, if◌then◌else◌, [], ◌∷◌, Text, All, All-map, arith, ok, err,
}
use epistole.Prelude.Int.{ℤ, ltb_ℤ}
use epistole.Prelude.Utf8.{is_utf8_of_IsAscii, IsByte}
use epistole.Error.{invalid_token}
use epistole.Crypto.{Crypto, CryptoLaws}
use epistole.Token.{Token, sign, verify, authenticate, payload_of, from_utf8}
use epistole.Token.Fields.{split_once-append, IsToken, payload_of-IsAscii, parse_fields-payload_of}

-- An empty secret signs nothing.
pub sign-ne-nil :
    (crypto : Crypto) (t : Token) (secret : Text) {raw : Text}
    → sign crypto t secret ≡ ok raw
    → secret ≢ []
unfolding sign
sign-ne-nil crypto t [] h e = cc
sign-ne-nil crypto t (c ∷ secret) h e = cc

module _ (crypto : Crypto) (laws : CryptoLaws crypto) where
  open crypto use {Mac, encode, new_from_slice, update, finalize}

  payload_of-bytes : (t : Token) → IsToken t → All IsByte (payload_of crypto t)
  payload_of-bytes t h =
      All-map (λ c k. omega arith) (payload_of crypto t) (payload_of-IsAscii crypto laws t h)

  -- The text that `sign` returns for a key.
  abbrev signed : Mac → Token → Text
  signed mac t =
      encode (payload_of crypto t) ++ (b'.' ∷ encode (finalize (update mac (payload_of crypto t))))

  sign_with :
      (t : Token) (secret : Text) (mac : Mac)
      → secret ≢ []
      → new_from_slice secret ≡ ok mac
      → sign crypto t secret ≡ ok (signed mac t)
  unfolding sign
  sign_with t [] mac h key = absurd (h refl)
  sign_with t (c ∷ secret) mac h key = rw key

  -- Under a secret that is not empty every token can be signed.
  pub sign-total :
      (t : Token) (secret : Text) → secret ≢ [] → (raw : Text) × (sign crypto t secret ≡ ok raw)
  sign-total t secret h =
      let (mac, key) = laws.new_from_slice-total secret in
      (signed mac t, sign_with t secret mac h key)

  authenticate-signed :
      (t : Token) (secret : Text) (mac : Mac)
      → IsToken t
      → new_from_slice secret ≡ ok mac
      → authenticate crypto (signed mac t) secret ≡ ok (payload_of crypto t)
  unfolding authenticate from_utf8
  authenticate-signed t secret mac h key =
      let payload = payload_of crypto t in
      let tag = finalize (update mac payload) in
      rw (
        split_once-append b'.' (encode payload) (encode tag) (
            All-map (λ c k. k.not_dot) (encode payload)
              (laws.encode-InAlphabet payload (payload_of-bytes t h))),
        laws.decode-encode payload (payload_of-bytes t h),
        laws.decode-encode tag (laws.finalize-IsByte (update mac payload)),
        key,
        (laws.verify_slice_iff (update mac payload) tag).1 refl,
        is_utf8_of_IsAscii payload (payload_of-IsAscii crypto laws t h),
      )

  -- A token whose email is UTF-8 and whose numbers fit their 64 bits is signed under any secret
  -- that is not empty, and `verify` gives back that token from the text under the same secret at
  -- every time up to its expiry, and refuses it afterwards.
  pub verify-sign :
      (t : Token) (secret : Text) (now_unix : ℤ)
      → IsToken t
      → secret ≢ []
      → (raw : Text) × (sign crypto t secret ≡ ok raw)
        × (verify crypto raw secret now_unix
            ≡ (if ltb_ℤ t.exp_unix now_unix then err invalid_token else ok t))
  unfolding verify
  verify-sign t secret now_unix h k =
      let (mac, key) = laws.new_from_slice-total secret in
      (
        signed mac t,
        sign_with t secret mac k key,
        rw (authenticate-signed t secret mac h key, parse_fields-payload_of crypto laws t h),
      )

  -- Two tokens whose emails are UTF-8 and whose numbers fit their 64 bits, and that are signed to
  -- the same text under a secret, are one token.
  pub sign-injective :
      (t u : Token) (secret raw : Text)
      → IsToken t
      → IsToken u
      → sign crypto t secret ≡ ok raw
      → sign crypto u secret ≡ ok raw
      → t ≡ u
  unfolding sign
  sign-injective t u [] raw ht hu p q = cc
  sign-injective t u (c ∷ secret) raw ht hu p q =
      let (mac, key) = laws.new_from_slice-total (c ∷ secret) in
      cc (
        sign_with t (c ∷ secret) mac (λ e. cc) key,
        sign_with u (c ∷ secret) mac (λ e. cc) key,
        authenticate-signed t (c ∷ secret) mac ht key,
        authenticate-signed u (c ∷ secret) mac hu key,
        parse_fields-payload_of crypto laws t ht,
        parse_fields-payload_of crypto laws u hu,
      )
