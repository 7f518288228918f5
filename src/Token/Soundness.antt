-- ===== src/Token/Soundness.antt =====
-- What `verify` of src/token.rs accepts.
use epistole.Prelude.{
  ◌++◌, ◌∷◌, ◌≡◌, refl, ap, ◌∙◌, ◌↔◌, true, some, Text, arith, ok, err, ok_or, map_err,
}
use epistole.Prelude.Results.{>>=-eq-ok, ok_or-eq-ok}
use epistole.Prelude.Int.{ℤ, ◌≤ℤ◌}
use epistole.Prelude.Utf8.{is_utf8}
use epistole.Error.{Error, invalid_token}
use epistole.Crypto.{Crypto, CryptoLaws}
use epistole.Token.Fields.{Lacks, split_once-append}
use epistole.Token.Payload.{Carries, split_once-eq-some, parse_fields_iff}
use epistole.Token.{Token, verify, authenticate, parse_fields, split_once, from_utf8}

module _ (crypto : Crypto) where
  open crypto use {Mac, decode, new_from_slice, update, finalize}

  -- `raw` is a payload and its tag under the secret, encoded, with the first dot between them, and
  -- the payload carries the fields of `t`.
  pub record Authentic (raw secret : Text) (t : Token) : Type 0 where
    pub payload_b64 : Text
    pub sig_b64 : Text
    pub payload : Text
    pub mac : Mac
    pub halves : raw ≡ payload_b64 ++ (b'.' ∷ sig_b64)
    pub whole : Lacks b'.' payload_b64
    pub decoded : decode payload_b64 ≡ some payload
    pub keyed : new_from_slice secret ≡ ok mac
    pub tagged : decode sig_b64 ≡ some (finalize (update mac payload))
    pub is_text : is_utf8 payload ≡ true
    pub fields : Carries crypto payload t

  -- Whenever `verify` fails, the error is `InvalidToken`: it does not tell which check failed.
  pub verify-coarse :
      (raw secret : Text) (now_unix : ℤ) (e : Error)
      → verify crypto raw secret now_unix ≡ err e
      → e ≡ invalid_token
  unfolding verify authenticate parse_fields from_utf8
  verify-coarse raw secret now_unix e h = ground arith

  module _ (laws : CryptoLaws crypto) where
    authenticate_sound :
        (raw secret payload : Text) (t : Token)
        → authenticate crypto raw secret ≡ ok payload
        → parse_fields crypto payload ≡ ok t
        → Authentic raw secret t
    unfolding authenticate from_utf8
    authenticate_sound raw secret payload t h k =
        let (halves, split, h1) = >>=-eq-ok (ok_or (split_once b'.' raw) invalid_token) _ h in
        let (bytes, decoded, h2) = >>=-eq-ok (ok_or (decode halves.0) invalid_token) _ h1 in
        let (tag, read, h3) = >>=-eq-ok (ok_or (decode halves.1) invalid_token) _ h2 in
        let (mac, key, h4) =
          >>=-eq-ok (map_err (new_from_slice secret) (λ _. invalid_token)) _ h3 in
        let genuine : crypto.verify_slice (update mac bytes) tag ≡ true = ground arith in
        let same : bytes ≡ payload = ground arith in
        let (joined, whole) =
          split_once-eq-some b'.' raw halves.0 halves.1
            (ok_or-eq-ok (split_once b'.' raw) _ split) in
        record {
          payload_b64 = halves.0;
          sig_b64 = halves.1;
          payload = payload;
          mac = mac;
          halves = joined;
          whole = whole;
          decoded = ground arith;
          keyed = ground arith;
          tagged =
              ok_or-eq-ok (decode halves.1) _ read
              ∙ ap some ((laws.verify_slice_iff (update mac bytes) tag).0 genuine)
              ∙ ap (λ b. some (finalize (update mac b))) same;
          is_text = ground arith;
          fields = (parse_fields_iff crypto payload t).0 k;
        }

    authenticate_complete :
        (raw secret : Text) (t : Token) (a : Authentic raw secret t)
        → authenticate crypto raw secret ≡ ok a.payload
    unfolding authenticate from_utf8
    authenticate_complete raw secret t a = rw (
      a.halves,
      split_once-append b'.' a.payload_b64 a.sig_b64 a.whole,
      a.decoded,
      a.tagged,
      a.keyed,
      (laws.verify_slice_iff (update a.mac a.payload) _).1 refl,
      a.is_text,
    )

    -- `verify` returns a token exactly when the text is two encoded parts with its first dot
    -- between them, the first one is UTF-8 and consists of the letter of the token's kind, its
    -- encoded UTF-8 email, its expiry as an `i64` and its generation as a `u64` with the first
    -- three bars between them, the second one is the tag of the first under the secret, and the
    -- token has not expired.
    pub verify_iff :
        (raw secret : Text) (now_unix : ℤ) (t : Token)
        → (verify crypto raw secret now_unix ≡ ok t)
          ↔ (Authentic raw secret t × (now_unix ≤ℤ t.exp_unix))
    unfolding verify
    verify_iff raw secret now_unix t = (
      λ h.
          let (payload, genuine, h1) = >>=-eq-ok (authenticate crypto raw secret) _ h in
          let (u, fields, h2) = >>=-eq-ok (parse_fields crypto payload) _ h1 in
          let same : u ≡ t = ground arith in
          (authenticate_sound raw secret payload t genuine (fields ∙ ap ok same), ground arith),
      λ (a, fresh).
          rw
            (authenticate_complete raw secret t a, (parse_fields_iff crypto a.payload t).1 a.fields)
            (ground arith),
    )
