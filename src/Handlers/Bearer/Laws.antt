-- ===== src/Handlers/Bearer/Laws.antt =====
-- Which `Authorization` headers `check_bearer` of src/handlers.rs accepts, described without its code.
use epistole.Prelude.{
  ◌≡◌, ◌≢◌, refl, ap, ◌∙◌, ◌↔◌, ◌++◌, [], ◌∷◌, none, some, Option, Option-cases, true, Text, text,
  arith, inl, inr,
}
use epistole.Crypto.{Crypto, CryptoLaws}
use epistole.Platform.{Platform}
use epistole.Handlers.Bearer.{strip_prefix, check_bearer}

strip_prefix-append : (q rest : Text) → strip_prefix q (q ++ rest) ≡ some rest
unfolding strip_prefix
strip_prefix-append [] rest = refl
strip_prefix-append (c ∷ q) rest = ground (arith, strip_prefix-append q rest)

pub strip_prefix-eq-some : (q s rest : Text) → strip_prefix q s ≡ some rest → s ≡ q ++ rest
unfolding strip_prefix
strip_prefix-eq-some [] s rest h = cc
strip_prefix-eq-some (c ∷ q) [] rest h = cc
strip_prefix-eq-some (c ∷ q) (d ∷ s) rest h =
    let both : (c ≡ d) × (strip_prefix q s ≡ some rest) = ground arith in
    rw (both.0, strip_prefix-eq-some q s rest both.1) refl

module _ (p : Platform) (crypto : Crypto) where
  -- The header is there, and is `Bearer `, exactly so spelled, before a token that is not empty and
  -- has the digest of the secret.
  pub record Bears (authorization : Option Text) (secret : Text) : Type 0 where
    pub header : Text
    pub token : Text
    pub given : authorization ≡ some header
    pub shown : p.header_to_str header ≡ some (text "Bearer " ++ token)
    pub there : token ≢ []
    pub same : crypto.digest token ≡ crypto.digest secret

  module _ (laws : CryptoLaws crypto) where
    compared :
        (token secret : Text)
        → crypto.digest token ≡ crypto.digest secret
        → crypto.ct_eq (crypto.digest token) (crypto.digest secret) ≡ true
    compared token secret = (laws.ct_eq_iff (crypto.digest token) (crypto.digest secret)).1

    -- A header that is accepted bears the secret.
    check_bearer-Bears :
        (authorization : Option Text) (secret : Text)
        → check_bearer p crypto authorization secret ≡ true
        → Bears authorization secret
    unfolding check_bearer
    check_bearer-Bears none secret h = cc
    check_bearer-Bears (some header) secret h = elim (Option-cases (p.header_to_str header)) [
      | inl unreadable ↦ cc (rw unreadable at h)
      | inr (s, read) ↦ elim (Option-cases (strip_prefix (text "Bearer ") s)) [
        | inl other ↦ cc (rw (read, other) at h)
        | inr ([], stripped) ↦ cc (rw (read, stripped) at h)
        | inr (c ∷ token, stripped) ↦ record {
          header = header;
          token = c ∷ token;
          given = refl;
          shown = read ∙ ap some (strip_prefix-eq-some (text "Bearer ") s (c ∷ token) stripped);
          there = λ e. cc;
          same =
              (laws.ct_eq_iff (crypto.digest (c ∷ token)) (crypto.digest secret)).0
                (rw (read, stripped) at h);
        }
      ]
    ]

    check_token :
        (header token secret : Text)
        → p.header_to_str header ≡ some (text "Bearer " ++ token)
        → token ≢ []
        → crypto.digest token ≡ crypto.digest secret
        → check_bearer p crypto (some header) secret ≡ true
    unfolding check_bearer
    check_token header [] secret shown there same = absurd (there refl)
    check_token header (c ∷ token) secret shown there same =
        rw (shown, strip_prefix-append (text "Bearer ") (c ∷ token))
          (compared (c ∷ token) secret same)

    pub check_bearer_iff :
        (authorization : Option Text) (secret : Text)
        → (check_bearer p crypto authorization secret ≡ true) ↔ Bears authorization secret
    check_bearer_iff authorization secret = (
      check_bearer-Bears authorization secret,
      λ b. rw b.given (check_token b.header b.token secret b.shown b.there b.same),
    )
