-- ===== src/Handlers/Links/Laws.antt =====
-- A verified link carries an authentic token of its kind.
use epistole.Prelude.{
  ◌≡◌, refl, sym, ap, ◌∙◌, Bool-cases, some, true, Text, Result, ok, err, arith, inl, inr,
}
use epistole.Prelude.Int.{◌≤ℤ◌}
use epistole.Error.{Error}
use epistole.Crypto.{Crypto, CryptoLaws}
use epistole.Config.{Config}
use epistole.Platform.{Platform}
use epistole.Token
use epistole.Token.{Token, TokenKind, kind_eq}
use epistole.Token.Soundness.{Authentic, verify_iff}
use epistole.Handlers.Links.{of_kind, verified}

kind_eq_sound : (j k : TokenKind) → kind_eq j k ≡ true → j ≡ k
kind_eq_sound Token.confirm Token.confirm h = refl
kind_eq_sound Token.unsubscribe Token.unsubscribe h = refl
kind_eq_sound Token.confirm Token.unsubscribe h = cc
kind_eq_sound Token.unsubscribe Token.confirm h = cc

kind_eq_refl : (k : TokenKind) → kind_eq k k ≡ true
kind_eq_refl Token.confirm = refl
kind_eq_refl Token.unsubscribe = refl

of_kind-eq-some :
    (kind : TokenKind) (r : Result Error Token) (t : Token)
    → of_kind kind r ≡ some t
    → (r ≡ ok t) × (t.kind ≡ kind)
unfolding of_kind
of_kind-eq-some kind (err e) t h = cc
of_kind-eq-some kind (ok u) t h = elim (Bool-cases (kind_eq u.kind kind)) [
  | inl right ↦
      let same : u ≡ t = ground arith in
      (ap ok same, ap (λ (x : Token). x.kind) (sym same) ∙ kind_eq_sound u.kind kind right)
  | inr wrong ↦ ground arith
]

of_kind_ok : (kind : TokenKind) (t : Token) → t.kind ≡ kind → of_kind kind (ok t) ≡ some t
unfolding of_kind
of_kind_ok kind t h = ground (arith, kind_eq_refl kind)

module _ (p : Platform) (crypto : Crypto) (laws : CryptoLaws crypto) (config : Config) where
  open p use {Time, unix_timestamp}

  pub verified-Authentic :
      (kind : TokenKind) (raw : Text) (now : Time) (t : Token)
      → verified p crypto config kind raw now ≡ some t
      → Authentic crypto raw config.token_secret t
        × (t.kind ≡ kind)
        × (unix_timestamp now ≤ℤ t.exp_unix)
  unfolding verified
  verified-Authentic kind raw now t h =
      let (accepted, right) = of_kind-eq-some kind _ t h in
      let (authentic, fresh) =
        (verify_iff crypto laws raw config.token_secret (unix_timestamp now) t).0 accepted in
      (authentic, right, fresh)

  pub verified_of_ok :
      (kind : TokenKind) (raw : Text) (now : Time) (t : Token)
      → Token.verify crypto raw config.token_secret (unix_timestamp now) ≡ ok t
      → t.kind ≡ kind
      → verified p crypto config kind raw now ≡ some t
  unfolding verified
  verified_of_ok kind raw now t accepted right = rw accepted (of_kind_ok kind t right)
