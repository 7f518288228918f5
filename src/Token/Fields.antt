-- ===== src/Token/Fields.antt =====
-- Splitting and parsing of the fields that src/token.rs writes.
use epistole.Prelude.{
  ℕ, suc, ◌^◌, ◌<◌, ◌≡◌, ◌≢◌, refl, ap, ◌∙◌, ◌++◌, true, some, [], ◌∷◌, Text, All, All-map, arith,
  ok,
}
use epistole.Prelude.Int.{ℤ, IsI64}
use epistole.Prelude.Decimal.{
  show_u64, show_i64, parse_u64-show_u64, parse_i64-show_i64, show_i64-All, show_u64-IsDigit,
}
use epistole.Prelude.Utf8.{is_utf8, IsByte-of_is_utf8, IsAscii}
use epistole.Prelude.{All-append, text_eq}
use epistole.Crypto.{Crypto, CryptoLaws}
use epistole.Token.{
  Token, TokenKind, confirm, unsubscribe, as_str, from_str, split_once, splitn, from_utf8,
  payload_of, parse_fields,
}

-- A text in which `sep` does not occur.
abbrev pub Lacks : ℕ → Text → Type 0
Lacks sep = All (λ c. c ≢ sep)

pub split_once-append :
    (sep : ℕ) (a b : Text) → Lacks sep a → split_once sep (a ++ (sep ∷ b)) ≡ some (a, b)
unfolding split_once
split_once-append sep [] b h = ground arith
split_once-append sep (c ∷ a) b (p, h) = ground (arith, split_once-append sep a b h)

splitn_step :
    (n : ℕ) (a b : Text)
    → Lacks b'|' a
    → splitn (suc (suc n)) b'|' (a ++ (b'|' ∷ b)) ≡ a ∷ splitn (suc n) b'|' b
unfolding splitn
splitn_step n a b h = rw (split_once-append b'|' a b h, splitn)

-- The four fields of a payload, none but the last of which may hold a bar.
pub splitn-append :
    (a b c d : Text)
    → Lacks b'|' a
    → Lacks b'|' b
    → Lacks b'|' c
    → splitn 4 b'|' (a ++ (b'|' ∷ (b ++ (b'|' ∷ (c ++ (b'|' ∷ d)))))) ≡ a ∷ b ∷ c ∷ d ∷ []
unfolding splitn
splitn-append a b c d ha hb hc =
    splitn_step 2 a _ ha
    ∙ ap (λ s. a ∷ s) (splitn_step 1 b _ hb ∙ ap (λ s. b ∷ s) (splitn_step 0 c d hc))

from_str-as_str : (k : TokenKind) → from_str (as_str k) ≡ some k
unfolding from_str as_str text_eq
from_str-as_str confirm = refl
from_str-as_str unsubscribe = refl

as_str-Lacks : (k : TokenKind) → Lacks b'|' (as_str k)
unfolding as_str
as_str-Lacks confirm = omega arith
as_str-Lacks unsubscribe = omega arith

as_str-IsAscii : (k : TokenKind) → All IsAscii (as_str k)
unfolding as_str
as_str-IsAscii confirm = omega arith
as_str-IsAscii unsubscribe = omega arith

show_i64-Lacks : (z : ℤ) → Lacks b'|' (show_i64 z)
show_i64-Lacks = show_i64-All (λ c. c ≢ b'|') (omega arith) (λ c d. omega arith)

show_i64-IsAscii : (z : ℤ) → All IsAscii (show_i64 z)
show_i64-IsAscii = show_i64-All IsAscii (omega arith) (λ c d. omega arith)

show_u64-IsAscii : (n : ℕ) → All IsAscii (show_u64 n)
show_u64-IsAscii n = All-map (λ c d. omega arith) (show_u64 n) (show_u64-IsDigit n)

-- A token as the program makes it: an email that is a `str`, an `i64` and a `u64`.
pub record IsToken (t : Token) : Type 0 where
  pub email : is_utf8 t.email ≡ true
  pub exp_unix : IsI64 t.exp_unix
  pub generation : t.generation < 2 ^ 64

module _ (crypto : Crypto) (laws : CryptoLaws crypto) where
  open crypto use {encode}

  encode-Lacks : (b : Text) → is_utf8 b ≡ true → Lacks b'|' (encode b)
  encode-Lacks b h =
      All-map (λ c k. k.not_bar) (encode b) (laws.encode-InAlphabet b (IsByte-of_is_utf8 b h))

  encode-IsAscii : (b : Text) → is_utf8 b ≡ true → All IsAscii (encode b)
  encode-IsAscii b h =
      All-map (λ c k. k.ascii) (encode b) (laws.encode-InAlphabet b (IsByte-of_is_utf8 b h))

  pub payload_of-IsAscii : (t : Token) → IsToken t → All IsAscii (payload_of crypto t)
  unfolding payload_of
  payload_of-IsAscii t h = All-append IsAscii (as_str t.kind) _ (as_str-IsAscii t.kind) (
    omega arith,
    All-append IsAscii (encode t.email) _ (encode-IsAscii t.email h.email) (
      omega arith,
      All-append IsAscii (show_i64 t.exp_unix) _ (show_i64-IsAscii t.exp_unix)
          (omega arith, show_u64-IsAscii t.generation),
    ),
  )

  splitn-payload_of :
      (t : Token)
      → IsToken t
      → splitn 4 b'|' (payload_of crypto t)
        ≡ as_str t.kind ∷ encode t.email ∷ show_i64 t.exp_unix ∷ show_u64 t.generation ∷ []
  unfolding payload_of
  splitn-payload_of t h =
      splitn-append (as_str t.kind) (encode t.email) (show_i64 t.exp_unix) (show_u64 t.generation)
        (as_str-Lacks t.kind) (encode-Lacks t.email h.email) (show_i64-Lacks t.exp_unix)

  -- The fields of a payload are those of the token that it was made of.
  pub parse_fields-payload_of :
      (t : Token) → IsToken t → parse_fields crypto (payload_of crypto t) ≡ ok t
  unfolding parse_fields from_utf8
  parse_fields-payload_of t h = rw (
    splitn-payload_of t h,
    from_str-as_str t.kind,
    laws.decode-encode t.email (IsByte-of_is_utf8 t.email h.email),
    h.email,
    parse_i64-show_i64 t.exp_unix h.exp_unix,
    parse_u64-show_u64 t.generation h.generation,
  )
