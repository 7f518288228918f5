-- ===== src/Token/Payload.antt =====
-- The payloads that `verify` of src/token.rs can read, described without its parser.
use epistole.Prelude.{
  ◌⊎◌, ℕ, ◌≡◌, ◌≢◌, refl, ap, ◌∙◌, ◌++◌, ◌↔◌, ◌==◌, true, some, List, [], ◌∷◌, Option, Option-cases,
  Bool-cases, Text, text_eq, text_eq_sound, arith, Result, ok, ok_or, inl, inr,
}
use epistole.Prelude.Results.{◌>>=◌, >>=-eq-ok, ok_or-eq-ok}
use epistole.Prelude.Decimal.{parse_u64, parse_i64}
use epistole.Prelude.Utf8.{is_utf8}
use epistole.Error.{Error, invalid_token}
use epistole.Crypto.{Crypto}
use epistole.Token.{
  Token, TokenKind, confirm, unsubscribe, from_str, from_utf8, split_once, splitn, parse_fields,
  next, and_then,
}
use epistole.Token.Fields.{Lacks, splitn-append}

-- The letter of a kind.
abbrev pub letter : TokenKind → Text
letter confirm = b'c' ∷ []
letter unsubscribe = b'u' ∷ []

pub split_once-eq-some :
    (sep : ℕ) (s a b : Text) → split_once sep s ≡ some (a, b) → (s ≡ a ++ (sep ∷ b)) × Lacks sep a
unfolding split_once
split_once-eq-some sep [] a b h = cc
split_once-eq-some sep (c ∷ s) a b h = elim (Bool-cases (c == sep)) [
  | inl here ↦ ground (arith, here)
  | inr other ↦ elim (Option-cases (split_once sep s)) [
    | inl absent ↦ cc (rw (other, absent) at h)
    | inr ((a', b'), found) ↦
        let (same, lacks) = split_once-eq-some sep s a' b' found in
        let parts : ◌≡◌ {A = Option (Text × Text)} (some (c ∷ a', b')) (some (a, b)) =
          rw (other, found) at h in
        let front : c ∷ a' ≡ a = cc in
        let back : b' ≡ b = cc in rw (← front, ← back) (ap (λ r. c ∷ r) same, (ground arith, lacks))
  ]
]

from_str-letter : (k : TokenKind) → from_str (letter k) ≡ some k
unfolding from_str text_eq
from_str-letter confirm = refl
from_str-letter unsubscribe = refl

from_str-eq-some : (s : Text) (k : TokenKind) → from_str s ≡ some k → s ≡ letter k
unfolding from_str
from_str-eq-some s confirm h =
    ground (arith, text_eq_sound s (b'c' ∷ []), text_eq_sound s (b'u' ∷ []))
from_str-eq-some s unsubscribe h =
    ground (arith, text_eq_sound s (b'c' ∷ []), text_eq_sound s (b'u' ∷ []))

-- What four parts of a payload are.
record Quartered (payload a b c d : Text) : Type 0 where
  written : payload ≡ a ++ (b'|' ∷ (b ++ (b'|' ∷ (c ++ (b'|' ∷ d)))))
  whole_a : Lacks b'|' a
  whole_b : Lacks b'|' b
  whole_c : Lacks b'|' c

-- A payload splits into four parts, or into fewer.
splitn-cases :
    (payload : Text)
    → (splitn 4 b'|' payload ≡ payload ∷ [])
      ⊎ ((a : Text) × (b : Text) × (splitn 4 b'|' payload ≡ a ∷ b ∷ []))
      ⊎ ((a : Text) × (b : Text) × (c : Text) × (splitn 4 b'|' payload ≡ a ∷ b ∷ c ∷ []))
      ⊎ ((a : Text) × (b : Text) × (c : Text) × (d : Text) × (splitn 4 b'|' payload
            ≡ a ∷ b ∷ c ∷ d ∷ [])
          × Quartered payload a b c d)
unfolding splitn
splitn-cases payload = elim (Option-cases (split_once b'|' payload)) [
  | inl one ↦ inl (rw (splitn, one) refl)
  | inr ((a, s), first) ↦ elim (Option-cases (split_once b'|' s)) [
    | inl two ↦ inr (inl (a, s, rw (splitn, first, splitn, two) refl))
    | inr ((b, s'), second) ↦ elim (Option-cases (split_once b'|' s')) [
      | inl three ↦
          inr (inr (inl (a, b, s', rw (splitn, first, splitn, second, splitn, three) refl)))
      | inr ((c, d), third) ↦
          let (same_a, lacks_a) = split_once-eq-some b'|' payload a s first in
          let (same_b, lacks_b) = split_once-eq-some b'|' s b s' second in
          let (same_c, lacks_c) = split_once-eq-some b'|' s' c d third in
          inr (
            inr (
              inr (
                a,
                b,
                c,
                d,
                rw (splitn, first, splitn, second, splitn, third, splitn) refl,
                record {
                  written =
                      same_a
                      ∙ ap (λ r. a ++ (b'|' ∷ r)) (same_b ∙ ap (λ r. b ++ (b'|' ∷ r)) same_c);
                  whole_a = lacks_a;
                  whole_b = lacks_b;
                  whole_c = lacks_c;
                },
              )))
    ]
  ]
]

module _ (crypto : Crypto) where
  open crypto use {decode}

  -- The payload is four fields with bars between them, none but the last with a bar in it: the
  -- letter of the token's kind, its email encoded, its expiry as an `i64` and its generation as a
  -- `u64`, the last two in any spelling that `str::parse` reads.
  pub record Carries (payload : Text) (t : Token) : Type 0 where
    pub email_b64 : Text
    pub exp : Text
    pub digits : Text
    pub written :
        payload ≡ letter t.kind ++ (b'|' ∷ (email_b64 ++ (b'|' ∷ (exp ++ (b'|' ∷ digits)))))
    pub email_whole : Lacks b'|' email_b64
    pub exp_whole : Lacks b'|' exp
    pub encoded : decode email_b64 ≡ some t.email
    pub is_text : is_utf8 t.email ≡ true
    pub expires : parse_i64 exp ≡ some t.exp_unix
    pub counted : parse_u64 digits ≡ some t.generation

  -- What `parse_fields` makes of the parts.
  abbrev fields_of : List Text → Result Error Token
  fields_of parts = do
    let (p, parts) = next parts
    kind ← ok_or (and_then p from_str) invalid_token
    let (p, parts) = next parts
    email_b64 ← ok_or p invalid_token
    email_bytes ← ok_or (decode email_b64) invalid_token
    email ← from_utf8 email_bytes
    let (p, parts) = next parts
    exp ← ok_or p invalid_token
    exp_unix ← ok_or (parse_i64 exp) invalid_token
    let (p, parts) = next parts
    gen ← ok_or p invalid_token
    generation ← ok_or (parse_u64 gen) invalid_token
    ok (record { kind = kind; email = email; exp_unix = exp_unix; generation = generation })

  parse_fields-splitn :
      (payload : Text) → parse_fields crypto payload ≡ fields_of (splitn 4 b'|' payload)
  unfolding parse_fields
  parse_fields-splitn payload = refl

  fields_of-one : (a : Text) (t : Token) → fields_of (a ∷ []) ≢ ok t
  fields_of-one a t h = ground arith

  fields_of-two : (a b : Text) (t : Token) → fields_of (a ∷ b ∷ []) ≢ ok t
  unfolding from_utf8
  fields_of-two a b t h = ground arith

  fields_of-three : (a b c : Text) (t : Token) → fields_of (a ∷ b ∷ c ∷ []) ≢ ok t
  unfolding from_utf8
  fields_of-three a b c t h = ground arith

  fields_of-Carries :
      (payload a b c d : Text) (t : Token)
      → Quartered payload a b c d
      → fields_of (a ∷ b ∷ c ∷ d ∷ []) ≡ ok t
      → Carries payload t
  unfolding from_utf8
  fields_of-Carries payload a b c d t quartered h =
      let (kind, known, h1) = >>=-eq-ok (ok_or (from_str a) invalid_token) _ h in
      let (bytes, decoded, h2) = >>=-eq-ok (ok_or (decode b) invalid_token) _ h1 in
      let (email, read, h3) = >>=-eq-ok (from_utf8 bytes) _ h2 in
      let (exp, expires, h4) = >>=-eq-ok (ok_or (parse_i64 c) invalid_token) _ h3 in
      let (count, counted, h5) = >>=-eq-ok (ok_or (parse_u64 d) invalid_token) _ h4 in
      let made : Token = record {
        kind = kind;
        email = email;
        exp_unix = exp;
        generation = count;
      } in
      let same : made ≡ t = cc (h5) in
      let text_lem : (is_utf8 bytes ≡ true) × (bytes ≡ email) = ground arith in
      let first = from_str-eq-some a kind (ok_or-eq-ok (from_str a) _ known) in
      rw (← same) (record {
        email_b64 = b;
        exp = c;
        digits = d;
        written =
            quartered.written ∙ ap (λ k. k ++ (b'|' ∷ (b ++ (b'|' ∷ (c ++ (b'|' ∷ d)))))) first;
        email_whole = quartered.whole_b;
        exp_whole = quartered.whole_c;
        encoded = ok_or-eq-ok (decode b) _ decoded ∙ ap some text_lem.1;
        is_text = rw (← text_lem.1) text_lem.0;
        expires = ok_or-eq-ok (parse_i64 c) _ expires;
        counted = ok_or-eq-ok (parse_u64 d) _ counted;
      })

  letter-Lacks : (k : TokenKind) → Lacks b'|' (letter k)
  letter-Lacks confirm = omega arith
  letter-Lacks unsubscribe = omega arith

  parse_fields-Carries :
      (payload : Text) (t : Token) → parse_fields crypto payload ≡ ok t → Carries payload t
  parse_fields-Carries payload t h =
      let parsed = rw (parse_fields-splitn payload) at h in
      elim (splitn-cases payload) [
        | inl one ↦ absurd (fields_of-one payload t (rw one at parsed))
        | inr (inl (a, b, two)) ↦ absurd (fields_of-two a b t (rw two at parsed))
        | inr (inr (inl (a, b, c, three))) ↦ absurd (fields_of-three a b c t (rw three at parsed))
        | inr (inr (inr (a, b, c, d, four, quartered))) ↦
            fields_of-Carries payload a b c d t quartered (rw four at parsed)
      ]

  Carries-parse_fields :
      (payload : Text) (t : Token) → Carries payload t → parse_fields crypto payload ≡ ok t
  unfolding from_utf8
  Carries-parse_fields payload t h =
      let four =
        splitn-append (letter t.kind) h.email_b64 h.exp h.digits (letter-Lacks t.kind) h.email_whole
          h.exp_whole in
      parse_fields-splitn payload
      ∙ rw (h.written, four, from_str-letter t.kind, h.encoded, h.is_text, h.expires, h.counted)
          refl

  -- `parse_fields` reads exactly the payloads that carry a token.
  pub parse_fields_iff :
      (payload : Text) (t : Token) → (parse_fields crypto payload ≡ ok t) ↔ Carries payload t
  parse_fields_iff payload t = (parse_fields-Carries payload t, Carries-parse_fields payload t)
