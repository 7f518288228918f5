-- ===== src/Token.antt =====
-- src/token.rs: the signed tokens of the confirm and unsubscribe links.
pub mod Fields
pub mod Payload
pub mod RoundTrip
pub mod Soundness
use epistole.Prelude.{
  ℕ, zero, suc, ◌<◌, ◌++◌, String, Bool, true, false, if◌then◌else◌, Option, none, some, List, [],
  ◌∷◌, ◌==◌, Text, text, text_eq, Result, ok, err, ok_or, map_err,
}
use epistole.Prelude.Results.{◌>>=◌}
use epistole.Prelude.Int.{ℤ, ltb_ℤ}
use epistole.Prelude.Decimal.{show_u64, show_i64, parse_u64, parse_i64}
use epistole.Prelude.Utf8.{is_utf8}
use epistole.Error.{Error, config, invalid_token}
use epistole.Crypto.{Crypto}

pub data TokenKind : Type 0 where
  confirm unsubscribe : TokenKind

unfoldable pub as_str : TokenKind → Text
as_str confirm = b'c' ∷ []
as_str unsubscribe = b'u' ∷ []

unfoldable pub from_str : Text → Option TokenKind
from_str s =
    if text_eq s (b'c' ∷ [])
    then some confirm
    else if text_eq s (b'u' ∷ [])
    then some unsubscribe
    else none

pub record Token : Type 0 where
  pub kind : TokenKind
  pub email : Text
  pub exp_unix : ℤ
  pub generation : ℕ

abbrev pub kind_eq : TokenKind → TokenKind → Bool
kind_eq confirm confirm = true
kind_eq unsubscribe unsubscribe = true
kind_eq _ _ = false

abbrev is_empty : Text → Bool
is_empty [] = true
is_empty (c ∷ s) = false

-- `str::split_once` at a character.
unfoldable pub split_once : ℕ → Text → Option (Text × Text)
split_once sep [] = none
split_once sep (c ∷ s) =
    let later = split_once sep s in
    if c == sep then some ([], s) else elim later [ none ↦ none | some (a, b) ↦ some (c ∷ a, b) ]

-- `str::splitn`: at most `n` parts, the last one whole.
unfoldable pub splitn : ℕ → ℕ → Text → List Text
splitn zero sep s = []
splitn (suc zero) sep s = s ∷ []
splitn (suc (suc n)) sep s = elim (split_once sep s) [
  | none ↦ s ∷ []
  | some (a, b) ↦ a ∷ splitn (suc n) sep b
]

-- `Iterator::next`, with the iterator that is left.
abbrev next : List Text → Option Text × List Text
next [] = (none, [])
next (p ∷ ps) = (some p, ps)

abbrev and_then : Option Text → (Text → Option TokenKind) → Option TokenKind
and_then none f = none
and_then (some s) f = f s

-- `str::from_utf8` and `String::from_utf8`.
unfoldable pub from_utf8 : Text → Result Error Text
from_utf8 bytes = if is_utf8 bytes then ok bytes else err invalid_token

module _ (crypto : Crypto) where
  open crypto use {encode, decode, new_from_slice, update, finalize, verify_slice}

  -- The payload that is signed: `{kind}|{email_b64}|{exp_unix}|{generation}`.
  unfoldable pub payload_of : Token → Text
  payload_of t =
      as_str t.kind
      ++ (b'|'
          ∷ (encode t.email ++ (b'|' ∷ (show_i64 t.exp_unix ++ (b'|' ∷ show_u64 t.generation)))))

  unfoldable pub sign : Token → Text → Result Error Text
  unfolding payload_of as_str show_i64 show_u64
  sign t secret = if is_empty secret then err (config (text "token_secret is empty")) else do
    mac ← map_err (new_from_slice secret) (λ e. config (text "HMAC key: " ++ e))
    let sig = finalize (update mac (payload_of t))
    ok (encode (payload_of t) ++ (b'.' ∷ encode sig))

  -- The fields of a payload, from `splitn` on.
  unfoldable pub parse_fields : Text → Result Error Token
  parse_fields payload = do
    let (p, parts) = next (splitn 4 b'|' payload)
    kind ← ok_or (and_then p from_str) invalid_token
    let (p, parts) = next parts
    email_b64 ← ok_or p invalid_token
    email_bytes ← ok_or (decode email_b64) invalid_token
    email ← from_utf8 email_bytes
    let (p, parts) = next parts
    exp ← ok_or p invalid_token
    exp_unix ← ok_or (parse_i64 exp) invalid_token
    let (p, parts) = next parts
    gen ← ok_or p invalid_token
    generation ← ok_or (parse_u64 gen) invalid_token
    ok (record { kind = kind; email = email; exp_unix = exp_unix; generation = generation })

  -- The payload of a token whose signature is right.
  unfoldable pub authenticate : Text → Text → Result Error Text
  authenticate raw secret = do
    halves ← ok_or (split_once b'.' raw) invalid_token
    payload_bytes ← ok_or (decode halves.0) invalid_token
    sig_bytes ← ok_or (decode halves.1) invalid_token
    mac ← map_err (new_from_slice secret) (λ _. invalid_token)
    if verify_slice (update mac payload_bytes) sig_bytes
        then from_utf8 payload_bytes
        else err invalid_token

  unfoldable pub verify : Text → Text → ℤ → Result Error Token
  unfolding parse_fields authenticate splitn split_once from_str from_utf8 is_utf8 text_eq parse_i64
      parse_u64
  verify raw secret now_unix = do
    payload ← authenticate raw secret
    t ← parse_fields payload
    if ltb_ℤ t.exp_unix now_unix then err invalid_token else ok t
