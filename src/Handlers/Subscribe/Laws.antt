-- ===== src/Handlers/Subscribe/Laws.antt =====
-- What src/handlers/subscribe.rs promises: it stores nothing, and the link that it mails confirms.
use epistole.Prelude.{
  ◌<◌, ◌^◌, ◌≡◌, refl, ◌∙◌, ◌||◌, none, some, Option, true, if◌then◌else◌, ltb, Text,
  to_ascii_lowercase, Result, ok, err, arith, Bool-cases, inl, inr, length,
}
use epistole.Prelude.Trim.{trim}
use epistole.Prelude.Int.{ℤ, add_i64, add_i64-IsI64, ltb_ℤ}
use epistole.Prelude.Utf8.{is_utf8}
use epistole.Prelude.Effects.{lift, >>=-eq-ok, Keeps, Keeps-bind, Keeps-lift, Keeps-pure}
use epistole.Error.{invalid_token}
use epistole.Crypto.{Crypto, CryptoLaws}
use epistole.Config.{Config}
use epistole.Platform.{Platform, PlatformLaws}
use epistole.Platform.Effects.{mail-Keeps_rows}
use epistole.Records.{Subscriber}
use epistole.Token
use epistole.Token.{Token, sign, verify}
use epistole.Token.Fields.{IsToken}
use epistole.Token.RoundTrip.{verify-sign, sign-ne-nil}
use epistole.Store.Subscribers.{subscriber_get}
use epistole.Store.Subscribers.Laws.{
  subscriber_at, subscriber_get-Keeps, subscriber_get-subscriber_at,
}
use epistole.Handlers.Subscribe.{
  confirm_ttl_secs, generation_of, mint_confirm_token, mail_link, post, is_empty, max_email_len,
}

module _ (p : Platform) (laws : PlatformLaws p) (crypto : Crypto) (config : Config) where
  open p use {World, Time, now_utc, unix_timestamp}
  open laws use {rows}

  mint_confirm_token-Keeps :
      (email : Text) (now : Time) → Keeps rows (mint_confirm_token p crypto config email now)
  unfolding mint_confirm_token
  mint_confirm_token-Keeps email now =
      Keeps-bind (subscriber_get p email) _ (subscriber_get-Keeps p laws email) λ o. Keeps-lift _

  mail_link-Keeps : (email : Text) (now : Time) → Keeps rows (mail_link p crypto config email now)
  unfolding mail_link
  mail_link-Keeps email now =
      Keeps-bind (mint_confirm_token p crypto config email now) _
        (mint_confirm_token-Keeps email now)
        λ signed. Keeps-bind (lift _) _ (Keeps-lift _) λ message.
          Keeps-bind (p.mail message) _ (mail-Keeps_rows p laws message)
            λ _. Keeps-bind (lift _) _ (Keeps-lift _) λ _. Keeps-pure _

  -- `POST /subscribe` changes no row, whatever the address, and also when it fails.
  pub post-Keeps_rows : (email : Text) → Keeps rows (post p crypto config email)
  unfolding post
  post-Keeps_rows email =
      let email_norm = to_ascii_lowercase (trim email) in
      record {
        at = λ w. elim (Bool-cases (is_empty email_norm || ltb max_email_len (length email_norm))) [
          | inl bad ↦ rw bad refl
          | inr fits ↦ elim (Bool-cases (p.is_email_address email_norm)) [
            | inl valid ↦
                rw (fits, valid)
                  ((mail_link-Keeps email_norm (now_utc w).0).at (now_utc w).1
                    ∙ laws.rows-now_utc w)
            | inr invalid ↦ rw (fits, invalid) refl
          ]
        ];
      }

  module _ (crypto_laws : CryptoLaws crypto) where
    generation_bound :
        (o : Option (Subscriber Time)) {at : Result Text (Option (Subscriber Time))}
        → at ≡ ok o
        → ((s : Subscriber Time) → at ≡ ok (some s) → s.generation < 2 ^ 64)
        → generation_of o < 2 ^ 64
    generation_bound none found bound = omega arith
    generation_bound (some s) found bound = bound s found

    -- For a UTF-8 address whose stored generation, if it has a row, fits 64 bits: the link that a
    -- request to subscribe mints verifies until it expires as a confirm token for the address at
    -- the generation of its row, or at 0 where it has none.
    pub verify-mint_confirm_token :
        (email : Text) (now : Time) (w : World) (raw : Text) (at : ℤ)
        → is_utf8 email ≡ true
        → ((s : Subscriber Time)
            → subscriber_at p laws w (to_ascii_lowercase email) ≡ ok (some s)
            → s.generation < 2 ^ 64)
        → (mint_confirm_token p crypto config email now w).0 ≡ ok raw
        → (o : Option (Subscriber Time)) × (subscriber_at p laws w (to_ascii_lowercase email)
            ≡ ok o)
          × (verify crypto raw config.token_secret at ≡ (
              if ltb_ℤ (add_i64 (unix_timestamp now) confirm_ttl_secs) at
              then err invalid_token
              else ok (record {
                kind = Token.confirm;
                email = email;
                exp_unix = add_i64 (unix_timestamp now) confirm_ttl_secs;
                generation = generation_of o;
              })))
    unfolding mint_confirm_token
    verify-mint_confirm_token email now w raw at utf8 bound h =
        let (o, got, _, signed) = >>=-eq-ok (subscriber_get p email) _ w h in
        let found = subscriber_get-subscriber_at p laws email w got in
        let t : Token = record {
          kind = Token.confirm;
          email = email;
          exp_unix = add_i64 (unix_timestamp now) confirm_ttl_secs;
          generation = generation_of o;
        } in
        let is_token : IsToken t = record {
          email = utf8;
          exp_unix = add_i64-IsI64 (unix_timestamp now) confirm_ttl_secs;
          generation = generation_bound o found bound;
        } in
        let (raw', as_signed, verifies) =
          verify-sign crypto crypto_laws t config.token_secret at is_token
            (sign-ne-nil crypto t config.token_secret signed) in
        let same : raw' ≡ raw = cc (as_signed, signed) in (o, found, rw (← same) verifies)
