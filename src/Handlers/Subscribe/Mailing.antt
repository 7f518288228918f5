-- ===== src/Handlers/Subscribe/Mailing.antt =====
-- The message that a request to subscribe sends, by src/handlers/subscribe.rs.
use epistole.Prelude.{
  ◌≡◌, ap, ◌∙◌, ◌||◌, ◌++◌, ◌∷◌, ltb, length, Text, text, to_ascii_lowercase, ok, map_err,
  Bool-cases, inl, inr,
}
use epistole.Prelude.Trim.{trim}
use epistole.Prelude.Effects.{lift, >>=-eq-ok, Keeps, keeps_rules}
use epistole.Error.{Error}
use epistole.Crypto.{Crypto}
use epistole.Config.{Config}
use epistole.Platform.{Platform, PlatformLaws}
use epistole.Platform.Effects.{get-Keeps_outbox}
use epistole.Store.Subscribers.{subscriber_get}
use epistole.Handlers.Pages.{Page, pending_page}
use epistole.Handlers.Subscribe.{
  build_confirm_message, mint_confirm_token, mail_link, post, is_empty, max_email_len,
}

module _ (p : Platform) (laws : PlatformLaws p) (crypto : Crypto) (config : Config) where
  open p use {World, Time, Message, now_utc, mail}
  open laws use {outbox}

  subscriber_get-Keeps_outbox : (email : Text) → Keeps outbox (subscriber_get p email)
  unfolding subscriber_get
  subscriber_get-Keeps_outbox email = search (keeps_rules, get-Keeps_outbox p laws)

  mint_confirm_token-Keeps_outbox :
      (email : Text) (now : Time) → Keeps outbox (mint_confirm_token p crypto config email now)
  unfolding mint_confirm_token
  mint_confirm_token-Keeps_outbox email now = search (keeps_rules, subscriber_get-Keeps_outbox)

  -- The link is minted at `now` in `w`, and one message with it goes out between `w0` and `w'`.
  pub record Mails (email : Text) (now : Time) (w w0 w' : World) (page : Page) : Type 0 where
    pub raw : Text
    pub message : Message
    pub minted : (mint_confirm_token p crypto config email now w).0 ≡ ok raw
    pub built :
        build_confirm_message p crypto config email
          (config.base_url ++ (text "/confirm?token=" ++ raw))
        ≡ ok message
    pub mailed : outbox w' ≡ message ∷ outbox w0
    pub shown : page ≡ pending_page config.brand.name email

  mail_link-Mails :
      (email : Text) (now : Time) (w : World) {page : Page}
      → (mail_link p crypto config email now w).0 ≡ ok page
      → Mails email now w w (mail_link p crypto config email now w).1 page
  unfolding mail_link
  mail_link-Mails email now w h =
      let mint = mint_confirm_token p crypto config email now in
      let (raw, minted, same, h1) = >>=-eq-ok mint _ w h in
      let w1 = (mint w).1 in
      let composed =
        build_confirm_message p crypto config email
          (config.base_url ++ (text "/confirm?token=" ++ raw)) in
      let (message, built, same1, h2) = >>=-eq-ok (lift composed) _ w1 h1 in
      let (_, accepted, same2, h3) = >>=-eq-ok (mail message) _ w1 h2 in
      let (_, _, same3, h4) =
        >>=-eq-ok
          (lift (
            map_err (crypto.new_from_slice config.token_secret)
              (λ e. Error.config (text "HMAC key for log-hash: " ++ e))))
          _ (mail message w1).1 h3 in
      rw (same, same1, same2, same3)
        (record {
          raw = raw;
          message = message;
          minted = minted;
          built = built;
          mailed =
              laws.outbox-mail message w1 accepted
              ∙ ap (λ o. message ∷ o) ((mint_confirm_token-Keeps_outbox email now).at w);
          shown = cc;
        })

  -- A request to subscribe that succeeds sends the one message that carries the link minted for the
  -- address, trimmed and in lower case.
  pub post-Mails :
      (email : Text) (w : World) {page : Page}
      → (post p crypto config email w).0 ≡ ok page
      → Mails
          (to_ascii_lowercase (trim email))
          (now_utc w).0
          (now_utc w).1
          w
          (post p crypto config email w).1
          page
  unfolding post
  post-Mails email w {page} h =
      let email_norm = to_ascii_lowercase (trim email) in
      elim (Bool-cases (is_empty email_norm || ltb max_email_len (length email_norm))) [
        | inl bad ↦ let e = rw bad at h in cc
        | inr fits ↦ elim (Bool-cases (p.is_email_address email_norm)) [
          | inl valid ↦
              let mails =
                mail_link-Mails email_norm (now_utc w).0 (now_utc w).1 (rw (fits, valid) at h) in
              rw (fits, valid)
                (record {
                  raw = mails.raw;
                  message = mails.message;
                  minted = mails.minted;
                  built = mails.built;
                  mailed = mails.mailed ∙ ap (λ o. mails.message ∷ o) (laws.outbox-now_utc w);
                  shown = mails.shown;
                })
          | inr invalid ↦ let e = rw (fits, invalid) at h in cc
        ]
      ]
