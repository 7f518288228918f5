-- ===== src/Handlers/Confirm/Safety.antt =====
-- What `/confirm` never does.
use epistole.Prelude.{
  ◌≡◌, ◌≢◌, refl, ◌∙◌, none, some, Option, Text, to_ascii_lowercase, ok, Option-cases, inl, inr,
}
use epistole.Prelude.Int.{◌≤ℤ◌}
use epistole.Prelude.Effects.{Keeps, keeps_rules}
use epistole.Crypto.{Crypto, CryptoLaws}
use epistole.Config.{Config}
use epistole.Platform.{Platform, PlatformLaws}
use epistole.Token
use epistole.Token.{Token, kind_eq}
use epistole.Token.Soundness.{Authentic}
use epistole.Store.Subscribers.Laws.{subscriber_get-Keeps}
use epistole.Handlers.Links.{verified}
use epistole.Handlers.Links.Laws.{verified-Authentic}
use epistole.Handlers.Moves.{IsKeyed, consent_at, consent_at-rows, Moves-changed}
use epistole.Handlers.Pages.{Rendered, no_store, invalid_token_page}
use epistole.Handlers.Confirm.{preview, get, commit, post}
use epistole.Handlers.Confirm.Refines.{post-Confirms}

module _ (p : Platform) (laws : PlatformLaws p) (crypto : Crypto) (config : Config) where
  open p use {World, Time, now_utc, unix_timestamp}
  open laws use {rows}

  preview-Keeps : (raw : Text) (o : Option Token) → Keeps rows (preview p crypto config raw o)
  unfolding preview
  preview-Keeps raw none = search keeps_rules
  preview-Keeps raw (some t) = search (keeps_rules, subscriber_get-Keeps p laws)

  -- `GET /confirm` changes no row, whatever the link, and also when it fails.
  pub get-Keeps : (raw : Text) → Keeps rows (get p crypto config raw)
  unfolding get
  get-Keeps raw = record {
    at = λ w.
        (preview-Keeps raw (verified p crypto config Token.confirm raw (now_utc w).0)).at
          (now_utc w).1
        ∙ laws.rows-now_utc w;
  }

  -- Without a confirm token, `POST /confirm` answers with the invalid-link page and writes nothing.
  post-invalid :
      (raw : Text) (w : World)
      → verified p crypto config Token.confirm raw (now_utc w).0 ≡ none
      → ((post p crypto config raw w).0 ≡ ok (no_store (invalid_token_page config.brand.name)))
        × (rows (post p crypto config raw w).1 ≡ rows w)
  unfolding post
  post-invalid raw w invalid = rw (invalid, commit) (refl, laws.rows-now_utc w)

  module _ (crypto_laws : CryptoLaws crypto) where
    -- Consent comes from a link. If `POST /confirm` returns a page from a world whose subscriber
    -- rows stand under their own lowercased emails, and the consent that the store holds for an
    -- address differs afterwards, then the link carries a confirm token for that address,
    -- authenticated by the configured secret, and the token has not expired.
    pub post-authorised :
        (raw : Text) (w : World) (r : Rendered) (k : Text)
        → IsKeyed p laws w
        → (post p crypto config raw w).0 ≡ ok r
        → consent_at p laws (post p crypto config raw w).1 k ≢ consent_at p laws w k
        → (t : Token) × Authentic crypto raw config.token_secret t
          × (t.kind ≡ Token.confirm)
          × (to_ascii_lowercase t.email ≡ k)
          × (unix_timestamp (now_utc w).0 ≤ℤ t.exp_unix)
    post-authorised raw w r k v h changed =
        elim (Option-cases (verified p crypto config Token.confirm raw (now_utc w).0)) [
          | inl invalid ↦ absurd (changed (consent_at-rows p laws k (post-invalid raw w invalid).1))
          | inr (t, valid) ↦
              let (authentic, right, fresh) =
                verified-Authentic p crypto crypto_laws config Token.confirm raw (now_utc w).0 t
                  valid in
              let (_, confirms, _) = post-Confirms p laws crypto config raw w t r v valid h in
              (t, authentic, right, Moves-changed p laws k confirms.moves changed, fresh)
        ]
