-- ===== src/Handlers/Unsubscribe/Safety.antt =====
-- What `/unsubscribe` never does.
use epistole.Prelude.{
  ◌≡◌, ◌≢◌, refl, ◌∙◌, none, some, Option, true, false, Text, text, text_eq, text_eq_sound,
  to_ascii_lowercase, Result, ok, err, Bool-cases, Option-cases, inl, inr,
}
use epistole.Prelude.Int.{◌≤ℤ◌}
use epistole.Prelude.Effects.{raise, Keeps, keeps_rules}
use epistole.Error.{Error}
use epistole.Crypto.{Crypto, CryptoLaws}
use epistole.Config.{Config}
use epistole.Consent.{Consent}
use epistole.Platform.{Platform, PlatformLaws}
use epistole.Token
use epistole.Token.{Token}
use epistole.Token.Soundness.{Authentic}
use epistole.Store.Subscribers.Laws.{subscriber_get-Keeps}
use epistole.Handlers.Links.{verified}
use epistole.Handlers.Links.Laws.{verified-Authentic}
use epistole.Handlers.Moves.{IsKeyed, consent_at, consent_at-rows, Moves-changed}
use epistole.Handlers.Pages.{Rendered, no_store, invalid_token_page}
use epistole.Handlers.Unsubscribe.{
  not_one_click, preview, get, apply, apply_token, respond, post, one_click,
}
use epistole.Handlers.Unsubscribe.Refines.{Leaves, post-Leaves}

module _ (p : Platform) (laws : PlatformLaws p) (crypto : Crypto) (config : Config) where
  open p use {World, now_utc, unix_timestamp}
  open laws use {rows}

  preview-Keeps : (raw : Text) (o : Option Token) → Keeps rows (preview p crypto config raw o)
  unfolding preview
  preview-Keeps raw none = search keeps_rules
  preview-Keeps raw (some t) = search (keeps_rules, subscriber_get-Keeps p laws)

  -- `GET /unsubscribe` changes no row, whatever the link, and also when it fails.
  pub get-Keeps_rows : (raw : Text) → Keeps rows (get p crypto config raw)
  unfolding get
  get-Keeps_rows raw = record {
    at = λ w.
        (preview-Keeps raw (verified p crypto config Token.unsubscribe raw (now_utc w).0)).at
          (now_utc w).1
        ∙ laws.rows-now_utc w;
  }

  -- A link that does not verify as an unsubscription gets the invalid-link page and changes no row.
  pub post-unverified :
      (raw : Text) (w : World)
      → verified p crypto config Token.unsubscribe raw (now_utc w).0 ≡ none
      → ((post p crypto config raw w).0 ≡ ok (no_store (invalid_token_page config.brand.name)))
        × (rows (post p crypto config raw w).1 ≡ rows w)
  unfolding post apply
  post-unverified raw w invalid = rw (invalid, respond, apply_token) (refl, laws.rows-now_utc w)

  -- A one-click request without the exact marker is refused and changes no row.
  pub one_click_refused :
      (raw field : Text) (w : World)
      → field ≢ text "One-Click"
      → ((one_click p crypto config raw field w).0 ≡ err not_one_click)
        × (rows (one_click p crypto config raw field w).1 ≡ rows w)
  unfolding one_click
  one_click_refused raw field w ne = elim (Bool-cases (text_eq field (text "One-Click"))) [
    | inl exact ↦ absurd (ne (text_eq_sound field (text "One-Click") exact))
    | inr other ↦ rw other (refl, refl)
  ]

  pub one_click_exact :
      (raw field : Text) (w : World)
      → text_eq field (text "One-Click") ≡ true
      → one_click p crypto config raw field w ≡ post p crypto config raw w
  unfolding one_click post
  one_click_exact raw field w exact = rw exact refl

  pub one_click_other :
      (raw field : Text) (w : World)
      → text_eq field (text "One-Click") ≡ false
      → one_click p crypto config raw field w ≡ raise not_one_click w
  unfolding one_click
  one_click_other raw field w other = rw other refl

  -- A one-click request on a link that verifies, made in a world whose subscriber rows stand under
  -- their own lowercased emails, has the exact marker `One-Click` if it returns a page, and moves
  -- the address of the link by the unsubscribe event of its generation.
  pub one_click-Leaves :
      (raw field : Text) (w : World) (t : Token) (r : Rendered)
      → IsKeyed p laws w
      → verified p crypto config Token.unsubscribe raw (now_utc w).0 ≡ some t
      → (one_click p crypto config raw field w).0 ≡ ok r
      → (field ≡ text "One-Click")
        × ((before : Consent) × Leaves p laws crypto config t before w
              (one_click p crypto config raw field w).1
              r.page)
  one_click-Leaves raw field w t r v valid h =
      elim (Bool-cases (text_eq field (text "One-Click"))) [
        | inl exact ↦
            let same = one_click_exact raw field w exact in
            let (before, leaves, _) =
              post-Leaves p laws crypto config raw w t r v valid (rw same at h) in
            (text_eq_sound field (text "One-Click") exact, (before, rw same leaves))
        | inr other ↦
            let same = one_click_other raw field w other in
            let refused : ◌≡◌ {A = Result Error Rendered} (err not_one_click) (ok r) =
              rw same at h in
            cc
      ]

  module _ (crypto_laws : CryptoLaws crypto) where
    -- If `POST /unsubscribe` returns a page from a world whose subscriber rows stand under their
    -- own lowercased emails, and the consent that the store holds for an address differs
    -- afterwards, then the link carries an unsubscribe token for that address, authenticated by the
    -- configured secret, and the token has not expired.
    pub post-from_link :
        (raw : Text) (w : World) (r : Rendered) (k : Text)
        → IsKeyed p laws w
        → (post p crypto config raw w).0 ≡ ok r
        → consent_at p laws (post p crypto config raw w).1 k ≢ consent_at p laws w k
        → (t : Token) × Authentic crypto raw config.token_secret t
          × (t.kind ≡ Token.unsubscribe)
          × (to_ascii_lowercase t.email ≡ k)
          × (unix_timestamp (now_utc w).0 ≤ℤ t.exp_unix)
    post-from_link raw w r k v h changed =
        elim (Option-cases (verified p crypto config Token.unsubscribe raw (now_utc w).0)) [
          | inl invalid ↦
              absurd (changed (consent_at-rows p laws k (post-unverified raw w invalid).1))
          | inr (t, valid) ↦
              let (authentic, right, fresh) =
                verified-Authentic p crypto crypto_laws config Token.unsubscribe raw (now_utc w).0 t
                  valid in
              let (_, leaves, _) = post-Leaves p laws crypto config raw w t r v valid h in
              (t, authentic, right, Moves-changed p laws k leaves.moves changed, fresh)
        ]
