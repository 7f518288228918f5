-- ===== src/Handlers/Unsubscribe/Refines.antt =====
-- `POST /unsubscribe` and `POST /unsubscribe/one-click` implement the unsubscribe event of the consent
-- of an address.
use epistole.Prelude.{
  ◌≡◌, refl, none, some, Option, ◌==◌, Text, to_ascii_lowercase, ok, arith, Bool-cases, inl, inr,
}
use epistole.Prelude.Effects.{>>=-eq-ok}
use epistole.Crypto.{Crypto}
use epistole.Config.{Config}
use epistole.Consent.{Consent, at, absent, step, consent_of}
use epistole.Consent
use epistole.Platform.{Platform, PlatformLaws}
use epistole.Records.{Subscriber, unsubscribed, state_eq}
use epistole.Token
use epistole.Token.{Token}
use epistole.Store.Subscribers.{subscriber_get}
use epistole.Store.Subscribers.Laws.{subscriber_at, subscriber_get_lem}
use epistole.Handlers.Links.{verified}
use epistole.Handlers.Moves.{
  Moves, IsKeyed, IsKeyed-rows, Moves-rows, put-pure, Moves-Wrote, Moves-same, IsKeyed-Wrote,
}
use epistole.Handlers.Pages.{Page, Rendered, no_store, unsubscribed_page, invalid_token_page}
use epistole.Handlers.Unsubscribe.{next_generation, apply_row, apply_token, apply, respond, post}

-- The page for the consent that an unsubscription leaves.
abbrev pub page_of : Config → Consent → Page
page_of config (at unsubscribed h) = unsubscribed_page config.brand.name
page_of config _ = invalid_token_page config.brand.name

module _ (p : Platform) (laws : PlatformLaws p) (crypto : Crypto) (config : Config) where
  open p use {World, Time, now_utc}
  open laws use {rows}

  -- The whole effect of an unsubscription: the address moves, rows keep their keys, and the page
  -- tells the visitor what the address has become.
  pub record Leaves (t : Token) (before : Consent) (w w' : World) (page : Page) : Type 0 where
    pub moves :
        Moves p laws (to_ascii_lowercase t.email) (Consent.unsubscribe t.generation) before w w'
    pub keyed : IsKeyed p laws w'
    pub shown : page ≡ page_of config (step before (Consent.unsubscribe t.generation))

  apply_row-Leaves :
      (t : Token) (now : Time) (o : Option (Subscriber Time)) (w : World) (page : Page)
      → IsKeyed p laws w
      → subscriber_at p laws w (to_ascii_lowercase t.email) ≡ ok o
      → (apply_row p crypto config t now o w).0 ≡ ok page
      → Leaves t (consent_of o) w (apply_row p crypto config t now o w).1 page
  unfolding apply_row consent_of step
  apply_row-Leaves t now none w page v found h = record {
    moves = Moves-same p laws none _ _ found refl;
    keyed = v;
    shown = ground arith;
  }
  apply_row-Leaves t now (some s) w page v found h =
      elim (Bool-cases (state_eq s.state unsubscribed)) [
        | inl old ↦ rw old (record {
          moves = Moves-same p laws (some s) _ _ found (ground arith);
          keyed = v;
          shown = ground arith;
        })
        | inr new ↦ elim (Bool-cases (s.generation == t.generation)) [
          | inl fresh ↦
              let (wrote, shown) =
                put-pure p laws
                  (record s {
                    state = unsubscribed;
                    unsubscribed_at = some now;
                    generation = next_generation s.generation;
                  })
                  (unsubscribed_page config.brand.name) w (rw (new, fresh) at h) in
              rw (new, fresh)
                (record {
                  moves =
                      Moves-Wrote p laws _ (some s) _ _ wrote found (v.at _ s found) (ground arith);
                  keyed = IsKeyed-Wrote p laws _ wrote v;
                  shown = ground arith;
                })
          | inr stale ↦
              rw (new, stale)
                (record {
                  moves = Moves-same p laws (some s) _ _ found (ground arith);
                  keyed = v;
                  shown = ground arith;
                })
        ]
      ]

  Leaves-rows :
      {t : Token} {before : Consent} {w v w' : World} {page : Page}
      → rows v ≡ rows w
      → Leaves t before v w' page
      → Leaves t before w w' page
  Leaves-rows same h = record {
    moves = Moves-rows p laws same h.moves;
    keyed = h.keyed;
    shown = h.shown;
  }

  apply-Leaves :
      (raw : Text) (now : Time) (w : World) (t : Token) (page : Page)
      → IsKeyed p laws w
      → verified p crypto config Token.unsubscribe raw now ≡ some t
      → (apply p crypto config raw now w).0 ≡ ok page
      → (before : Consent) × Leaves t before w (apply p crypto config raw now w).1 page
  unfolding apply
  apply-Leaves raw now w t page v valid h =
      let (o, got, same, shown) =
        >>=-eq-ok (subscriber_get p t.email) _ w (rw (valid, apply_token) at h) in
      let w2 = (subscriber_get p t.email w).1 in
      let (read, found) = subscriber_get_lem p laws t.email w got in
      rw (valid, apply_token, same)
        (
          consent_of o,
          Leaves-rows read
              (apply_row-Leaves t now o w2 page (IsKeyed-rows p laws read v) found shown),
        )

  respond-Leaves :
      (raw : Text) (now : Time) (w : World) (t : Token) (r : Rendered)
      → IsKeyed p laws w
      → verified p crypto config Token.unsubscribe raw now ≡ some t
      → (respond p crypto config raw now w).0 ≡ ok r
      → (before : Consent) × Leaves t before w (respond p crypto config raw now w).1 r.page
        × (r ≡ no_store r.page)
  unfolding respond
  respond-Leaves raw now w t r v valid h =
      let (page, applied, same, h2) = >>=-eq-ok (apply p crypto config raw now) _ w h in
      let (before, leaves) = apply-Leaves raw now w t page v valid applied in
      let result : no_store page ≡ r = cc (h2) in
      rw same (before, rw (← result) leaves, rw (← result))

  -- An unsubscribe link that verifies, submitted to `POST /unsubscribe` in a world whose subscriber
  -- rows stand under their own lowercased emails, moves its address by the unsubscribe event of its
  -- generation if the handler returns a page: no other address and no other keyspace changes, rows
  -- keep their keys, and the page, which is never cached, says what the address has become.
  pub post-Leaves :
      (raw : Text) (w : World) (t : Token) (r : Rendered)
      → IsKeyed p laws w
      → verified p crypto config Token.unsubscribe raw (now_utc w).0 ≡ some t
      → (post p crypto config raw w).0 ≡ ok r
      → (before : Consent) × Leaves t before w (post p crypto config raw w).1 r.page
        × (r ≡ no_store r.page)
  unfolding post
  post-Leaves raw w t r v valid h =
      let as_before = laws.rows-now_utc w in
      let (before, leaves, shown) =
        respond-Leaves raw (now_utc w).0 (now_utc w).1 t r (IsKeyed-rows p laws as_before v) valid
          h in
      (before, Leaves-rows as_before leaves, shown)
