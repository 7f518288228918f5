-- ===== src/Handlers/Confirm/Refines.antt =====
-- `POST /confirm` implements the confirm event of the consent of an address.
use epistole.Prelude.{
  ◌≡◌, refl, ◌∙◌, none, some, Option, ◌==◌, Text, to_ascii_lowercase, ok, arith, Bool-cases, inl,
  inr,
}
use epistole.Prelude.Effects.{>>=-eq-ok}
use epistole.Crypto.{Crypto}
use epistole.Config.{Config}
use epistole.Consent.{Consent, at, absent, step, consent_of}
use epistole.Consent
use epistole.Platform.{Platform, PlatformLaws}
use epistole.Records.{Subscriber, active, state_eq}
use epistole.Token
use epistole.Token.{Token}
use epistole.Store.Subscribers.{subscriber_get}
use epistole.Store.Subscribers.Laws.{subscriber_at, subscriber_get_lem}
use epistole.Handlers.Links.{verified}
use epistole.Handlers.Moves.{
  Moves, IsKeyed, IsKeyed-rows, Moves-rows, put-pure, Moves-Wrote, Moves-same, IsKeyed-Wrote,
}
use epistole.Handlers.Pages.{Page, Rendered, no_store, confirmed_page, invalid_token_page}
use epistole.Handlers.Confirm.{commit_row, commit, post}

-- The page for the consent that a confirmation leaves.
abbrev pub page_of : Config → Consent → Page
page_of config (at active h) = confirmed_page config.brand.name
page_of config _ = invalid_token_page config.brand.name

module _ (p : Platform) (laws : PlatformLaws p) (crypto : Crypto) (config : Config) where
  open p use {World, Time, now_utc}
  open laws use {rows}

  -- The whole effect of a confirmation: the address moves, rows keep their keys, and the page tells
  -- the visitor what the address has become.
  pub record Confirms (t : Token) (before : Consent) (w w' : World) (page : Page) : Type 0 where
    pub moves : Moves p laws (to_ascii_lowercase t.email) (Consent.confirm t.generation) before w w'
    pub keyed : IsKeyed p laws w'
    pub shown : page ≡ page_of config (step before (Consent.confirm t.generation))

  commit_row-Confirms :
      (t : Token) (now : Time) (o : Option (Subscriber Time)) (w : World) (page : Page)
      → IsKeyed p laws w
      → subscriber_at p laws w (to_ascii_lowercase t.email) ≡ ok o
      → (commit_row p crypto config t now o w).0 ≡ ok page
      → Confirms t (consent_of o) w (commit_row p crypto config t now o w).1 page
  unfolding commit_row consent_of step
  commit_row-Confirms t now none w page v found h =
      let (wrote, shown) = put-pure p laws _ (confirmed_page config.brand.name) w h in
      record {
        moves = Moves-Wrote p laws _ none _ _ wrote found refl refl;
        keyed = IsKeyed-Wrote p laws _ wrote v;
        shown = shown;
      }
  commit_row-Confirms t now (some s) w page v found h =
      elim (Bool-cases (state_eq s.state active)) [
        | inl old ↦ rw old (record {
          moves = Moves-same p laws (some s) _ _ found (ground arith);
          keyed = v;
          shown = ground arith;
        })
        | inr new ↦ elim (Bool-cases (s.generation == t.generation)) [
          | inl fresh ↦
              let (wrote, shown) =
                put-pure p laws (record s { state = active; confirmed_at = some now })
                  (confirmed_page config.brand.name) w (rw (new, fresh) at h) in
              rw (new, fresh)
                (record {
                  moves =
                      Moves-Wrote p laws _ (some s) _ _ wrote found (v.at _ s found) (ground arith);
                  keyed = IsKeyed-Wrote p laws _ wrote v;
                  shown = ground arith;
                })
          | inr stale ↦
              rw (new, stale)
                (record {
                  moves = Moves-same p laws (some s) _ _ found (ground arith);
                  keyed = v;
                  shown = ground arith;
                })
        ]
      ]

  Confirms-rows :
      {t : Token} {before : Consent} {w v w' : World} {page : Page}
      → rows v ≡ rows w
      → Confirms t before v w' page
      → Confirms t before w w' page
  Confirms-rows same h = record {
    moves = Moves-rows p laws same h.moves;
    keyed = h.keyed;
    shown = h.shown;
  }

  -- A confirm link that verifies, submitted to `POST /confirm` in a world whose subscriber rows
  -- stand under their own lowercased emails, moves its address by the confirm event of its
  -- generation if the handler returns a page: no other address and no other keyspace changes, rows
  -- keep their keys, and the page, which is never cached, says what the address has become. An
  -- address that is not active, unsubscribed ones included, becomes active exactly if the
  -- generation is its own, and one without a row becomes active at the generation.
  pub post-Confirms :
      (raw : Text) (w : World) (t : Token) (r : Rendered)
      → IsKeyed p laws w
      → verified p crypto config Token.confirm raw (now_utc w).0 ≡ some t
      → (post p crypto config raw w).0 ≡ ok r
      → (before : Consent) × Confirms t before w (post p crypto config raw w).1 r.page
        × (r ≡ no_store r.page)
  unfolding post
  post-Confirms raw w t r v valid h =
      let w1 = (now_utc w).1 in
      let (o, got, same, h1) =
        >>=-eq-ok (subscriber_get p t.email) _ w1 (rw (valid, commit) at h) in
      let w2 = (subscriber_get p t.email w1).1 in
      let (page, shown, same', h2) =
        >>=-eq-ok (commit_row p crypto config t (now_utc w).0 o) _ w2 h1 in
      let (read, found) = subscriber_get_lem p laws t.email w1 got in
      let as_before = read ∙ laws.rows-now_utc w in
      let confirms =
        commit_row-Confirms t (now_utc w).0 o w2 page (IsKeyed-rows p laws as_before v) found
          shown in
      let result : no_store page ≡ r = cc (h2) in
      rw (valid, commit, same, same')
        (consent_of o, rw (← result) (Confirms-rows as_before confirms), rw (← result))
