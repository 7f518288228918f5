-- ===== src/Handlers/Answers.antt =====
-- What the visitor handlers of src/handlers/confirm.rs and unsubscribe.rs answer while the database
-- works.
use epistole.Prelude.{
  refl, ap, ◌==◌, ◌∙◌, none, some, Option, Text, text, text_eq_refl, Bool-cases, Option-cases, inl,
  inr,
}
use epistole.Prelude.Effects.{pure, ◌>>◌, Returns, >>=-Returns}
use epistole.Crypto.{Crypto}
use epistole.Config.{Config}
use epistole.Platform.{Platform, PlatformLaws, subscribers}
use epistole.Platform.Available.{Available}
use epistole.Records.{Subscriber, active, unsubscribed, state_eq}
use epistole.Token
use epistole.Token.{Token, TokenKind}
use epistole.Store.Subscribers.{subscriber_get, subscriber_put, decode_row}
use epistole.Store.Subscribers.Answers.{IsReadable, subscriber_get-Returns, subscriber_put-Returns}
use epistole.Handlers.Links.{verified}
use epistole.Handlers.Pages.{Page}
use epistole.Handlers.Confirm
use epistole.Handlers.Confirm.{commit_row}
use epistole.Handlers.Unsubscribe
use epistole.Handlers.Unsubscribe.{apply_row, one_click}
use epistole.Handlers.Unsubscribe.Safety.{one_click_exact}

module _ (p : Platform) (laws : PlatformLaws p) (available : Available p) (crypto : Crypto)
    (config : Config) where
  open p use {World, Time, now_utc}

  put-Returns :
      (s : Subscriber Time) (page : Page) (w : World) → Returns (subscriber_put p s >> pure page) w
  put-Returns s page w =
      >>=-Returns (subscriber_put p s) _ w (subscriber_put-Returns p laws available s w)
        λ _ _. (page, refl)

  IsReadable-now_utc : (w : World) → IsReadable p laws w → IsReadable p laws (now_utc w).1
  IsReadable-now_utc w readable = record {
    at = λ k.
        let (o, found) = readable.at k in
        (o, ap (λ r. decode_row p (r subscribers k)) (laws.rows-now_utc w) ∙ found);
  }

  commit_row-Returns :
      (t : Token) (now : Time) (o : Option (Subscriber Time)) (w : World)
      → Returns (commit_row p crypto config t now o) w
  unfolding commit_row
  commit_row-Returns t now none w = put-Returns _ _ w
  commit_row-Returns t now (some s) w = elim (Bool-cases (state_eq s.state active)) [
    | inl old ↦ rw old (_, refl)
    | inr new ↦ elim (Bool-cases (s.generation == t.generation)) [
      | inl fresh ↦ rw (new, fresh) (put-Returns _ _ w)
      | inr stale ↦ rw (new, stale) (_, refl)
    ]
  ]

  apply_row-Returns :
      (t : Token) (now : Time) (o : Option (Subscriber Time)) (w : World)
      → Returns (apply_row p crypto config t now o) w
  unfolding apply_row
  apply_row-Returns t now none w = (_, refl)
  apply_row-Returns t now (some s) w = elim (Bool-cases (state_eq s.state unsubscribed)) [
    | inl old ↦ rw old (_, refl)
    | inr new ↦ elim (Bool-cases (s.generation == t.generation)) [
      | inl fresh ↦ rw (new, fresh) (put-Returns _ _ w)
      | inr stale ↦ rw (new, stale) (_, refl)
    ]
  ]

  read-Returns :
      (email : Text) (w : World)
      → IsReadable p laws w
      → Returns (subscriber_get p email) (now_utc w).1
  read-Returns email w readable =
      subscriber_get-Returns p laws available email (now_utc w).1 (IsReadable-now_utc w readable)

  confirm_get-Returns :
      (raw : Text) (w : World) → IsReadable p laws w → Returns (Confirm.get p crypto config raw) w
  unfolding Confirm.get
  confirm_get-Returns raw w readable =
      elim (Option-cases (verified p crypto config Token.confirm raw (now_utc w).0)) [
        | inr (t, valid) ↦
            let (o, got) = read-Returns t.email w readable in rw (valid, got) (_, refl)
        | inl invalid ↦ rw invalid (_, refl)
      ]

  unsubscribe_get-Returns :
      (raw : Text) (w : World)
      → IsReadable p laws w
      → Returns (Unsubscribe.get p crypto config raw) w
  unfolding Unsubscribe.get
  unsubscribe_get-Returns raw w readable =
      elim (Option-cases (verified p crypto config Token.unsubscribe raw (now_utc w).0)) [
        | inr (t, valid) ↦
            let (o, got) = read-Returns t.email w readable in rw (valid, got) (_, refl)
        | inl invalid ↦ rw invalid (_, refl)
      ]

  confirm_post-Returns :
      (raw : Text) (w : World) → IsReadable p laws w → Returns (Confirm.post p crypto config raw) w
  unfolding Confirm.post
  confirm_post-Returns raw w readable =
      elim (Option-cases (verified p crypto config Token.confirm raw (now_utc w).0)) [
        | inr (t, valid) ↦
            let (o, got) = read-Returns t.email w readable in
            let (page, done) =
              commit_row-Returns t (now_utc w).0 o (subscriber_get p t.email (now_utc w).1).1 in
            rw (valid, got, done) (_, refl)
        | inl invalid ↦ rw invalid (_, refl)
      ]

  unsubscribe_post-Returns :
      (raw : Text) (w : World)
      → IsReadable p laws w
      → Returns (Unsubscribe.post p crypto config raw) w
  unfolding Unsubscribe.post Unsubscribe.apply
  unsubscribe_post-Returns raw w readable =
      elim (Option-cases (verified p crypto config Token.unsubscribe raw (now_utc w).0)) [
        | inr (t, valid) ↦
            let (o, got) = read-Returns t.email w readable in
            let (page, done) =
              apply_row-Returns t (now_utc w).0 o (subscriber_get p t.email (now_utc w).1).1 in
            rw (valid, got, done) (_, refl)
        | inl invalid ↦ rw invalid (_, refl)
      ]

  -- While the calls of the database and the encoding of rows succeed and every subscriber row
  -- decodes, each of the five routes of a link answers with a page, whatever the link is: the two
  -- previews, the two forms, and the one-click route with its marker.
  pub links-Returns :
      (raw : Text) (w : World)
      → IsReadable p laws w
      → Returns (Confirm.get p crypto config raw) w
        × Returns (Confirm.post p crypto config raw) w
        × Returns (Unsubscribe.get p crypto config raw) w
        × Returns (Unsubscribe.post p crypto config raw) w
        × Returns (one_click p crypto config raw (text "One-Click")) w
  links-Returns raw w readable =
      let clicked =
        one_click_exact p laws crypto config raw (text "One-Click") w
          (text_eq_refl (text "One-Click")) in
      let left = unsubscribe_post-Returns raw w readable in
      (
        confirm_get-Returns raw w readable,
        confirm_post-Returns raw w readable,
        unsubscribe_get-Returns raw w readable,
        left,
        rw clicked left,
      )
