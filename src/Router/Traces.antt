-- ===== src/Router/Traces.antt =====
-- The requests that the router of src/lib.rs answers, as the sequences of Handlers.Traces.
use epistole.Prelude.{
  ℕ, ◌≡◌, refl, ◌++◌, none, Option, Option-cases, Bool-cases, inl, inr, Text, text, text_eq, ok,
  map_err,
}
use epistole.Prelude.Effects.{lift, call, >>=-eq-ok}
use epistole.Error.{bad_request}
use epistole.Crypto.{Crypto}
use epistole.Config.{Config}
use epistole.Platform.{Platform, PlatformLaws}
use epistole.Token
use epistole.Handlers.Bearer.{check_bearer}
use epistole.Handlers.Links.{verified}
use epistole.Handlers.Pages.{Rendered}
use epistole.Handlers.Confirm
use epistole.Handlers.Unsubscribe
use epistole.Handlers.Unsubscribe.Safety.{one_click_exact, one_click_other, post-unverified}
use epistole.Handlers.Send
use epistole.Handlers.Webhooks
use epistole.Handlers.Webhooks.{webhook_body_limit, report}
use epistole.Handlers.Traces.{Trace, start, next, confirmed, left, reported, sent, idle}
use epistole.Router.{
  Endpoint, healthz, subscribe_post, confirm_get, confirm_post, unsubscribe_get, unsubscribe_post,
  one_click, archive_get, archive_detail, send_post, delivery_events_post, Request, serve, Answer,
}
use epistole.Router.Laws.{serve-Keeps}

module _ (p : Platform) (laws : PlatformLaws p) (crypto : Crypto) (config : Config) where
  open p use {World, Body, now_utc}
  open laws use {rows}

  abbrev Goes : World → World → Type 0
  Goes = Trace p laws crypto config

  confirm_unverified :
      (raw : Text) (w : World)
      → verified p crypto config Token.confirm raw (now_utc w).0 ≡ none
      → rows (Confirm.post p crypto config raw w).1 ≡ rows w
  unfolding Confirm.post
  confirm_unverified raw w invalid = rw invalid (laws.rows-now_utc w)

  confirm-Goes :
      (raw : Text) (w : World) (r : Rendered)
      → (Confirm.post p crypto config raw w).0 ≡ ok r
      → Goes w (Confirm.post p crypto config raw w).1
  confirm-Goes raw w r h =
      elim (Option-cases (verified p crypto config Token.confirm raw (now_utc w).0)) [
        | inl invalid ↦ next start (idle _ (confirm_unverified raw w invalid))
        | inr (t, valid) ↦ next start (confirmed raw t r valid h)
      ]

  unsubscribe-Goes :
      (raw : Text) (w : World) (r : Rendered)
      → (Unsubscribe.post p crypto config raw w).0 ≡ ok r
      → Goes w (Unsubscribe.post p crypto config raw w).1
  unsubscribe-Goes raw w r h =
      elim (Option-cases (verified p crypto config Token.unsubscribe raw (now_utc w).0)) [
        | inl invalid ↦ next start (idle _ (post-unverified p laws crypto config raw w invalid).1)
        | inr (t, valid) ↦ next start (left raw t r valid h)
      ]

  one_click-Goes :
      (raw field : Text) (w : World) (r : Rendered)
      → (Unsubscribe.one_click p crypto config raw field w).0 ≡ ok r
      → Goes w (Unsubscribe.one_click p crypto config raw field w).1
  one_click-Goes raw field w r h = elim (Bool-cases (text_eq field (text "One-Click"))) [
    | inl exact ↦
        let same = one_click_exact p laws crypto config raw field w exact in
        rw same (unsubscribe-Goes raw w r (rw same at h))
    | inr other ↦
        let same = one_click_other p laws crypto config raw field w other in cc (rw same at h)
  ]

  delivery_events-Goes :
      (authorization : Option Text) (request : Body) (w : World) {code : ℕ}
      → (Webhooks.post p crypto config authorization request w).0 ≡ ok code
      → Goes w (Webhooks.post p crypto config authorization request w).1
  unfolding Webhooks.post
  delivery_events-Goes authorization request w {code} h =
      elim (Bool-cases (check_bearer p crypto authorization config.webhook_auth_token)) [
        | inr refused ↦ cc (rw refused at h)
        | inl accepted ↦
            let (bytes, _, same, h1) =
              >>=-eq-ok
                (call (p.to_bytes request webhook_body_limit)
                  (λ e. bad_request (text "read body: " ++ e)))
                _ w (rw accepted at h) in
            let w1 = (p.to_bytes request webhook_body_limit w).1 in
            let (body, _, same1, h2) =
              >>=-eq-ok
                (lift (map_err (p.event_body bytes) (λ e. bad_request (text "parse JSON: " ++ e))))
                _ w1 h1 in
            rw (accepted, same, same1)
              (next (next start (idle w1 (laws.rows-to_bytes request webhook_body_limit w)))
                (reported body code h2))
      ]

  -- Every request that an endpoint of the server answers without an error is a sequence of steps.
  pub serve-Goes :
      (e : Endpoint) (r : Request p crypto config) (w : World) {a : Answer p}
      → (serve p crypto config e r w).0 ≡ ok a
      → Goes w (serve p crypto config e r w).1
  unfolding serve
  serve-Goes confirm_post r w h =
      let (page, done, same, _) = >>=-eq-ok (Confirm.post p crypto config r.token) _ w h in
      rw same (confirm-Goes r.token w page done)
  serve-Goes unsubscribe_post r w h =
      let (page, done, same, _) = >>=-eq-ok (Unsubscribe.post p crypto config r.token) _ w h in
      rw same (unsubscribe-Goes r.token w page done)
  serve-Goes one_click r w h =
      let (page, done, same, _) =
        >>=-eq-ok (Unsubscribe.one_click p crypto config r.token r.list_unsubscribe) _ w h in
      rw same (one_click-Goes r.token r.list_unsubscribe w page done)
  serve-Goes send_post r w h =
      let (reply, done, same, _) =
        >>=-eq-ok (Send.post p crypto config r.authorization r.body) _ w h in
      rw same (next start (sent r.authorization r.body reply done))
  serve-Goes delivery_events_post r w h =
      let (code, done, same, _) =
        >>=-eq-ok (Webhooks.post p crypto config r.authorization r.body) _ w h in
      rw same (delivery_events-Goes r.authorization r.body w done)
  serve-Goes healthz r w h =
      next start (idle _ ((serve-Keeps p laws crypto config healthz r refl).at w))
  serve-Goes subscribe_post r w h =
      next start (idle _ ((serve-Keeps p laws crypto config subscribe_post r refl).at w))
  serve-Goes confirm_get r w h =
      next start (idle _ ((serve-Keeps p laws crypto config confirm_get r refl).at w))
  serve-Goes unsubscribe_get r w h =
      next start (idle _ ((serve-Keeps p laws crypto config unsubscribe_get r refl).at w))
  serve-Goes archive_get r w h =
      next start (idle _ ((serve-Keeps p laws crypto config archive_get r refl).at w))
  serve-Goes archive_detail r w h =
      next start (idle _ ((serve-Keeps p laws crypto config archive_detail r refl).at w))
