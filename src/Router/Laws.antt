-- ===== src/Router/Laws.antt =====
-- What the routes of src/lib.rs let a request do.
use epistole.Prelude.{
  Bool-cases, subst, sym, ◌≡◌, refl, ◌⊎◌, inl, inr, Bool, true, false, Option, none, some, List, [],
  ◌∷◌, Text, text, All, ok, err, arith, Result,
}
use epistole.Prelude.Effects.{Keeps, keeps_rules}
use epistole.Error.{Error, unauthorized}
use epistole.Crypto.{Crypto, CryptoLaws}
use epistole.Config.{Config}
use epistole.Platform.{Platform, PlatformLaws, Space}
use epistole.Handlers.Bearer.{check_bearer}
use epistole.Handlers.Bearer.Laws.{Bears, check_bearer_iff}
use epistole.Handlers.Confirm.Safety.{get-Keeps}
use epistole.Handlers.Unsubscribe.Safety.{get-Keeps_rows}
use epistole.Handlers.Archive
use epistole.Handlers.Subscribe.Laws.{post-Keeps_rows}
use epistole.Handlers.Archive.{found}
use epistole.Handlers.Send
use epistole.Handlers.Send.Retries.{send_get-Keeps}
use epistole.Handlers.Webhooks
use epistole.Store.Scans.{scan, recent_sends}
use epistole.Records.{Send, SendId}
use epistole.Router.{
  get, Endpoint, healthz, subscribe_post, confirm_get, unsubscribe_get, archive_get, archive_detail,
  send_post, delivery_events_post, Route, Group, router, public_routes, operator_routes,
  webhook_routes, plain, Request, serve,
}

-- `x` stands in a list.
abbrev pub IsAmong : {A : Type 0} → A → List A → Type 0
IsAmong x [] = ⊥
IsAmong x (y ∷ ys) = (x ≡ y) ⊎ IsAmong x ys

-- What holds of all members holds of each.
All-IsAmong : {A : Type 0} (P : A → Type 0) (x : A) (xs : List A) → All P xs → IsAmong x xs → P x
All-IsAmong P x [] all m = absurd m
All-IsAmong P x (y ∷ ys) (first, all) (inl same) = subst P (sym same) first
All-IsAmong P x (y ∷ ys) (first, all) (inr later) = All-IsAmong P x ys all later

-- A route of the router, with its group.
pub record IsRouted (g : Group) (route : Route) : Type 0 where
  pub group : IsAmong g router
  pub member : IsAmong route g.routes

IsRouted-All :
    (P : Group → Route → Type 0) (g : Group) (route : Route)
    → All (λ g. All (P g) g.routes) router
    → IsRouted g route
    → P g route
IsRouted-All P g route all routed =
    All-IsAmong (P g) route g.routes
      (All-IsAmong (λ g. All (P g) g.routes) g router all routed.group) routed.member

-- The handlers of the `get` routes, and the one that mails a confirm link.
abbrev is_preview : Endpoint → Bool
is_preview healthz = true
is_preview confirm_get = true
is_preview unsubscribe_get = true
is_preview archive_get = true
is_preview archive_detail = true
is_preview subscribe_post = true
is_preview _ = false

abbrev Previews : Group → Route → Type 0
Previews g route =
    (route.method ≡ get) ⊎ (route.endpoint ≡ subscribe_post) → is_preview route.endpoint ≡ true

-- Handlers beyond the rate limit check a secret, apart from `healthz`.
abbrev is_guarded : Endpoint → Bool
is_guarded healthz = true
is_guarded send_post = true
is_guarded delivery_events_post = true
is_guarded _ = false

abbrev Guarded : Group → Route → Type 0
Guarded g route = g.rate_limited ≡ false → is_guarded route.endpoint ≡ true

router-Guarded : All (λ g. All (Guarded g) g.routes) router
unfolding router public_routes operator_routes webhook_routes
router-Guarded = ground arith

module _ (p : Platform) (laws : PlatformLaws p) (crypto : Crypto) (config : Config) where
  open p use {World, Time, Ulid}
  open laws use {rows}

  iter-Keeps :
      {A : Type 0} (f : List (Result Text (Text × Text)) → Result Error A) (s : Space)
      → Keeps rows (scan p f s)
  iter-Keeps f s = record { at = laws.rows-iter s }

  archive_get-Keeps : Keeps rows (Archive.get p config)
  unfolding Archive.get recent_sends
  archive_get-Keeps = search (keeps_rules, iter-Keeps)

  found-Keeps : (o : Option (Send Ulid Time)) → Keeps rows (found p config o)
  unfolding found
  found-Keeps none = search keeps_rules
  found-Keeps (some send) = search keeps_rules

  archive_detail-Keeps : (id : SendId Ulid) → Keeps rows (Archive.detail p config id)
  unfolding Archive.detail
  archive_detail-Keeps id = search (keeps_rules, send_get-Keeps p laws crypto config, found-Keeps)

  pub serve-Keeps :
      (e : Endpoint) (r : Request p crypto config)
      → is_preview e ≡ true
      → Keeps rows (serve p crypto config e r)
  unfolding serve
  serve-Keeps healthz r h = search keeps_rules
  serve-Keeps confirm_get r h = search (keeps_rules, get-Keeps p laws crypto config)
  serve-Keeps unsubscribe_get r h = search (keeps_rules, get-Keeps_rows p laws crypto config)
  serve-Keeps archive_get r h = search (keeps_rules, archive_get-Keeps)
  serve-Keeps archive_detail r h = search (keeps_rules, archive_detail-Keeps)
  serve-Keeps subscribe_post r h = search (keeps_rules, post-Keeps_rows p laws crypto config)
  serve-Keeps _ r h = cc

  serve_guarded :
      (e : Endpoint) (r : Request p crypto config) (w : World)
      → is_guarded e ≡ true
      → check_bearer p crypto r.authorization config.send_auth_token ≡ false
      → check_bearer p crypto r.authorization config.webhook_auth_token ≡ false
      → (serve p crypto config e r w ≡ (ok (plain (text "ok")), w))
        ⊎ (serve p crypto config e r w ≡ (err unauthorized, w))
  unfolding serve Send.post Webhooks.post
  serve_guarded healthz r w h s k = inl refl
  serve_guarded send_post r w h s k = inr (rw s refl)
  serve_guarded delivery_events_post r w h s k = inr (rw k refl)
  serve_guarded _ r w h s k = cc

  module _ (crypto_laws : CryptoLaws crypto) where
    unaccepted :
        (authorization : Option Text) (secret : Text)
        → ¬ Bears p crypto authorization secret
        → check_bearer p crypto authorization secret ≡ false
    unaccepted authorization secret bare =
        elim (Bool-cases (check_bearer p crypto authorization secret)) [
          | inl accepted ↦
              absurd
                (bare ((check_bearer_iff p crypto crypto_laws authorization secret).0 accepted))
          | inr refused ↦ refused
        ]

    -- A request to a route without a rate limit, whose header `Authorization` is missing or is not
    -- `Bearer ` before a token that is not empty and has the digest of one of the two bearer
    -- secrets, changes nothing: it is answered by the `ok` of the health check or refused as
    -- unauthorized.
    pub unlimited_requests-guarded :
        (g : Group) (route : Route) (r : Request p crypto config) (w : World)
        → IsRouted g route
        → g.rate_limited ≡ false
        → ¬ Bears p crypto r.authorization config.send_auth_token
        → ¬ Bears p crypto r.authorization config.webhook_auth_token
        → (serve p crypto config route.endpoint r w ≡ (ok (plain (text "ok")), w))
          ⊎ (serve p crypto config route.endpoint r w ≡ (err unauthorized, w))
    unlimited_requests-guarded g route r w routed unlimited send webhook =
        serve_guarded route.endpoint r w
          (IsRouted-All Guarded g route router-Guarded routed unlimited)
          (unaccepted r.authorization config.send_auth_token send)
          (unaccepted r.authorization config.webhook_auth_token webhook)
