-- ===== src/Router.antt =====
-- `router` and `make_span` of src/lib.rs: the routes with their methods and handlers, and the limits
-- of each group. What `axum` extracts from a request is the record `Request`.
pub mod Laws
pub mod Traces
use epistole.Prelude.{
  ℕ, ◌*◌, Bool, true, false, ◌&&◌, if◌then◌else◌, Option, none, some, List, [], ◌∷◌, ◌++◌, Text,
  text, Result,
}
use epistole.Prelude.Effects.{Exec, pure, call}
use epistole.Prelude.Effects
use epistole.Error.{Error, not_found}
use epistole.Crypto.{Crypto}
use epistole.Config.{Config}
use epistole.Platform.{Platform}
use epistole.Records.{Send, SendId}
use epistole.Handlers.Pages.{Page, Rendered}
use epistole.Handlers.Archive.{Archived}
use epistole.Handlers.Send.{Reply}
use epistole.Handlers.Subscribe
use epistole.Handlers.Confirm
use epistole.Handlers.Unsubscribe
use epistole.Handlers.Archive
use epistole.Handlers.Send
use epistole.Handlers.Webhooks

pub data Method : Type 0 where
  get post : Method

-- The handlers that routes name.
pub data Endpoint : Type 0 where
  healthz subscribe_post confirm_get confirm_post unsubscribe_get unsubscribe_post one_click
        archive_get archive_detail send_post delivery_events_post :
      Endpoint

pub record Route : Type 0 where
  pub template : Text
  pub method : Method
  pub endpoint : Endpoint

-- Routes under the same layers: a per-address rate limit or none, and a limit on the body or none.
pub record Group : Type 0 where
  pub routes : List Route
  pub rate_limited : Bool
  pub body_limit : Option ℕ

abbrev pub subscribe_body_limit : ℕ
subscribe_body_limit = 4 * 1024

abbrev pub send_body_limit : ℕ
send_body_limit = 256 * 1024

abbrev pub webhook_body_limit : ℕ
webhook_body_limit = 4 * 1024

abbrev route : Text → Method → Endpoint → Route
route template method endpoint = record {
  template = template;
  method = method;
  endpoint = endpoint;
}

unfoldable pub public_routes : Group
public_routes = record {
  routes =
      route (text "/subscribe") post subscribe_post
      ∷ route (text "/confirm") get confirm_get
      ∷ route (text "/confirm") post confirm_post
      ∷ route (text "/unsubscribe") get unsubscribe_get
      ∷ route (text "/unsubscribe") post unsubscribe_post
      ∷ route (text "/unsubscribe/one-click") post one_click
      ∷ route (text "/archive") get archive_get
      ∷ route (text "/archive/{send_id}") get archive_detail
      ∷ [];
  rate_limited = true;
  body_limit = some subscribe_body_limit;
}

unfoldable pub operator_routes : Group
operator_routes = record {
  routes = route (text "/send") post send_post ∷ [];
  rate_limited = false;
  body_limit = some send_body_limit;
}

unfoldable pub webhook_routes : Group
webhook_routes = record {
  routes = route (text "/webhooks/delivery-events") post delivery_events_post ∷ [];
  rate_limited = false;
  body_limit = some webhook_body_limit;
}

unfoldable pub router : List Group
unfolding public_routes operator_routes webhook_routes
router =
    record {
      routes = route (text "/healthz") get healthz ∷ [];
      rate_limited = false;
      body_limit = none;
    }
    ∷ public_routes
    ∷ operator_routes
    ∷ webhook_routes
    ∷ []

-- A request with what `TraceLayer` sees of it, and the fields of its span.
pub record Head : Type 0 where
  pub method : Text
  pub path : Text
  pub query : Option Text
  pub matched_path : Option Text

pub record Span : Type 0 where
  pub method : Text
  pub route : Text

unfoldable pub make_span : Head → Span
make_span request = record {
  method = request.method;
  route = elim request.matched_path [ none ↦ request.path | some template ↦ template ];
}

-- A page, an archive page, a reply, a status, or the body of `healthz`.
pub data Answer (p : Platform) : Type 0 where
  plain : Text → Answer p
  page : Page → Answer p
  rendered : Rendered → Answer p
  archived : Archived (Send p.Ulid p.Time) → Answer p
  replied : Reply p.Ulid → Answer p
  accepted : ℕ → Answer p

module _ (p : Platform) (crypto : Crypto) (config : Config) where
  open p use {World, Body, Ulid}

  -- What the extractors of the handlers take out of a request.
  pub record Request : Type 0 where
    pub email : Text
    pub token : Text
    pub list_unsubscribe : Text
    pub send_id : SendId Ulid
    pub authorization : Option Text
    pub body : Body

  abbrev answer : {A : Type 0} → Exec World Error A → (A → Answer p) → Exec World Error (Answer p)
  answer m f = Effects.◌>>=◌ m (λ a. pure (f a))

  unfoldable pub serve : Endpoint → Request → Exec World Error (Answer p)
  serve healthz r = pure (plain (text "ok"))
  serve subscribe_post r = answer (Subscribe.post p crypto config r.email) page
  serve confirm_get r = answer (Confirm.get p crypto config r.token) rendered
  serve confirm_post r = answer (Confirm.post p crypto config r.token) rendered
  serve unsubscribe_get r = answer (Unsubscribe.get p crypto config r.token) rendered
  serve unsubscribe_post r = answer (Unsubscribe.post p crypto config r.token) rendered
  serve one_click r =
      answer (Unsubscribe.one_click p crypto config r.token r.list_unsubscribe) rendered
  serve archive_get r = answer (Archive.get p config) archived
  serve archive_detail r = answer (Archive.detail p config r.send_id) archived
  serve send_post r = answer (Send.post p crypto config r.authorization r.body) replied
  serve delivery_events_post r =
      answer (Webhooks.post p crypto config r.authorization r.body) accepted
