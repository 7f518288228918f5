-- ===== src/Handlers/Webhooks.antt =====
-- src/handlers/webhooks.rs: the relay's reports of bounces and complaints.
pub mod Suppress
pub mod Reports
use epistole.Prelude.{
  ℕ, ◌++◌, ◌&&◌, ◌||◌, not, none, some, Option, Bool, true, false, if◌then◌else◌, Text, text,
  to_ascii_lowercase, Result, ok, err,
}
use epistole.Prelude.Effects.{Exec, call, lift, pure, raise, ◌>>=◌, ◌>>◌}
use epistole.Prelude.{map_err}
use epistole.Prelude.Trim.{trim}
use epistole.Error.{Error, bad_request, unauthorized, not_found}
use epistole.Crypto.{Crypto}
use epistole.Config.{Config}
use epistole.Platform.{Platform}
use epistole.Records.{
  Subscriber, active, unsubscribed, state_eq, Delivery, DeliveryStatus, bounced, complained,
  EventKind, bounce, complaint, EventBody,
}
use epistole.Store.Subscribers.{subscriber_get, subscriber_put}
use epistole.Store.Sends.{delivery_get, delivery_put}
use epistole.Handlers.Bearer.{check_bearer}
use epistole.Handlers.Unsubscribe.{next_generation}

abbrev pub webhook_body_limit : ℕ
webhook_body_limit = 4096

abbrev pub is_complaint : EventKind → Bool
is_complaint bounce = false
is_complaint complaint = true

abbrev pub status_of : EventKind → DeliveryStatus
status_of bounce = bounced
status_of complaint = complained

-- A complaint suppresses, and so does a hard bounce.
abbrev pub suppresses : EventKind → Bool → Bool
suppresses kind hard = is_complaint kind || (not (is_complaint kind) && hard)

module _ (p : Platform) where
  open p use {World, Time, Ulid}

  unfoldable pub suppress_row : Time → Option (Subscriber Time) → Exec World Error (Unit {0})
  suppress_row now none = pure tt
  suppress_row now (some s) =
      if state_eq s.state active
      then subscriber_put p (record s {
        state = unsubscribed;
        unsubscribed_at = some now;
        generation = next_generation s.generation;
      })
      else pure tt

  unfoldable pub suppress_subscriber : Text → Time → Exec World Error (Unit {0})
  suppress_subscriber email now = do
    subscriber ← subscriber_get p email
    suppress_row now subscriber

  -- The ledger's part: the delivery that the event names is rewritten.
  unfoldable pub record_event :
      EventBody Ulid → Time → Option (Delivery Ulid Time) → Exec World Error (Unit {0})
  record_event body now none = raise not_found
  record_event body now (some d) =
      delivery_put p (record d { status = status_of body.kind; at = now })

  report_at : EventBody Ulid → Time → Exec World Error ℕ
  report_at body now = do
    let email_norm = to_ascii_lowercase (trim body.email)
    delivery ← delivery_get p body.send_id email_norm
    record_event body now delivery
    if suppresses body.kind body.hard then suppress_subscriber email_norm now else pure tt
    pure 200

  -- From the parsed body on.
  unfoldable pub report : EventBody Ulid → Exec World Error ℕ
  unfolding report_at
  report body w = report_at body (p.now_utc w).0 (p.now_utc w).1

module _ (p : Platform) (crypto : Crypto) (config : Config) where
  open p use {World, Body, to_bytes, event_body}

  -- `POST /webhooks/delivery-events`: the `Authorization` header and the body. The result is the
  -- status of the response.
  unfoldable pub post : Option Text → Body → Exec World Error ℕ
  post authorization request =
      if check_bearer p crypto authorization config.webhook_auth_token
      then (do
        bytes ←
            call (to_bytes request webhook_body_limit) (λ e. bad_request (text "read body: " ++ e))
        body ← lift (map_err (event_body bytes) (λ e. bad_request (text "parse JSON: " ++ e)))
        report p body)
      else raise unauthorized
