-- ===== src/Handlers/Send.antt =====
-- src/handlers/send.rs: the operator sends a newsletter to every active subscriber.
pub mod Compose
pub mod Buckets
pub mod Attempts
pub mod Links
pub mod Answers
pub mod Totals
pub mod Retries
pub mod Once
pub mod Progress
pub mod Campaign
pub mod Resolved
pub mod Filing
pub mod Replies
pub mod Reach
pub mod Deliver
pub mod Schedule
use epistole.Prelude.{
  ℕ, ◌+◌, ◌*◌, ◌^◌, ◌%◌, ◌++◌, [], ◌∷◌, List, ◌||◌, ◌&&◌, not, none, some, Option, Bool, true,
  false, if◌then◌else◌, ltb, length, Text, text, text_eq, Result, ok, err, map_err,
}
use epistole.Prelude.Trim.{trim}
use epistole.Prelude.Effects.{Exec, call, lift, pure, raise, ◌>>=◌, ◌>>◌}
use epistole.Error.{Error, bad_request, unauthorized}
use epistole.Crypto.{Crypto}
use epistole.Config.{Config}
use epistole.Platform.{Platform}
use epistole.Records.{Subscriber, SendId, Send, SendBody}
use epistole.Store.Sends.{send_get, send_put, send_id_to_string}
use epistole.Store.Scans.{active_subscribers}
use epistole.Handlers.Bearer.{check_bearer}
use epistole.Handlers.Send.Compose.{hour_bucket, day_bucket, is_empty}
use epistole.Handlers.Send.Deliver.{
  RecipientOutcome, sent, failed, already_delivered, deferred_by_cap, deliver_to_recipient,
}

abbrev pub send_body_limit_bytes : ℕ
send_body_limit_bytes = 256 * 1024

abbrev pub max_subject_len : ℕ
max_subject_len = 200

-- The counters of the reply.
pub record Tally : Type 0 where
  pub sent : ℕ
  pub failed : ℕ
  pub already_delivered : ℕ
  pub deferred_by_cap : ℕ

pub record Reply (Ulid : Type 0) : Type 0 where
  pub send_id : SendId Ulid
  pub tally : Tally

-- `+= 1` on a `usize`
abbrev pub bump : ℕ → ℕ
bump n = (n + 1) % 2 ^ 64

unfoldable pub count : RecipientOutcome → Tally → Tally
count sent t = record t { sent = bump t.sent }
count failed t = record t { failed = bump t.failed }
count already_delivered t = record t { already_delivered = bump t.already_delivered }
count deferred_by_cap t = record t { deferred_by_cap = bump t.deferred_by_cap }

abbrev pub zeros : Tally
zeros = record { sent = 0; failed = 0; already_delivered = 0; deferred_by_cap = 0 }

-- The bytes of an em dash.
abbrev em_dash : Text
em_dash = 0xe2 ∷ 0x80 ∷ 0x94 ∷ []

module _ (p : Platform) (crypto : Crypto) (config : Config) where
  open p use {World, Time, Ulid, Body, to_bytes, now_utc}

  unfoldable pub render_body : SendBody Ulid → Result Error Text
  render_body body =
      if is_empty (trim body.subject)
      then err (bad_request (text "subject is empty"))
      else if ltb max_subject_len (length body.subject)
      then err (bad_request (text "subject exceeds 200 bytes"))
      else if is_empty (trim body.markdown)
      then err (bad_request (text "markdown body is empty"))
      else ok (p.clean (p.markdown_to_html body.markdown))

  unfoldable pub reused : SendId Ulid → Error
  reused send_id = bad_request (
      text "send_id "
      ++ (send_id_to_string p send_id
          ++ (text " was already recorded with different content "
              ++ (em_dash
                  ++ text
                      " reuse a send_id only to retry the SAME send, mint a fresh one for a new campaign"))))

  -- The two arms of `resolve_send`.
  unfoldable pub resolve_existing :
      SendId Ulid → Text → Text → Time → Option (Send Ulid Time) → Exec World Error (Send Ulid Time)
  resolve_existing send_id subject body_html now (some existing) =
      if not (text_eq existing.subject subject) || not (text_eq existing.body_html body_html)
      then raise (reused send_id)
      else pure existing
  resolve_existing send_id subject body_html now none = do
    let send_rec : Send Ulid Time = record {
      id = send_id;
      subject = subject;
      body_html = body_html;
      sent_at = now;
    }
    send_put p send_rec
    pure send_rec

  unfoldable pub resolve_send : SendId Ulid → Text → Text → Time → Exec World Error (Send Ulid Time)
  resolve_send send_id subject body_html now = do
    existing ← send_get p send_id
    resolve_existing send_id subject body_html now existing

  -- The loop over the active subscribers.
  unfoldable pub fan_out :
      Send Ulid Time → Time → List (Subscriber Time) → Tally → Exec World Error Tally
  fan_out send_rec now [] t = pure t
  fan_out send_rec now (s ∷ rest) t =
      deliver_to_recipient p crypto config send_rec s (hour_bucket p now) (day_bucket p now) now
      >>= λ outcome. fan_out send_rec now rest (count outcome t)

  -- From the rendered body on, at the time `now`.
  unfoldable pub campaign : SendBody Ulid → Text → Time → Exec World Error (Reply Ulid)
  campaign body html_out now = do
    send_rec ← resolve_send body.send_id body.subject html_out now
    active ← active_subscribers p
    tally ← fan_out send_rec now active zeros
    pure (record { send_id = send_rec.id; tally = tally })

  unfoldable pub run : SendBody Ulid → Exec World Error (Reply Ulid)
  run body = do
    html_out ← lift (render_body body)
    (λ w. campaign body html_out (now_utc w).0 (now_utc w).1)

  -- `POST /send`: the `Authorization` header and the body.
  unfoldable pub post : Option Text → Body → Exec World Error (Reply Ulid)
  post authorization request =
      if check_bearer p crypto authorization config.send_auth_token
      then (do
        bytes ←
            call (to_bytes request send_body_limit_bytes)
              (λ e. bad_request (text "read body: " ++ e))
        body ← lift (map_err (p.send_body bytes) (λ e. bad_request (text "parse JSON: " ++ e)))
        run body)
      else raise unauthorized
