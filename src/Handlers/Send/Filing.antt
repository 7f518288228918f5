-- ===== src/Handlers/Send/Filing.antt =====
-- What src/handlers/send.rs leaves of the subscribers and of the keys of the ledger.
use epistole.Prelude.{
  ◌≡◌, ◌≢◌, refl, sym, ap, ◌∙◌, none, some, Option, List, [], ◌∷◌, Bool, true, false, Text, text,
  text_eq, text_eq_sound, ok, arith, Bool-cases, inl, inr, ◌++◌, map_err,
}
use epistole.Prelude.Effects.{lift, call, >>=-eq-ok}
use epistole.Error.{bad_request}
use epistole.Crypto.{Crypto}
use epistole.Config.{Config}
use epistole.Platform.{Platform, PlatformLaws, Space, subscribers, deliveries, sends, rate_limits}
use epistole.Records.{Subscriber, Send, SendBody, Delivery}
use epistole.Token.{sign}
use epistole.Store.RateLimits.{try_reserve_send_slot}
use epistole.Store.RateLimits.Silent.{try_reserve_send_slot-other_spaces}
use epistole.Store.Scans.{active_subscribers}
use epistole.Store.Sends.{delivery_get, delivery_key, decode_with}
use epistole.Store.Sends.Laws.{delivery_get-Keeps, Recorded}
use epistole.Handlers.Bearer.{check_bearer}
use epistole.Handlers.Send.{
  Reply, Tally, zeros, count, resolve_send, fan_out, campaign, run, post, render_body,
  send_body_limit_bytes,
}
use epistole.Handlers.Send.Attempts.{transmit-rows, record_delivery-Filed}
use epistole.Handlers.Send.Compose.{hour_bucket, day_bucket}
use epistole.Handlers.Send.Deliver.{
  RecipientOutcome, transmit, unsubscribe_token, send_to, admit, attempt, deliver_to_recipient,
}
use epistole.Handlers.Send.Resolved.{resolve_send-other_spaces}
use epistole.Handlers.Webhooks.Reports.{IsFiled}

module _ (p : Platform) (laws : PlatformLaws p) where
  open p use {World, Time, Ulid}
  open laws use {rows}

  -- No subscriber changes, and deliveries stay under their own keys.
  pub record Filing (w w' : World) : Type 0 where
    pub subscribers_same : rows w' subscribers ≡ rows w subscribers
    pub filed : IsFiled p laws w → IsFiled p laws w'

  Filing-spaces :
      {w w' : World}
      → rows w' subscribers ≡ rows w subscribers
      → rows w' deliveries ≡ rows w deliveries
      → Filing w w'
  Filing-spaces same same' = record {
    subscribers_same = same;
    filed = λ v. record {
      at = λ k d found. v.at k d (ap (λ r. decode_with p.delivery_json (r k)) (sym same') ∙ found);
    };
  }

  pub Filing-rows : {w w' : World} → rows w' ≡ rows w → Filing w w'
  Filing-rows same = Filing-spaces (ap (λ r. r subscribers) same) (ap (λ r. r deliveries) same)

  Filing-then : {w v u : World} → Filing w v → Filing v u → Filing w u
  Filing-then first second = record {
    subscribers_same = second.subscribers_same ∙ first.subscribers_same;
    filed = λ v. second.filed (first.filed v);
  }

  Filing-Recorded : {d : Delivery Ulid Time} {w w' : World} → Recorded p laws d w w' → Filing w w'
  Filing-Recorded {d} h = record {
    subscribers_same = h.other_spaces subscribers (λ e. cc);
    filed = λ v. record {
      at = λ k e found. elim (Bool-cases (text_eq (delivery_key p d.send_id d.email) k)) [
        | inl here ↦
            ground (arith, h.delivery_at_key k, text_eq_sound (delivery_key p d.send_id d.email) k)
        | inr other ↦ v.at k e (sym (h.delivery_at_key k ∙ rw other refl) ∙ found)
      ];
    };
  }

  module _ (crypto : Crypto) (config : Config) (send_rec : Send Ulid Time)
      (s : Subscriber Time) where
    send_to-Filing :
        (now : Time) (w : World) {outcome : RecipientOutcome}
        → (send_to p crypto config send_rec s now w).0 ≡ ok outcome
        → Filing w (send_to p crypto config send_rec s now w).1
    unfolding send_to
    send_to-Filing now w h =
        let minted = sign crypto (unsubscribe_token p crypto config s now) config.token_secret in
        let (raw, _, same, h1) = >>=-eq-ok (lift minted) _ w h in
        let (a, _, same1, filed) = >>=-eq-ok (transmit p crypto config _) _ w h1 in
        let kept = Filing-rows (transmit-rows p laws crypto config _ w) in
        let f =
          record_delivery-Filed p laws crypto config send_rec s (text "") (text "") a _ filed in
        rw (same, same1) (Filing-then kept (Filing-Recorded f.recorded))

    admit-Filing :
        (now : Time) (granted : Bool) (w : World) {outcome : RecipientOutcome}
        → (admit p crypto config send_rec s now granted w).0 ≡ ok outcome
        → Filing w (admit p crypto config send_rec s now granted w).1
    unfolding admit
    admit-Filing now true w h = send_to-Filing now w h
    admit-Filing now false w h = Filing-rows refl

    module _ (hour day : Text) where
      attempt-Filing :
          (now : Time) (o : Option (Delivery Ulid Time)) (w : World) {outcome : RecipientOutcome}
          → (attempt p crypto config send_rec s hour day now o w).0 ≡ ok outcome
          → Filing w (attempt p crypto config send_rec s hour day now o w).1
      unfolding attempt
      attempt-Filing now (some d) w h = Filing-rows refl
      attempt-Filing now none w h =
          let reserve =
            try_reserve_send_slot p hour day config.send_cap_per_hour config.send_cap_per_day in
          let (granted, asked, same, h1) = >>=-eq-ok reserve _ w h in
          let kept = λ (sp : Space) (ne : sp ≢ rate_limits).
            try_reserve_send_slot-other_spaces p laws hour day config.send_cap_per_hour
              config.send_cap_per_day sp w ne asked in
          rw same (
            Filing-then (Filing-spaces (kept subscribers (λ e. cc)) (kept deliveries (λ e. cc)))
              (admit-Filing now granted (reserve w).1 h1))

      deliver_to_recipient-Filing :
          (now : Time) (w : World) {outcome : RecipientOutcome}
          → (deliver_to_recipient p crypto config send_rec s hour day now w).0 ≡ ok outcome
          → Filing w (deliver_to_recipient p crypto config send_rec s hour day now w).1
      unfolding deliver_to_recipient
      deliver_to_recipient-Filing now w h =
          let read = delivery_get p send_rec.id s.email in
          let (o, _, same, h1) = >>=-eq-ok read _ w h in
          rw same (
            Filing-then (Filing-rows ((delivery_get-Keeps p laws send_rec.id s.email).at w))
              (attempt-Filing now o (read w).1 h1))

  module _ (crypto : Crypto) (config : Config) where
    fan_out-Filing :
        (send_rec : Send Ulid Time) (now : Time) (active : List (Subscriber Time)) (t : Tally)
        (w : World) {after : Tally}
        → (fan_out p crypto config send_rec now active t w).0 ≡ ok after
        → Filing w (fan_out p crypto config send_rec now active t w).1
    unfolding fan_out
    fan_out-Filing send_rec now [] t w h = Filing-rows refl
    fan_out-Filing send_rec now (s ∷ rest) t w h =
        let deliver =
          deliver_to_recipient p crypto config send_rec s (hour_bucket p now) (day_bucket p now)
            now in
        let (outcome, done, same, h1) = >>=-eq-ok deliver _ w h in
        rw same (
          Filing-then
            (deliver_to_recipient-Filing crypto config send_rec s (hour_bucket p now)
              (day_bucket p now) now w done)
            (fan_out-Filing send_rec now rest (count outcome t) (deliver w).1 h1))

    campaign-Filing :
        (body : SendBody Ulid) (html_out : Text) (now : Time) (w : World) {reply : Reply Ulid}
        → (campaign p crypto config body html_out now w).0 ≡ ok reply
        → Filing w (campaign p crypto config body html_out now w).1
    unfolding campaign active_subscribers
    campaign-Filing body html_out now w h =
        let resolve = resolve_send p crypto config body.send_id body.subject html_out now in
        let (send_rec, resolved, same, h1) = >>=-eq-ok resolve _ w h in
        let w1 = (resolve w).1 in
        let (active, _, same1, h2) = >>=-eq-ok (active_subscribers p) _ w1 h1 in
        let w2 = (p.iter subscribers w1).1 in
        let (tally, looped, same2, _) =
          >>=-eq-ok (fan_out p crypto config send_rec now active zeros) _ w2 h2 in
        let kept = λ (sp : Space) (ne : sp ≢ sends).
          resolve_send-other_spaces p laws crypto config body.send_id body.subject html_out now sp w
            send_rec ne resolved in
        rw (same, same1, same2)
          (Filing-then (Filing-spaces (kept subscribers (λ e. cc)) (kept deliveries (λ e. cc))) (
            Filing-then (Filing-rows (laws.rows-iter subscribers w1))
              (fan_out-Filing send_rec now active zeros w2 looped)))

    run-Filing :
        (body : SendBody Ulid) (w : World) {reply : Reply Ulid}
        → (run p crypto config body w).0 ≡ ok reply
        → Filing w (run p crypto config body w).1
    unfolding run
    run-Filing body w h =
        let (html_out, _, same, h1) = >>=-eq-ok (lift (render_body p crypto config body)) _ w h in
        rw same (
          Filing-then (Filing-rows (laws.rows-now_utc w))
            (campaign-Filing body html_out (p.now_utc w).0 (p.now_utc w).1 h1))

    -- A request to `POST /send` that is answered changes no subscriber, and leaves deliveries under
    -- their own keys if they were.
    pub post-Filing :
        (authorization : Option Text) (request : p.Body) (w : World) {reply : Reply Ulid}
        → (post p crypto config authorization request w).0 ≡ ok reply
        → Filing w (post p crypto config authorization request w).1
    unfolding post
    post-Filing authorization request w h =
        elim (Bool-cases (check_bearer p crypto authorization config.send_auth_token)) [
          | inr refused ↦ cc (rw refused at h)
          | inl accepted ↦
              let (bytes, _, same, h1) =
                >>=-eq-ok
                  (call (p.to_bytes request send_body_limit_bytes)
                    (λ e. bad_request (text "read body: " ++ e)))
                  _ w (rw accepted at h) in
              let w1 = (p.to_bytes request send_body_limit_bytes w).1 in
              let (body, _, same1, h2) =
                >>=-eq-ok
                  (lift (map_err (p.send_body bytes) (λ e. bad_request (text "parse JSON: " ++ e))))
                  _ w1 h1 in
              rw (accepted, same, same1)
                (Filing-then (Filing-rows (laws.rows-to_bytes request send_body_limit_bytes w))
                  (run-Filing body w1 h2))
        ]
