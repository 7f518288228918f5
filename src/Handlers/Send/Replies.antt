-- ===== src/Handlers/Send/Replies.antt =====
-- A campaign of src/handlers/send.rs is answered while the database works.
use epistole.Prelude.{◌≡◌, ◌≢◌, refl, ap, ◌∙◌, ◌<◌, ◌^◌, ◌⊎◌, inl, inr, Option, [], Text, ok, err}
use epistole.Prelude.Effects.{Returns, >>=-Returns, ◌>>=◌, Exec, pure}
use epistole.Error.{Error}
use epistole.Crypto.{Crypto, CryptoLaws}
use epistole.Config.{Config}
use epistole.Platform.{Platform, PlatformLaws, Space, subscribers, deliveries, rate_limits, sends}
use epistole.Platform.Available.{Available}
use epistole.Records.{Send, SendBody}
use epistole.Store.RateLimits.{count_of}
use epistole.Store.Scans.{active_subscribers}
use epistole.Store.Scans.Answers.{active_subscribers-Returns}
use epistole.Store.Sends.{decode_with}
use epistole.Store.Subscribers.{decode_row}
use epistole.Store.Subscribers.Answers.{IsReadable}
use epistole.Handlers.Send.{Reply, zeros, resolve_send, fan_out, campaign, reused}
use epistole.Handlers.Send.Answers.{IsLedger, fan_out-Returns}
use epistole.Handlers.Send.Resolved.{resolve_send-Returns, resolve_send-other_spaces}
use epistole.Handlers.Send.Retries.{send_at}

module _ (p : Platform) (laws : PlatformLaws p) where
  open p use {World}
  open laws use {rows}

  IsReadable-space :
      {w v : World}
      → rows v subscribers ≡ rows w subscribers
      → IsReadable p laws w
      → IsReadable p laws v
  IsReadable-space same h = record {
    at = λ k. let (o, found) = h.at k in (o, ap (λ r. decode_row p (r k)) same ∙ found);
  }

  IsLedger-spaces :
      {w v : World}
      → rows v deliveries ≡ rows w deliveries
      → rows v rate_limits ≡ rows w rate_limits
      → IsLedger p laws w
      → IsLedger p laws v
  IsLedger-spaces same same' h = record {
    delivery = λ k.
        let (o, found) = h.delivery k in
        (o, ap (λ r. decode_with p.delivery_json (r k)) same ∙ found);
    counted = λ b. let (n, found) = h.counted b in (n, ap (λ r. count_of p b (r b)) same' ∙ found);
  }

module _ (p : Platform) (laws : PlatformLaws p) (available : Available p) (crypto : Crypto)
    (crypto_laws : CryptoLaws crypto) (config : Config) where
  open p use {World, Time, Ulid}
  open laws use {rows}

  -- What follows once the send is resolved.
  abbrev loop : Time → Send Ulid Time → Exec World Error (Reply Ulid)
  loop now send_rec = do
    active ← active_subscribers p
    tally ← fan_out p crypto config send_rec now active zeros
    pure (record { send_id = send_rec.id; tally = tally })

  loop-Returns :
      (send_rec : Send Ulid Time) (now : Time) (w : World)
      → config.token_secret ≢ []
      → config.send_cap_per_hour < 2 ^ 64
      → config.send_cap_per_day < 2 ^ 64
      → IsReadable p laws w
      → IsLedger p laws w
      → Returns (loop now send_rec) w
  unfolding active_subscribers
  loop-Returns send_rec now w keyed hc dc readable ledger =
      let w1 = (active_subscribers p w).1 in
      let kept =
        IsLedger-spaces p laws (ap (λ r. r deliveries) (laws.rows-iter subscribers w))
          (ap (λ r. r rate_limits) (laws.rows-iter subscribers w)) ledger in
      >>=-Returns (active_subscribers p) _ w
        (active_subscribers-Returns p laws available w readable)
        λ active _.
          >>=-Returns (fan_out p crypto config send_rec now active zeros) _ w1
            (fan_out-Returns p laws available crypto crypto_laws config send_rec now active zeros w1
              keyed hc dc kept)
            λ tally _. (_, refl)

  -- A campaign is answered. While the calls of the database and the encoding of rows succeed, with
  -- a token secret that is not empty and caps below 2 ^ 64, a campaign in a world whose subscriber
  -- rows, ledger rows and counts and whose row of the identifier can all be read ends with a reply,
  -- whatever the relay answers, or is refused as a reuse of the identifier for other content.
  pub campaign-Returns :
      (body : SendBody Ulid) (html_out : Text) (now : Time) (w : World)
      {o : Option (Send Ulid Time)}
      → config.token_secret ≢ []
      → config.send_cap_per_hour < 2 ^ 64
      → config.send_cap_per_day < 2 ^ 64
      → IsReadable p laws w
      → IsLedger p laws w
      → send_at p laws crypto config w body.send_id ≡ ok o
      → Returns (campaign p crypto config body html_out now) w
        ⊎ ((campaign p crypto config body html_out now w).0
            ≡ err (reused p crypto config body.send_id))
  unfolding campaign
  campaign-Returns body html_out now w keyed hc dc readable ledger found =
      let resolve = resolve_send p crypto config body.send_id body.subject html_out now in
      elim (resolve_send-Returns p laws crypto config available body.send_id body.subject html_out
        now w found) [
          | inr refused ↦ inr (rw refused refl)
          | inl answered ↦ inl (
              >>=-Returns resolve (loop now) w answered λ send_rec resolved.
                let kept = λ (sp : Space) (ne : sp ≢ sends).
                  resolve_send-other_spaces p laws crypto config body.send_id body.subject html_out
                    now sp w send_rec ne resolved in
                loop-Returns send_rec now (resolve w).1 keyed hc dc
                  (IsReadable-space p laws (kept subscribers (λ e. cc)) readable)
                  (IsLedger-spaces p laws (kept deliveries (λ e. cc)) (kept rate_limits (λ e. cc))
                    ledger))
        ]
