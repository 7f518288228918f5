-- ===== src/Handlers/Send/Reach.antt =====
-- A whole campaign of src/handlers/send.rs: the send, the active subscribers and the loop over them.
use epistole.Prelude.{
  suc, ◌^◌, ◌<◌, ◌≡◌, refl, ap, ◌∙◌, inl, inr, Option, some, true, List, [], ◌∷◌, map, All, length,
  Text, text_eq, text_eq_sound, to_ascii_lowercase, to_ascii_lowercase_idem, Result, ok, subst,
  arith, Bool-cases,
}
use epistole.Prelude.Effects.{Exec, pure, ◌>>=◌, >>=-eq-ok}
use epistole.Prelude.Keys.{has, Ascending}
use epistole.Error.{Error}
use epistole.Crypto.{Crypto}
use epistole.Config.{Config}
use epistole.Platform.{Platform, PlatformLaws, subscribers}
use epistole.Records.{Subscriber, Send, SendId, SendBody, active, state_eq}
use epistole.Store.Sends.{delivery_key}
use epistole.Store.Subscribers.{decode_row}
use epistole.Store.Subscribers.Laws.{subscriber_at}
use epistole.Store.Scans.{active_subscribers}
use epistole.Store.Scans.Active.{is_active, IsActiveList, active_subscribers-IsActiveList}
use epistole.Handlers.Moves.{IsKeyed}
use epistole.Handlers.Send.{Reply, zeros, resolve_send, fan_out, campaign}
use epistole.Handlers.Send.Resolved.{resolve_send-other_spaces}
use epistole.Handlers.Send.Progress.{IsRecorded}
use epistole.Handlers.Send.Campaign.{fan_out-Fanned, HasDelivery}

module _ (p : Platform) (laws : PlatformLaws p) (crypto : Crypto) (config : Config) where
  open p use {World, Time, Ulid}
  open laws use {rows}

  -- What holds of all listed subscribers holds of each one at a listed key.
  listed_at :
      (at : Text → Result Text (Option (Subscriber Time))) (P : Subscriber Time → Type 0)
      (keys : List Text) (out : List (Subscriber Time)) (k : Text) (s : Subscriber Time)
      → map at keys ≡ map (λ u. ok (some u)) out
      → All P out
      → has keys k ≡ true
      → at k ≡ ok (some s)
      → P s
  listed_at at P [] out k s same all there found = cc
  listed_at at P (j ∷ keys) [] k s same all there found = cc
  listed_at at P (j ∷ keys) (u ∷ out) k s same (first, all) there found =
      elim (Bool-cases (text_eq j k)) [
        | inl here ↦ let one : u ≡ s = cc (same, found, text_eq_sound j k here) in subst P one first
        | inr other ↦ listed_at at P keys out k s (cc) all (ground (arith, other)) found
      ]

  -- What a campaign that replies has done: a send, a list of the active subscribers as they were at
  -- its start, and a loop over the list.
  record Ran (now : Time) (w w' : World) (reply : Reply Ulid) : Type 0 where
    send_rec : Send Ulid Time
    out : List (Subscriber Time)
    keys : List Text
    between : World
    listed : IsActiveList p (subscriber_at p laws w) keys out
    looped : (fan_out p crypto config send_rec now out zeros between).0 ≡ ok reply.tally
    named : send_rec.id ≡ reply.send_id
    end : w' ≡ (fan_out p crypto config send_rec now out zeros between).1

  -- The loop and the reply.
  abbrev loop : Send Ulid Time → Time → List (Subscriber Time) → Exec World Error (Reply Ulid)
  loop send_rec now out = do
    tally ← fan_out p crypto config send_rec now out zeros
    pure (record { send_id = send_rec.id; tally = tally })

  fanned-Ran :
      (send_rec : Send Ulid Time) (now : Time) (out : List (Subscriber Time)) (keys : List Text)
      (w w1 : World) (reply : Reply Ulid)
      → IsActiveList p (subscriber_at p laws w) keys out
      → (loop send_rec now out w1).0 ≡ ok reply
      → Ran now w (loop send_rec now out w1).1 reply
  fanned-Ran send_rec now out keys w w1 reply listed h =
      let (tally, looped, same, h1) =
        >>=-eq-ok (fan_out p crypto config send_rec now out zeros) _ w1 h in
      let answer : Reply Ulid = record { send_id = send_rec.id; tally = tally } in
      let replied : answer ≡ reply = cc in
      record {
        send_rec = send_rec;
        out = out;
        keys = keys;
        between = w1;
        listed = listed;
        looped = rw (← replied) looped;
        named = ap (λ r. r.send_id) replied;
        end = ap (λ r. r.1) same;
      }

  list_before :
      (w w1 : World) {keys : List Text} {out : List (Subscriber Time)}
      → rows w1 subscribers ≡ rows w subscribers
      → IsActiveList p (subscriber_at p laws w1) keys out
      → IsActiveList p (subscriber_at p laws w) keys out
  list_before w w1 {keys} {out} same list =
      subst (λ row. IsActiveList p (λ k. decode_row p (row k)) keys out) same list

  length_listed :
      (at : Text → Result Text (Option (Subscriber Time))) (keys : List Text)
      (out : List (Subscriber Time))
      → map at keys ≡ map (λ u. ok (some u)) out
      → length out ≡ length keys
  length_listed at [] [] same = refl
  length_listed at [] (u ∷ out) same = cc
  length_listed at (k ∷ keys) [] same = cc
  length_listed at (k ∷ keys) (u ∷ out) same = ap suc (length_listed at keys out (cc))

  campaign-Ran :
      (body : SendBody Ulid) (html_out : Text) (now : Time) (w : World) (reply : Reply Ulid)
      → (campaign p crypto config body html_out now w).0 ≡ ok reply
      → Ran now w (campaign p crypto config body html_out now w).1 reply
  unfolding campaign
  campaign-Ran body html_out now w reply h =
      let (send_rec, resolved, same, h1) =
        >>=-eq-ok (resolve_send p crypto config body.send_id body.subject html_out now) _ w h in
      let w1 = (resolve_send p crypto config body.send_id body.subject html_out now w).1 in
      let (out, listed, same1, h2) = >>=-eq-ok (active_subscribers p) _ w1 h1 in
      let (keys, list) = active_subscribers-IsActiveList p laws w1 listed in
      let unchanged =
        resolve_send-other_spaces p laws crypto config body.send_id body.subject html_out now
          subscribers w send_rec (λ e. cc) resolved in
      rw (same, same1)
        (fanned-Ran send_rec now out keys w _ reply (list_before w w1 unchanged list) h2)

  delivery_key-lower :
      (id : SendId Ulid) (email k : Text)
      → to_ascii_lowercase email ≡ k
      → delivery_key p id email ≡ delivery_key p id k
  unfolding delivery_key
  delivery_key-lower id email k same = rw (← same, to_ascii_lowercase_idem email) refl

  -- A campaign that replies with nothing deferred reaches everybody: for each address whose row was
  -- active when it began, the ledger has a delivery of the send that the reply names. The
  -- subscriber and delivery rows stand under their own keys, the caps are below 2 ^ 64, and so is
  -- the number of active addresses.
  pub campaign-reaches :
      (body : SendBody Ulid) (html_out : Text) (now : Time) (w : World) (reply : Reply Ulid)
      → IsKeyed p laws w
      → config.send_cap_per_hour < 2 ^ 64
      → config.send_cap_per_day < 2 ^ 64
      → ((keys : List Text)
          → Ascending keys
          → ((k : Text) → has keys k ≡ is_active p (subscriber_at p laws w k))
          → length keys < 2 ^ 64)
      → (campaign p crypto config body html_out now w).0 ≡ ok reply
      → reply.tally.deferred_by_cap ≡ 0
      → (k : Text) (s : Subscriber Time) → subscriber_at p laws w k ≡ ok (some s)
      → state_eq s.state active ≡ true
      → IsRecorded p laws crypto config
          (campaign p crypto config body html_out now w).1
          (delivery_key p reply.send_id k)
  unfolding campaign
  campaign-reaches body html_out now w reply keyed hourly daily few h none_deferred k s found
        is_active_row =
      let ran = campaign-Ran body html_out now w reply h in
      let size = length_listed (subscriber_at p laws w) ran.keys ran.out ran.listed.holds in
      let counted = few ran.keys ran.listed.ascending ran.listed.has_active in
      let fanned =
        fan_out-Fanned p laws crypto config ran.send_rec now hourly daily ran.out zeros ran.between
          reply.tally (omega arith) ran.looped in
      let all = fanned.covered (omega arith) in
      let reached =
        listed_at (subscriber_at p laws w)
          (HasDelivery p laws crypto config ran.send_rec now
            (fan_out p crypto config ran.send_rec now ran.out zeros ran.between).1)
          ran.keys ran.out k s ran.listed.holds all
          (ran.listed.has_active k ∙ rw found is_active_row) found in
      rw (ran.end, ← ran.named, ← delivery_key-lower ran.send_rec.id s.email k (keyed.at k s found))
        reached
