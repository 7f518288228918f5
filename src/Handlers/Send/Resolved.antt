-- ===== src/Handlers/Send/Resolved.antt =====
-- What `resolve_send` of src/handlers/send.rs changes, and what it answers while the database works.
use epistole.Prelude.{
  ◌≡◌, ◌≢◌, refl, ap, ◌∙◌, ◌⊎◌, inl, inr, Option, none, some, Text, text_eq, ok, err, map_err, not,
  ◌||◌, arith, Bool-cases,
}
use epistole.Prelude.Effects.{lift, >>=-eq-ok, Returns}
use epistole.Crypto.{Crypto}
use epistole.Config.{Config}
use epistole.Platform.{Platform, PlatformLaws, Space, sends, update}
use epistole.Platform.Available.{Available}
use epistole.Records.{Send, SendId}
use epistole.Store.{persist_acknowledged}
use epistole.Store.Writes.{rows-insert-persist}
use epistole.Store.Sends.{send_get, send_put, send_id_to_string, decode_with}
use epistole.Handlers.Send.{resolve_send, resolve_existing, reused}
use epistole.Handlers.Send.Retries.{send_at, send_get-Keeps}

module _ (p : Platform) (laws : PlatformLaws p) (crypto : Crypto) (config : Config) where
  open p use {World, Time, Ulid}
  open laws use {rows}

  -- Recording a send changes no other keyspace.
  send_put-other_spaces :
      (send : Send Ulid Time) (sp : Space) (w : World)
      → sp ≢ sends
      → (send_put p send w).0 ≡ ok tt
      → rows (send_put p send w).1 sp ≡ rows w sp
  unfolding send_put update
  send_put-other_spaces send sp w ne h =
      let (bytes, encoded, same, h1) =
        >>=-eq-ok (lift (map_err (p.send_json.to_vec send) _)) _ w h in
      let (written, _) =
        rows-insert-persist p laws sends (send_id_to_string p send.id) bytes _ w h1 in
      rw same (ap (λ r. r sp) written ∙ ground arith)

  resolve_existing-other_spaces :
      (id : SendId Ulid) (subject body_html : Text) (now : Time) (o : Option (Send Ulid Time))
      (sp : Space) (w : World) (resolved : Send Ulid Time)
      → sp ≢ sends
      → (resolve_existing p crypto config id subject body_html now o w).0 ≡ ok resolved
      → rows (resolve_existing p crypto config id subject body_html now o w).1 sp ≡ rows w sp
  unfolding resolve_existing
  resolve_existing-other_spaces id subject body_html now (some old) sp w resolved ne h =
      elim (Bool-cases
        (not (text_eq old.subject subject) || not (text_eq old.body_html body_html))) [
          | inl different ↦ rw different refl
          | inr alike ↦ rw alike refl
        ]
  resolve_existing-other_spaces id subject body_html now none sp w resolved ne h =
      let (_, written, same, _) = >>=-eq-ok (send_put p _) _ w h in
      rw same (send_put-other_spaces _ sp w ne written)

  pub resolve_send-other_spaces :
      (id : SendId Ulid) (subject body_html : Text) (now : Time) (sp : Space) (w : World)
      (resolved : Send Ulid Time)
      → sp ≢ sends
      → (resolve_send p crypto config id subject body_html now w).0 ≡ ok resolved
      → rows (resolve_send p crypto config id subject body_html now w).1 sp ≡ rows w sp
  unfolding resolve_send
  resolve_send-other_spaces id subject body_html now sp w resolved ne h =
      let (o, got, same, h1) = >>=-eq-ok (send_get p id) _ w h in
      rw same (
        resolve_existing-other_spaces id subject body_html now o sp _ resolved ne h1
        ∙ ap (λ r. r sp) ((send_get-Keeps p laws crypto config id).at w))

  module _ (available : Available p) where
    send_get-Returns :
        (id : SendId Ulid) (w : World) {o : Option (Send Ulid Time)}
        → send_at p laws crypto config w id ≡ ok o
        → (send_get p id w).0 ≡ ok o
    unfolding send_get
    send_get-Returns id w {o} found =
        let k = send_id_to_string p id in
        let (raw, got) = available.get-total sends k w in
        let decoded : decode_with p.send_json raw ≡ ok o =
          ap (decode_with p.send_json) (laws.get-rows sends k w got) ∙ found in
        rw (got, decoded) refl

    send_put-Returns : (send : Send Ulid Time) (w : World) → (send_put p send w).0 ≡ ok tt
    unfolding send_put persist_acknowledged
    send_put-Returns send w =
        let (bytes, encoded) = available.send_to_vec-total send in
        let k = send_id_to_string p send.id in
        let w1 = (p.insert sends k bytes w).1 in
        rw (encoded, available.insert-total sends k bytes w, available.persist-total w1) refl

    resolve_existing-Returns :
        (id : SendId Ulid) (subject body_html : Text) (now : Time) (o : Option (Send Ulid Time))
        (w : World)
        → Returns (resolve_existing p crypto config id subject body_html now o) w
          ⊎ ((resolve_existing p crypto config id subject body_html now o w).0
              ≡ err (reused p crypto config id))
    unfolding resolve_existing
    resolve_existing-Returns id subject body_html now (some old) w =
        elim (Bool-cases
          (not (text_eq old.subject subject) || not (text_eq old.body_html body_html))) [
            | inl different ↦ inr (rw different refl)
            | inr alike ↦ inl (rw alike (old, refl))
          ]
    resolve_existing-Returns id subject body_html now none w =
        inl (rw (send_put-Returns _ w) (_, refl))

    -- Where the row of the identifier can be read, a send is resolved or refused as reused.
    pub resolve_send-Returns :
        (id : SendId Ulid) (subject body_html : Text) (now : Time) (w : World)
        {o : Option (Send Ulid Time)}
        → send_at p laws crypto config w id ≡ ok o
        → Returns (resolve_send p crypto config id subject body_html now) w
          ⊎ ((resolve_send p crypto config id subject body_html now w).0
              ≡ err (reused p crypto config id))
    unfolding resolve_send
    resolve_send-Returns id subject body_html now w {o} found =
        rw (send_get-Returns id w found)
          (resolve_existing-Returns id subject body_html now o (send_get p id w).1)
