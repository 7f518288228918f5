-- ===== src/Handlers/Send/Retries.antt =====
-- `resolve_send` of src/handlers/send.rs: a send identifier stands for one content.
use epistole.Prelude.{
  ◌≡◌, ◌≢◌, refl, sym, ap, ◌∙◌, some, Option, Text, text_eq, text_eq_sound, Result, ok, err,
  Bool-cases, inl, inr,
}
use epistole.Prelude.Effects.{call, >>=-eq-ok, map_err-eq-ok, Keeps, keeps_rules}
use epistole.Error.{Error}
use epistole.Crypto.{Crypto}
use epistole.Config.{Config}
use epistole.Platform.{Platform, PlatformLaws, sends}
use epistole.Platform.Effects.{get-Keeps_rows}
use epistole.Records.{Send, SendId}
use epistole.Store.Sends.{decode_with, send_get, send_id_to_string}
use epistole.Handlers.Send.{resolve_existing, resolve_send, reused}

module _ (p : Platform) (laws : PlatformLaws p) (crypto : Crypto) (config : Config) where
  open p use {World, Time, Ulid, send_json}
  open laws use {rows}

  -- The send that the rows hold under an identifier, or why it cannot be read.
  abbrev pub send_at : World → SendId Ulid → Result Text (Option (Send Ulid Time))
  send_at w id = decode_with send_json (rows w sends (send_id_to_string p id))

  pub send_get-Keeps : (id : SendId Ulid) → Keeps rows (send_get p id)
  unfolding send_get
  send_get-Keeps id = search (keeps_rules, get-Keeps_rows p laws)

  pub send_get-send_at :
      (id : SendId Ulid) (w : World) {o : Option (Send Ulid Time)}
      → (send_get p id w).0 ≡ ok o
      → send_at w id ≡ ok o
  unfolding send_get
  send_get-send_at id w h =
      let k = send_id_to_string p id in
      let (raw, got, _, decoded) = >>=-eq-ok (call (p.get sends k) _) _ w h in
      ap (decode_with send_json) (sym (laws.get-rows sends k w (map_err-eq-ok _ _ got)))
      ∙ map_err-eq-ok (decode_with send_json raw) _ decoded

  resume :
      (id : SendId Ulid) (subject body_html : Text) (now : Time) (w : World)
      (old resolved : Send Ulid Time)
      → (resolve_existing p crypto config id subject body_html now (some old) w).0 ≡ ok resolved
      → (resolved ≡ old)
        × (old.subject ≡ subject)
        × (old.body_html ≡ body_html)
        × ((resolve_existing p crypto config id subject body_html now (some old) w).1 ≡ w)
  unfolding resolve_existing
  resume id subject body_html now w old resolved h =
      elim (Bool-cases (text_eq old.subject subject)) [
        | inr other ↦ absurd (refused (rw other at h))
        | inl same_subject ↦ elim (Bool-cases (text_eq old.body_html body_html)) [
          | inr other ↦ absurd (refused (rw (same_subject, other) at h))
          | inl same_body ↦
              let kept : old ≡ resolved = cc (rw (same_subject, same_body) at h) in
              rw (same_subject, same_body)
                (
                  sym kept,
                  text_eq_sound old.subject subject same_subject,
                  text_eq_sound old.body_html body_html same_body,
                  refl,
                )
        ]
      ]
    where
      refused :
          ◌≢◌ {A = Result Error (Send Ulid Time)} (err (reused p crypto config id)) (ok resolved)
      refused e = cc

  -- Where the store holds a send under an identifier, `resolve_send` returns a send only if the
  -- subject and the body are the recorded ones; what it returns is then the recorded send, and no
  -- row changes.
  pub resolve_send_again :
      (id : SendId Ulid) (subject body_html : Text) (now : Time) (w : World)
      (old resolved : Send Ulid Time)
      → send_at w id ≡ ok (some old)
      → (resolve_send p crypto config id subject body_html now w).0 ≡ ok resolved
      → (resolved ≡ old)
        × (old.subject ≡ subject)
        × (old.body_html ≡ body_html)
        × (rows (resolve_send p crypto config id subject body_html now w).1 ≡ rows w)
  unfolding resolve_send
  resolve_send_again id subject body_html now w old resolved held h =
      let (o, got, same, h1) = >>=-eq-ok (send_get p id) _ w h in
      let read : o ≡ some old = cc (send_get-send_at id w got, held) in
      let (resumed, subject_lem, body_lem, still) =
        resume id subject body_html now (send_get p id w).1 old resolved (rw read at h1) in
      rw (same, read) (resumed, subject_lem, body_lem, ap rows still ∙ (send_get-Keeps id).at w)
