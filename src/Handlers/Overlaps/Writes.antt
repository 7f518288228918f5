-- ===== src/Handlers/Overlaps/Writes.antt =====
-- What a request in flight writes, by the row that it read.
use epistole.Prelude.{
  ◌≡◌, refl, sym, subst, ◌⊎◌, inl, inr, Option, none, some, Text, to_ascii_lowercase, true,
  Bool-cases, ◌==◌, ok,
}
use epistole.Prelude.Effects.{pure, ◌>>◌, >>=-eq-ok}
use epistole.Crypto.{Crypto}
use epistole.Config.{Config}
use epistole.Platform.{Platform, PlatformLaws}
use epistole.Records.{Subscriber, active, unsubscribed, state_eq}
use epistole.Token.{Token}
use epistole.Store.Subscribers.{subscriber_put}
use epistole.Store.Subscribers.Laws.{Wrote, subscriber_put-Wrote}
use epistole.Handlers.Moves.{put-pure}
use epistole.Handlers.Pages.{Page, confirmed_page, unsubscribed_page}
use epistole.Handlers.Confirm.{commit_row}
use epistole.Handlers.Unsubscribe.{apply_row, next_generation}
use epistole.Handlers.Webhooks.{suppress_row}
use epistole.Handlers.Overlaps.{Request, confirming, leaving, suppressing, settle}

module _ (p : Platform) (laws : PlatformLaws p) (crypto : Crypto) (config : Config) where
  open p use {World, Time}
  open laws use {rows}

  abbrev pub Flying : Type 0
  Flying = Request p laws crypto config

  -- The row that a confirmation saw is its own.
  abbrev pub Own : Flying → Type 0
  Own (confirming t now (some s)) = to_ascii_lowercase s.email ≡ to_ascii_lowercase t.email
  Own (confirming t now none) = Unit
  Own (leaving t now o) = Unit
  Own (suppressing now o) = Unit

  -- The requests that may write an active row, and where.
  abbrev pub Activates : Flying → Text → Type 0
  Activates (confirming t now o) k = to_ascii_lowercase t.email ≡ k
  Activates (leaving t now o) k = ⊥
  Activates (suppressing now o) k = ⊥

  -- A write of one row, active only if the request may write it so.
  pub record WroteBy (r : Flying) (w w' : World) : Type 0 where
    pub row : Subscriber Time
    pub wrote : Wrote p laws row w w'
    pub allowed : state_eq row.state active ≡ true → Activates r (to_ascii_lowercase row.email)

  abbrev pub Settled : Flying → World → World → Type 0
  Settled r w w' = (rows w' ≡ rows w) ⊎ WroteBy r w w'

  put-Settled :
      (r : Flying) (u : Subscriber Time) (page : Page) (w : World) {shown : Page}
      → (state_eq u.state active ≡ true → Activates r (to_ascii_lowercase u.email))
      → ((subscriber_put p u >> pure page) w).0 ≡ ok shown
      → Settled r w ((subscriber_put p u >> pure page) w).1
  put-Settled r u page w allowed h =
      inr (record { row = u; wrote = (put-pure p laws u page w h).0; allowed = allowed })

  commit_row-Settled :
      (t : Token) (now : Time) (o : Option (Subscriber Time)) (w : World) {page : Page}
      → Own (confirming t now o)
      → (commit_row p crypto config t now o w).0 ≡ ok page
      → Settled (confirming t now o) w (commit_row p crypto config t now o w).1
  unfolding commit_row
  commit_row-Settled t now none w own h =
      put-Settled (confirming t now none) _ (confirmed_page config.brand.name) w (λ _. refl) h
  commit_row-Settled t now (some s) w own h = elim (Bool-cases (state_eq s.state active)) [
    | inl old ↦ rw old (inl refl)
    | inr new ↦ elim (Bool-cases (s.generation == t.generation)) [
      | inl fresh ↦
          rw (new, fresh)
            (put-Settled (confirming t now (some s))
              (record s { state = active; confirmed_at = some now })
              (confirmed_page config.brand.name) w (λ _. sym own) (rw (new, fresh) at h))
      | inr stale ↦ rw (new, stale) (inl refl)
    ]
  ]

  apply_row-Settled :
      (t : Token) (now : Time) (o : Option (Subscriber Time)) (w : World) {page : Page}
      → (apply_row p crypto config t now o w).0 ≡ ok page
      → Settled (leaving t now o) w (apply_row p crypto config t now o w).1
  unfolding apply_row
  apply_row-Settled t now none w h = inl refl
  apply_row-Settled t now (some s) w h = elim (Bool-cases (state_eq s.state unsubscribed)) [
    | inl old ↦ rw old (inl refl)
    | inr new ↦ elim (Bool-cases (s.generation == t.generation)) [
      | inl fresh ↦
          rw (new, fresh)
            (put-Settled (leaving t now (some s))
              (record s {
                state = unsubscribed;
                unsubscribed_at = some now;
                generation = next_generation s.generation;
              })
              (unsubscribed_page config.brand.name) w (λ e. cc) (rw (new, fresh) at h))
      | inr stale ↦ rw (new, stale) (inl refl)
    ]
  ]

  suppress_row-Settled :
      (now : Time) (o : Option (Subscriber Time)) (w : World)
      → (suppress_row p now o w).0 ≡ ok tt
      → Settled (suppressing now o) w (suppress_row p now o w).1
  unfolding suppress_row
  suppress_row-Settled now none w h = inl refl
  suppress_row-Settled now (some s) w h = elim (Bool-cases (state_eq s.state active)) [
    | inl old ↦ rw old (
        inr (record {
          row = _;
          wrote = subscriber_put-Wrote p laws _ w (rw old at h);
          allowed = λ e. cc;
        }))
    | inr new ↦ rw new (inl refl)
  ]

  pub settle-Settled :
      (r : Flying) (w : World)
      → Own r
      → (settle p laws crypto config r w).0 ≡ ok tt
      → Settled r w (settle p laws crypto config r w).1
  unfolding settle
  settle-Settled (confirming t now o) w own h =
      let (page, done, same, _) =
        >>=-eq-ok (commit_row p crypto config t now o) (λ _. pure tt) w h in
      subst (λ q. Settled (confirming t now o) w q.1) (sym same)
        (commit_row-Settled t now o w own done)
  settle-Settled (leaving t now o) w own h =
      let (page, done, same, _) =
        >>=-eq-ok (apply_row p crypto config t now o) (λ _. pure tt) w h in
      subst (λ q. Settled (leaving t now o) w q.1) (sym same) (apply_row-Settled t now o w done)
  settle-Settled (suppressing now o) w own h = suppress_row-Settled now o w h
