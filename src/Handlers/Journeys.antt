-- ===== src/Handlers/Journeys.antt =====
-- What becomes of the links that src/handlers/subscribe.rs and send.rs mail, when they come back to
-- src/handlers/confirm.rs and unsubscribe.rs.
pub mod Join
pub mod Leave
use epistole.Prelude.{◌≡◌, refl, ap, ◌∙◌, ◌⊎◌, inl, inr, Text, Result, ok, err}
use epistole.Error.{Error}
use epistole.Consent.{Consent}
use epistole.Platform.{Platform, PlatformLaws}
use epistole.Handlers.Moves.{consent_at}
use epistole.Handlers.Pages.{Page, Rendered, no_store}

module _ (p : Platform) (laws : PlatformLaws p) where
  open p use {World}

  -- A run fails, or it shows the page, uncached, and the address with the lowercased email `k` has
  -- the consent `c` afterwards.
  abbrev pub Ends : Text → Page → Consent → Result Error Rendered × World → Type 0
  Ends k page c run =
      ((e : Error) × (run.0 ≡ err e))
      ⊎ ((run.0 ≡ ok (no_store page)) × (consent_at p laws run.1 k ≡ ok c))

  -- What holds of every page that a run can return.
  pub Ends-of_pages :
      (k : Text) (page : Page) (c : Consent) (run : Result Error Rendered × World)
      → ((r : Rendered) → run.0 ≡ ok r → (r ≡ no_store page) × (consent_at p laws run.1 k ≡ ok c))
      → Ends k page c run
  Ends-of_pages k page c (err e, w) all = inl (e, refl)
  Ends-of_pages k page c (ok r, w) all = let (shown, after) = all r refl in inr (ap ok shown, after)
