-- ===== src/Templates/Safety.antt =====
-- No text of a visitor or an operator adds markup to a page.
use epistole.Prelude.{
  ◌≡◌, refl, Bool, true, false, if◌then◌else◌, inl, inr, Bool-cases, All, List, [], ◌∷◌, ◌++◌, map,
  Text,
}
use epistole.Platform.{Platform, PlatformLaws, is_markup}
use epistole.Handlers.Pages.{
  Page, pending_page, confirm_interstitial, confirmed_page, unsubscribe_interstitial,
  unsubscribed_page, invalid_token_page,
}
use epistole.Records.{Send}
use epistole.Handlers.Archive.{ArchivePage, archive_index, archive_detail}
use epistole.Templates.Archive.{
  render_archive, archive_index_html, archive_detail_html, listing_html, items_html, item_html,
  time_html, truncation_html,
}
use epistole.Templates.Pages.{
  shell, pending_html, confirm_interstitial_html, confirmed_html, unsubscribe_interstitial_html,
  unsubscribed_html, invalid_token_html, render,
}

-- The markup characters of a text.
unfoldable pub skeleton : Text → Text
skeleton [] = []
skeleton (c ∷ s) = let rest = skeleton s in if is_markup c then c ∷ rest else rest

pub skeleton-append : (s t : Text) → skeleton (s ++ t) ≡ skeleton s ++ skeleton t
unfolding skeleton
skeleton-append [] t = refl
skeleton-append (c ∷ s) t = elim (Bool-cases (is_markup c)) [
  | inl mark ↦ rw (mark, skeleton-append s t) refl
  | inr other ↦ rw (other, skeleton-append s t) refl
]

-- A page with every text it was given left out.
abbrev pub blank : Page → Page
blank (pending_page brand email) = pending_page [] []
blank (confirm_interstitial brand token) = confirm_interstitial [] []
blank (confirmed_page brand) = confirmed_page []
blank (unsubscribe_interstitial brand token) = unsubscribe_interstitial [] []
blank (unsubscribed_page brand) = unsubscribed_page []
blank (invalid_token_page brand) = invalid_token_page []

skeleton-nil : (s : Text) → All (λ c. is_markup c ≡ false) s → skeleton s ≡ []
unfolding skeleton
skeleton-nil [] h = refl
skeleton-nil (c ∷ s) (other, h) = rw (other, skeleton-nil s h) refl

module _ (p : Platform) (laws : PlatformLaws p) where
  escape_marks : (s : Text) → skeleton (p.escape s) ≡ []
  escape_marks s = skeleton-nil (p.escape s) (laws.escape-marks s)

  -- A shell without its title and brand.
  skeleton-shell :
      (brand title inner inner' : Text)
      → skeleton inner ≡ skeleton inner'
      → skeleton (shell p brand title inner) ≡ skeleton (shell p [] title inner')
  unfolding shell
  skeleton-shell brand title inner inner' same = simp (skeleton-append, escape_marks, same)

  -- No text of a page of the visitor handlers can bring markup: the page has the same `<`, `>` and
  -- double quotes, in the same order, as the page for an empty brand, address and token.
  pub skeleton-render : (page : Page) → skeleton (render p page) ≡ skeleton (render p (blank page))
  unfolding render pending_html confirm_interstitial_html confirmed_html
      unsubscribe_interstitial_html unsubscribed_html invalid_token_html
  skeleton-render (pending_page brand email) =
      skeleton-shell brand _ _ _ (simp (skeleton-append, escape_marks))
  skeleton-render (confirm_interstitial brand token) =
      skeleton-shell brand _ _ _ (simp (skeleton-append, escape_marks))
  skeleton-render (confirmed_page brand) =
      skeleton-shell brand _ _ _ (simp (skeleton-append, escape_marks))
  skeleton-render (unsubscribe_interstitial brand token) =
      skeleton-shell brand _ _ _ (simp (skeleton-append, escape_marks))
  skeleton-render (unsubscribed_page brand) =
      skeleton-shell brand _ _ _ (simp (skeleton-append, escape_marks))
  skeleton-render (invalid_token_page brand) = skeleton-shell brand _ _ _ refl

  module _ where
    open p use {Time, Ulid}

    -- An archive page without the brand and the subjects.
    abbrev untitled : Send Ulid Time → Send Ulid Time
    untitled send = record send { subject = [] }

    abbrev pub blank_archive : ArchivePage (Send Ulid Time) → ArchivePage (Send Ulid Time)
    blank_archive (archive_index brand sends truncated) =
        archive_index [] (map untitled sends) truncated
    blank_archive (archive_detail brand send) = archive_detail [] (untitled send)

    skeleton-items :
        (sends : List (Send Ulid Time))
        → skeleton (items_html p sends) ≡ skeleton (items_html p (map untitled sends))
    unfolding items_html item_html time_html
    skeleton-items [] = refl
    skeleton-items (send ∷ sends) = simp (skeleton-append, escape_marks, skeleton-items sends)

    skeleton-truncation :
        (sends sends' : List (Send Ulid Time)) (truncated : Bool)
        → skeleton (truncation_html p sends truncated)
          ≡ skeleton (truncation_html p sends' truncated)
    unfolding truncation_html
    skeleton-truncation sends sends' true = simp (skeleton-append, escape_marks)
    skeleton-truncation sends sends' false = refl

    skeleton-listing :
        (brand : Text) (sends : List (Send Ulid Time)) (truncated : Bool)
        → skeleton (listing_html p brand sends truncated)
          ≡ skeleton (listing_html p [] (map untitled sends) truncated)
    unfolding listing_html
    skeleton-listing brand [] truncated = simp (skeleton-append, escape_marks)
    skeleton-listing brand (send ∷ sends) truncated = simp (
      skeleton-append,
      escape_marks,
      skeleton-items sends,
      skeleton-truncation (send ∷ sends) (map untitled (send ∷ sends)) truncated,
    )

    -- No brand or subject can bring markup into the archive: an archive page has the same `<`, `>`
    -- and double quotes, in the same order, as the page with an empty brand and empty subjects.
    pub skeleton-render_archive :
        (page : ArchivePage (Send Ulid Time))
        → skeleton (render_archive p page) ≡ skeleton (render_archive p (blank_archive page))
    unfolding render_archive archive_index_html archive_detail_html shell
    skeleton-render_archive (archive_index brand sends truncated) =
        skeleton-shell brand _ _ _ (simp (skeleton-append, skeleton-listing brand sends truncated))
    skeleton-render_archive (archive_detail brand send) = simp (skeleton-append, escape_marks)
