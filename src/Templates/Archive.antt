-- ===== src/Templates/Archive.antt =====
-- The archive pages of src/templates.rs.
use epistole.Prelude.{◌++◌, [], ◌∷◌, List, Bool, true, false, length, Text, text}
use epistole.Prelude.Decimal.{show_u64}
use epistole.Platform.{Platform}
use epistole.Records.{Send}
use epistole.Store.Sends.{send_id_to_string}
use epistole.Handlers.Archive.{ArchivePage, archive_index, archive_detail}
use epistole.Handlers.Send.Compose.{padded, padded_year}
use epistole.Templates.Markup.{attribute, element, plain}
use epistole.Templates.Pages.{shell}

module _ (p : Platform) where
  open p use {Time, Ulid, escape, calendar}

  unfoldable pub date_label : Time → Text
  unfolding padded padded_year
  date_label at =
      padded_year (calendar at).year
      ++ text "-"
      ++ padded 2 (calendar at).month
      ++ text "-"
      ++ padded 2 (calendar at).day
      ++ text " "
      ++ padded 2 (calendar at).hour
      ++ text ":"
      ++ padded 2 (calendar at).minute
      ++ text " UTC"

  unfoldable pub datetime_attr : Time → Text
  unfolding padded padded_year
  datetime_attr at =
      padded_year (calendar at).year
      ++ text "-"
      ++ padded 2 (calendar at).month
      ++ text "-"
      ++ padded 2 (calendar at).day
      ++ text "T"
      ++ padded 2 (calendar at).hour
      ++ text ":"
      ++ padded 2 (calendar at).minute
      ++ text ":"
      ++ padded 2 (calendar at).second
      ++ text "Z"

  -- `time datetime=(..) { .. }`
  unfoldable pub time_html : Time → Text
  unfolding date_label datetime_attr
  time_html at =
      element (text "time") (attribute (text "datetime") (escape (datetime_attr at)))
        (escape (date_label at))

  unfoldable pub item_html : Send Ulid Time → Text
  unfolding time_html
  item_html send = plain (text "li") (
      element (text "a")
        (attribute (text "href") (escape (text "/archive/" ++ send_id_to_string p send.id)))
        (escape send.subject)
      ++ time_html send.sent_at)

  unfoldable pub items_html : List (Send Ulid Time) → Text
  unfolding item_html
  items_html [] = []
  items_html (send ∷ sends) = item_html send ++ items_html sends

  unfoldable pub truncation_html : List (Send Ulid Time) → Bool → Text
  truncation_html sends true =
      plain (text "p")
        (text "Showing the most recent " ++ escape (show_u64 (length sends)) ++ text " notes.")
  truncation_html sends false = []

  -- The `@if` of the index.
  unfoldable pub listing_html : Text → List (Send Ulid Time) → Bool → Text
  unfolding items_html truncation_html
  listing_html brand [] truncated = plain (text "p") (
      text "Past notes from "
      ++ escape brand
      ++ text " will appear here once the first issue is sent.")
  listing_html brand (send ∷ sends) truncated =
      plain (text "ol") (items_html (send ∷ sends)) ++ truncation_html (send ∷ sends) truncated

  unfoldable pub archive_index_html : Text → List (Send Ulid Time) → Bool → Text
  unfolding shell listing_html
  archive_index_html brand sends truncated =
      shell p brand (text "Archive")
        (plain (text "h1") (text "Archive") ++ listing_html brand sends truncated)

  unfoldable pub archive_detail_html : Text → Send Ulid Time → Text
  unfolding shell time_html
  archive_detail_html brand send = shell p brand send.subject (
      plain (text "p")
        (element (text "a") (attribute (text "href") (text "/archive")) (text "Archive"))
      ++ plain (text "article") (
          plain (text "h1") (escape send.subject)
          ++ time_html send.sent_at
          ++ element (text "div") (attribute (text "class") (text "send-body"))
              (p.clean send.body_html)))

  -- The HTML of an archive page.
  unfoldable pub render_archive : ArchivePage (Send Ulid Time) → Text
  unfolding archive_index_html archive_detail_html
  render_archive (archive_index brand sends truncated) = archive_index_html brand sends truncated
  render_archive (archive_detail brand send) = archive_detail_html brand send
