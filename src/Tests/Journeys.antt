-- ===== src/Tests/Journeys.antt =====
-- The theorems about links that are mailed and come back, at one address.
use epistole.Prelude.{◌≡◌, refl, to_ascii_lowercase, lower_byte, text}
use epistole.Prelude.Trim.{trim}
use epistole.Handlers.Subscribe
use epistole.Handlers.Confirm
use epistole.Handlers.Unsubscribe
use epistole.Examples.Letters.{letter_crypto}
use epistole.Examples.Memory.{Memory, memory, empty}
use epistole.Examples.Links.{config}

abbrev asked : Memory
asked = (Subscribe.post memory letter_crypto config (text " Ann@x.org ") empty).1

trimmed : to_ascii_lowercase (trim (text " Ann@x.org ")) ≡ text "ann@x.org"
unfolding text trim to_ascii_lowercase lower_byte
trimmed = refl
