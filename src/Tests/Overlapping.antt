-- ===== src/Tests/Overlapping.antt =====
-- Two confirmations of one address that overlap.
use epistole.Prelude.{◌≡◌, refl, [], ◌∷◌, none, ok, text, text_eq, to_ascii_lowercase, lower_byte}
use epistole.Store.{persist_acknowledged}
use epistole.Store.Subscribers.{subscriber_get, subscriber_put, decode_row}
use epistole.Handlers.Confirm.{commit_row}
use epistole.Handlers.Overlaps.{
  Request, confirming, settle, Trace, start, next, confirm_read, settled, Confirmed,
}
use epistole.Handlers.Overlaps.Safety.{IsActive, IsActive-Confirmed}
use epistole.Examples.Letters.{letter_crypto}
use epistole.Examples.Tables.{find, without}
use epistole.Examples.Memory.{Memory, memory, memory_laws, empty}
use epistole.Examples.Links.{config, confirm_token, confirm_link, confirm_link_valid}
use epistole.Tests.Links.{empty-IsKeyed}

abbrev waiting : Request memory memory_laws letter_crypto config
waiting = confirming confirm_token 7 none

abbrev read : Memory
read = (subscriber_get memory confirm_token.email empty).1

abbrev read_twice : Memory
read_twice = (subscriber_get memory confirm_token.email read).1

abbrev joined : Memory
joined = (settle memory memory_laws letter_crypto config waiting read_twice).1

read_lem : (subscriber_get memory confirm_token.email empty).0 ≡ ok none
unfolding subscriber_get decode_row find
read_lem = refl

read_again : (subscriber_get memory confirm_token.email read).0 ≡ ok none
unfolding subscriber_get decode_row find
read_again = refl

settled_lem : (settle memory memory_laws letter_crypto config waiting read_twice).0 ≡ ok tt
unfolding settle commit_row subscriber_get subscriber_put persist_acknowledged decode_row find
settled_lem = refl

abbrev both : Trace memory memory_laws letter_crypto config empty joined (waiting ∷ [])
both =
    next
      (next
        (next start
          (confirm_read confirm_link 7 confirm_token none (confirm_link_valid 7 refl) read_lem))
        (confirm_read confirm_link 7 confirm_token none (confirm_link_valid 7 refl) read_again))
      (settled [] (waiting ∷ []) waiting refl settled_lem)

nobody : ¬ IsActive memory memory_laws letter_crypto config empty (text "ann@x.org")
unfolding decode_row find memory_laws
nobody h = let found = h.found in cc

ann_joined : IsActive memory memory_laws letter_crypto config joined (text "ann@x.org")
unfolding settle commit_row subscriber_get subscriber_put persist_acknowledged decode_row find
    without memory_laws text text_eq to_ascii_lowercase lower_byte
ann_joined = record { subscriber = _; found = refl; active_lem = refl }

IsActive-Confirmed_example :
    Confirmed memory memory_laws letter_crypto config both (text "ann@x.org")
IsActive-Confirmed_example =
    IsActive-Confirmed memory memory_laws letter_crypto config both (text "ann@x.org") empty-IsKeyed
      nobody ann_joined
