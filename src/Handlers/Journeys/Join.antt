-- ===== src/Handlers/Journeys/Join.antt =====
-- From `POST /subscribe` to `POST /confirm`: the address asks, gets a link and follows it.
use epistole.Prelude.{ℕ}
use epistole.Crypto.{Crypto}
use epistole.Config.{Config}
use epistole.Consent.{Consent, at, absent}
use epistole.Consent
use epistole.Platform.{Platform}
use epistole.Token
use epistole.Token.{Token}
use epistole.Handlers.Subscribe
use epistole.Handlers.Confirm

-- The generation of a consent, 0 where there is none.
abbrev pub generation : Consent → ℕ
generation absent = 0
generation (at s g) = g
