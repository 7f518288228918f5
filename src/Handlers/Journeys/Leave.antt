-- ===== src/Handlers/Journeys/Leave.antt =====
-- From a newsletter of src/handlers/send.rs to `POST /unsubscribe` and `POST /unsubscribe/one-click`.
use epistole.Crypto.{Crypto}
use epistole.Config.{Config}
use epistole.Consent.{Consent}
use epistole.Consent
use epistole.Platform.{Platform}
use epistole.Records.{Send}
use epistole.Token
use epistole.Token.{Token}
use epistole.Handlers.Send.Deliver
