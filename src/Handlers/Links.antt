-- ===== src/Handlers/Links.antt =====
-- How confirm.rs and unsubscribe.rs read the token of a link.
pub mod Laws
use epistole.Prelude.{Option, none, some, if◌then◌else◌, Text, Result, ok, err}
use epistole.Error.{Error}
use epistole.Crypto.{Crypto}
use epistole.Config.{Config}
use epistole.Platform.{Platform}
use epistole.Token
use epistole.Token.{Token, TokenKind, kind_eq}

-- `.ok().filter(|t| t.kind == kind)`
of_kind : TokenKind → Result Error Token → Option Token
of_kind kind (ok t) = if kind_eq t.kind kind then some t else none
of_kind kind (err e) = none

module _ (p : Platform) (crypto : Crypto) (config : Config) where
  open p use {Time, unix_timestamp}

  -- The token of a link, if it verifies at the time `now` and is of the kind.
  unfoldable pub verified : TokenKind → Text → Time → Option Token
  unfolding of_kind
  verified kind raw now =
      of_kind kind (Token.verify crypto raw config.token_secret (unix_timestamp now))
