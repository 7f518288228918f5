-- ===== src/Error.antt =====
-- src/error.rs: the error type, its display, and the HTTP response of each variant.
pub mod Opaque
use epistole.Prelude.{◌++◌, ℕ, Text, text}

pub data Error : Type 0 where
  config store bad_request smtp : Text → Error
  bind : Text → Text → Error
  serve : Text → Error
  unauthorized invalid_token not_found : Error

-- `snafu(display(...))`; a `source` is kept as its own display.
unfoldable pub to_string : Error → Text
to_string (config reason) = text "config error: " ++ reason
to_string (store reason) = text "store: " ++ reason
to_string (bad_request reason) = text "bad request: " ++ reason
to_string (smtp reason) = text "smtp: " ++ reason
to_string (bind addr source) = text "bind " ++ addr ++ text ": " ++ source
to_string (serve source) = text "serve: " ++ source
to_string unauthorized = text "unauthorized"
to_string invalid_token = text "invalid token"
to_string not_found = text "not found"

pub record Response : Type 0 where
  pub status : ℕ
  pub body : Text

-- The HTTP status and body of an error.
unfoldable pub into_response : Error → Response
into_response (bad_request reason) = record { status = 400; body = reason }
into_response unauthorized = record { status = 401; body = text "unauthorized" }
into_response invalid_token = record { status = 400; body = text "invalid token" }
into_response not_found = record { status = 404; body = text "not found" }
into_response _ = record { status = 500; body = text "internal error" }
