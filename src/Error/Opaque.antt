-- ===== src/Error/Opaque.antt =====
-- What a response reveals of an error.
use epistole.Prelude.{◌≡◌, ◌≤◌, arith}
use epistole.Error.{Error, into_response}

-- A response with a status of 500 or more tells nothing of its error: any two errors with such a
-- status have the same response.
pub into_response-opaque :
    (e f : Error)
    → 500 ≤ (into_response e).status
    → 500 ≤ (into_response f).status
    → into_response e ≡ into_response f
unfolding into_response
into_response-opaque e f h k = ground arith
