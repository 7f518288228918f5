-- ===== src/Lib.antt =====
-- A model of the newsletter server epistole: a visitor asks to join and is mailed a signed link,
-- confirms, is sent newsletters, and leaves by a signed link, by one click of a mail client, or
-- because the relay reports a bounce or a complaint. The database, the codecs, the clock, the relay
-- and the cryptography are crates that the program calls; they are arguments of the model.
--
-- The parts, the files that model them, and how they use each other:
--   Prelude      the shared types: texts as lists of bytes with their order, `Result`, code that fails
--                and acts on a world (`Exec`), machine integers, decimals, UTF-8, trimming.
--   Error        src/error.rs.
--   Crypto       what src/token.rs and src/handlers.rs use of base64, hmac, sha2 and subtle.
--   Platform     what the program uses of fjall, serde_json, time, ulid, lettre and the HTML crates, as
--                the record `Platform`, with the record `PlatformLaws` of what they document.
--   Token        src/token.rs; Token.RoundTrip and Token.Soundness hold its theorems.
--   Records      the records of src/store/subscriber.rs and src/store/send.rs and the request bodies.
--   Store        src/store.rs and src/store/*.rs: reads and durable writes of the four keyspaces, the
--                caps (Store.RateLimits, where Caps holds the theorem), the scans over a keyspace
--                (Store.Scans: the purge, the active list, the recent sends), and the guard of the data
--                directory (Store.Guard, where Chains describes a resolution without its loop).
--   Config       src/config.rs: secrets, their redaction, loading, and the proxies with the parser of
--                their ranges.
--   Consent      an abstract specification: the consent of one address as a state and a generation,
--                moved by three kinds of event. Consent.History says what a history of events can do.
--   Handlers     src/handlers/*.rs, one module per file. Moves says what it means that a handler moves
--                one address by one event; the modules Refines, Suppress and Reports prove that the
--                handlers do, Traces puts requests one after another, and the modules Safety, Laws,
--                Once, Retries, Totals, Progress, Campaign and Reach say what else holds. Overlaps
--                has requests that come between another one's read and its write, and
--                Send.Schedule the fan-out in steps that others come between. Journeys puts the parts
--                together: what Subscribe.Mailing and Send.Links say of the links that are mailed, with
--                the handlers that the links come back to. The modules called Answers say which code
--                returns while the database works, which Platform.Available defines.
--   Templates    src/templates.rs: the two mail bodies, and the HTML text of the pages.
--   Mailer       src/mailer.rs over the record `Lettre`.
--   RateKey      the rate-limit key of src/lib.rs.
--   Router       the routes, their limits and the span of a request of src/lib.rs. Router.Traces has
--                its requests as the sequences of Handlers.Traces.
--   Boot         `Store::open` of src/store.rs and src/main.rs, over the record `Host`.
--   Examples     instances of the parameters that meet their laws: tables in memory, a codec of
--                letters with a sum for a tag, an escaping of HTML, and a relay.
--   Tests        the theorems at concrete inputs, over those instances.
--
-- How the model corresponds to the code. A function keeps its name. An `async` handler is a function
-- of its extracted arguments into `Exec World Error`, a state that survives an error. Where a match of
-- the code has arms that write, the match on the row is a function of its own (`commit_row`,
-- `apply_row`, `suppress_row`, `resolve_existing`, `attempt`) that the handler calls. A `u64` or
-- `usize` sum wraps around at 2 ^ 64 and an `i64` sum at 2 ^ 63, as in a release build. Loops are
-- recursion on lists. Only the resolution of a path is recursion on a number: the links that it may
-- still follow, which the code itself bounds by 40. A path is the list of its components, the last one
-- first. A handler's page is a constructor with what its template gets, and `render` and
-- `render_archive` give its HTML. The lock of the caps makes a reservation one step. In
-- Traces requests are one after another; in Overlaps and Send.Schedule the read of a row, the
-- write of a row with its sync, a call of the relay and one of the lock are steps, and a request that
-- is cut off is one that takes no further step; in Overlaps, reads and writes that fail are no steps.
--
-- Not modelled: logging and the command line, the layers of the router beyond their order of routes and
-- their limits (they belong to tower and tower_governor), how axum picks a route and extracts arguments,
-- the generator of src/send_id.rs (of the crate ulid), and what serde fills in or refuses.
pub mod Prelude
pub mod Error
pub mod Crypto
pub mod Token
pub mod Records
pub mod Platform
pub mod Consent
pub mod Store
pub mod Config
pub mod Templates
pub mod Handlers
pub mod Mailer
pub mod RateKey
pub mod Router
pub mod Boot
pub mod Examples
pub mod Tests
