-- ===== src/Platform.antt =====
-- What the program calls and does not implement: the database `fjall`, the codec `serde_json`, the
-- clock and calendar of `time`, the identifiers of `ulid`, and the mail transport.
-- The laws state what the documentation of these promises, and nothing about a call that fails,
-- except that reading, syncing and asking the time change no row.
pub mod Effects
pub mod Available
use epistole.Prelude.{
  ℕ, ◌≤◌, length, ◌≡◌, ◌≢◌, Option, none, some, List, [], ◌∷◌, ◌++◌, Bool, true, false, ◌&&◌,
  if◌then◌else◌, Text, text_eq, Result, ok, err, map, All, ◌||◌, ◌==◌,
}
use epistole.Prelude.Keys.{Ascending, keys_of, lookup}
use epistole.Prelude.Int.{ℤ}
use epistole.Prelude.Effects.{Exec}
use epistole.Error.{Error}
use epistole.Records.{Subscriber, Send, Delivery, Calendar, Envelope, SendBody, EventBody}

-- The keyspaces of the database.
pub data Space : Type 0 where
  subscribers sends deliveries rate_limits : Space

abbrev pub space_eq : Space → Space → Bool
space_eq subscribers subscribers = true
space_eq sends sends = true
space_eq deliveries deliveries = true
space_eq rate_limits rate_limits = true
space_eq _ _ = false

-- The rows of a database: what each key of each keyspace holds.
abbrev pub Rows : Type 0
Rows = Space → Text → Option Text

unfoldable pub update : Rows → Space → Text → Text → Rows
update rows s k v s' k' = if space_eq s s' && text_eq k k' then some v else rows s' k'

unfoldable pub delete : Rows → Space → Text → Rows
delete rows s k s' k' = if space_eq s s' && text_eq k k' then none else rows s' k'

-- `serde_json::to_vec` and `from_slice` at one type; an error is its display.
pub record Codec (A : Type 0) : Type 0 where
  pub to_vec : A → Result Text Text
  pub from_slice : Text → Result Text A

pub record Platform : Type 1 where
  pub World : Type 0
  pub Time : Type 0
  pub Ulid : Type 0
  pub Message : Type 0
  -- `OffsetDateTime`: the clock, `unix_timestamp`, `t + seconds` and `<=`
  pub now_utc : World → Time × World
  pub unix_timestamp : Time → ℤ
  pub add_seconds : Time → ℕ → Time
  pub calendar : Time → Calendar
  pub time_le : Time → Time → Bool
  -- `Ulid`: its display and `from_str`
  pub ulid_to_string : Ulid → Text
  pub ulid_from_str : Text → Option Ulid
  -- the JSON of the stored records
  pub subscriber_json : Codec (Subscriber Time)
  pub send_json : Codec (Send Ulid Time)
  pub delivery_json : Codec (Delivery Ulid Time)
  -- `Keyspace::get`, `insert`, `remove` and `iter`, and `Database::persist(SyncData)`
  pub get : Space → Text → Exec World Text (Option Text)
  pub insert : Space → Text → Text → Exec World Text (Unit {0})
  pub remove : Space → Text → Exec World Text (Unit {0})
  pub iter : Space → World → List (Result Text (Text × Text)) × World
  pub persist : Exec World Text (Unit {0})
  -- the display of the standard library's `Utf8Error` and `ParseIntError` for a text
  pub utf8_error : Text → Text
  pub parse_int_error : Text → Text
  -- `HeaderValue::to_str`, `axum::body::to_bytes` with its limit, and the JSON of the request bodies
  pub header_to_str : Text → Option Text
  pub Body : Type 0
  pub to_bytes : Body → ℕ → Exec World Text Text
  pub send_body : Text → Result Text (SendBody Ulid)
  pub event_body : Text → Result Text (EventBody Ulid)
  -- `EmailAddress::parse_with_options` with the options of `strict_email_options`
  pub is_email_address : Text → Bool
  -- `pulldown_cmark` with tables and strikethrough, `ammonia::clean`, and the escaping of `maud`
  pub markdown_to_html : Text → Text
  pub clean : Text → Text
  pub escape : Text → Text
  -- `lettre`: mailboxes and the message builder
  pub Mailbox : Type 0
  pub parse_mailbox : Text → Result Text Mailbox
  pub compose : Envelope Mailbox → Result Text Message
  -- `Mailer::send`
  pub mail : Message → Exec World Error (Unit {0})

-- `entries` is all that a keyspace holds, in key order.
pub record IsListing (row : Text → Option Text) (entries : List (Text × Text)) : Type 0 where
  pub ascending : Ascending (keys_of entries)
  pub row_at : (k : Text) → row k ≡ lookup k entries

-- The characters that delimit elements and attributes.
abbrev pub is_markup : ℕ → Bool
is_markup c = c == b'<' || (c == b'>' || c == b'"')

module _ (p : Platform) where
  open p use {World, Time, Ulid, Message, now_utc, get, insert, remove, persist, mail}

  pub record PlatformLaws : Type 0 where
    -- the rows that reads see, those that a power loss leaves, and the messages that were handed to
    -- the relay and accepted, newest first
    pub rows : World → Rows
    pub durable : World → Rows
    pub outbox : World → List Message
    pub rows-now_utc : (w : World) → rows (now_utc w).1 ≡ rows w
    pub outbox-now_utc : (w : World) → outbox (now_utc w).1 ≡ outbox w
    pub get-rows :
        (s : Space) (k : Text) (w : World) {v : Option Text} → (get s k w).0 ≡ ok v → v ≡ rows w s k
    pub rows-get : (s : Space) (k : Text) (w : World) → rows (get s k w).1 ≡ rows w
    pub outbox-get : (s : Space) (k : Text) (w : World) → outbox (get s k w).1 ≡ outbox w
    pub rows-insert :
        (s : Space) (k v : Text) (w : World)
        → (insert s k v w).0 ≡ ok tt
        → rows (insert s k v w).1 ≡ update (rows w) s k v
    pub outbox-insert : (s : Space) (k v : Text) (w : World) → outbox (insert s k v w).1 ≡ outbox w
    pub rows-remove :
        (s : Space) (k : Text) (w : World)
        → (remove s k w).0 ≡ ok tt
        → rows (remove s k w).1 ≡ delete (rows w) s k
    pub rows-iter : (s : Space) (w : World) → rows (p.iter s w).1 ≡ rows w
    pub outbox-iter : (s : Space) (w : World) → outbox (p.iter s w).1 ≡ outbox w
    -- an iteration without an error lists the keyspace in key order
    pub iter-IsListing :
        (s : Space) (w : World) (entries : List (Text × Text))
        → (p.iter s w).0 ≡ map ok entries
        → IsListing (rows w s) entries
    pub rows-persist : (w : World) → rows (persist w).1 ≡ rows w
    pub durable-persist : (w : World) → (persist w).0 ≡ ok tt → durable (persist w).1 ≡ rows w
    pub outbox-persist : (w : World) → outbox (persist w).1 ≡ outbox w
    pub rows-to_bytes : (b : p.Body) (n : ℕ) (w : World) → rows (p.to_bytes b n w).1 ≡ rows w
    pub outbox-to_bytes : (b : p.Body) (n : ℕ) (w : World) → outbox (p.to_bytes b n w).1 ≡ outbox w
    -- no body over the limit is returned
    pub to_bytes-le :
        (b : p.Body) (n : ℕ) (w : World) {t : Text} → (p.to_bytes b n w).0 ≡ ok t → length t ≤ n
    pub rows-mail : (m : Message) (w : World) → rows (mail m w).1 ≡ rows w
    pub outbox-mail :
        (m : Message) (w : World) → (mail m w).0 ≡ ok tt → outbox (mail m w).1 ≡ m ∷ outbox w
    -- an escaped text is no markup
    pub escape-marks : (s : Text) → All (λ c. is_markup c ≡ false) (p.escape s)
    pub subscriber_json-round_trip :
        (s : Subscriber Time) {b : Text}
        → p.subscriber_json.to_vec s ≡ ok b
        → p.subscriber_json.from_slice b ≡ ok s
    pub send_json-round_trip :
        (s : Send Ulid Time) {b : Text}
        → p.send_json.to_vec s ≡ ok b
        → p.send_json.from_slice b ≡ ok s
    pub delivery_json-round_trip :
        (d : Delivery Ulid Time) {b : Text}
        → p.delivery_json.to_vec d ≡ ok b
        → p.delivery_json.from_slice b ≡ ok d
