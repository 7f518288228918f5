-- ===== src/Examples/Memory.antt =====
-- An instance of `Platform` that meets its laws: tables in memory, a clock that advances by a second
-- with each reading, and a relay that accepts every message but number 0.
use epistole.Prelude.{
  ℕ, suc, ◌+◌, ◌≡◌, refl, true, if◌then◌else◌, none, some, List, [], ◌∷◌, map, leb, ◌==◌, Text,
  text, arith, Bool-cases, inl, inr, Result, ok, err,
}
use mathlib.Core.Path.{fun_ext}
use epistole.Examples.Tables.{Table, find, without, find-without, sort, sort-IsListing}
use epistole.Prelude.Int.{pos}
use epistole.Prelude.Effects.{Exec}
use epistole.Error.{Error, smtp}
use epistole.Platform.{Platform, PlatformLaws, Space, space_eq, Rows, update, delete}
use epistole.Prelude.{length, ◌/◌, ◌≤◌, leb→le}
use epistole.Records.{SendBody, EventBody, bounce, complaint}
use epistole.Examples.Escaping.{escape_html, escape_html-marks}
use epistole.Examples.Codecs.{
  take, drop, subscriber_codec, send_codec, delivery_codec, subscriber_codec-round_trip,
  send_codec-round_trip, delivery_codec-round_trip,
}

pub record Memory : Type 0 where
  pub tables : Space → Table
  pub durable : Rows
  pub outbox : List ℕ
  pub clock : ℕ

abbrev pub rows_of : Memory → Rows
rows_of m s k = find k (m.tables s)

abbrev at_space : Space → (Table → Table) → (Space → Table) → Space → Table
at_space s f tables s' = if space_eq s s' then f (tables s') else tables s'

unfoldable pub mail_to : ℕ → Exec Memory Error (Unit {0})
mail_to message m =
    if message == 0
    then (err (smtp (text "relay send: refused")), m)
    else (ok tt, record m { outbox = message ∷ m.outbox })

-- A request body in cells: identifier, length of the first text, the first text, the second.
abbrev pub read_send_body : Text → Result Text (SendBody ℕ)
read_send_body (u ∷ n ∷ rest) =
    ok (record { send_id = record { ulid = u }; subject = take n rest; markdown = drop n rest })
read_send_body _ = err (text "bad body")

abbrev pub read_event_body : Text → Result Text (EventBody ℕ)
read_event_body (u ∷ k ∷ h ∷ email) = ok (record {
  send_id = record { ulid = u };
  email = email;
  kind = if k == 0 then bounce else complaint;
  hard = h == 1;
})
read_event_body _ = err (text "bad body")

pub body_fits :
    (b : Text) (n : ℕ) {t : Text}
    → ◌≡◌ {A = Result Text Text}
        (if leb (length b) n then ok b else err (text "length limit exceeded"))
        (ok t)
    → length t ≤ n
body_fits b n {t} h = elim (Bool-cases (leb (length b) n)) [
  | inl fits ↦ let same : b ≡ t = ground arith in rw (← same) (leb→le (length b) n fits)
  | inr long ↦ ground arith
]

abbrev pub empty : Memory
empty = record { tables = λ s. []; durable = λ s k. none; outbox = []; clock = 7 }

abbrev pub memory : Platform
memory = record {
  World = Memory;
  Time = ℕ;
  Ulid = ℕ;
  Message = ℕ;
  now_utc = λ m. (m.clock, record m { clock = suc m.clock });
  unix_timestamp = pos;
  add_seconds = λ t n. t + n;
  time_le = leb;
  ulid_to_string = λ u. u ∷ [];
  ulid_from_str = λ s. elim s [ [] ↦ none | u ∷ _ ↦ some u ];
  subscriber_json = subscriber_codec;
  send_json = send_codec;
  delivery_json = delivery_codec;
  get = λ s k m. (ok (find k (m.tables s)), m);
  insert =
      λ s k v m. (ok tt, record m { tables = at_space s (λ t. (k, v) ∷ without k t) m.tables });
  remove = λ s k m. (ok tt, record m { tables = at_space s (without k) m.tables });
  iter = λ s m. (map ok (sort (m.tables s)), m);
  persist = λ m. (ok tt, record m { durable = rows_of m });
  calendar =
      λ t. record { year = pos 2026; month = 8; day = 15; hour = t / 3600; minute = 0; second = 0 };
  utf8_error = λ s. text "invalid utf-8 sequence";
  parse_int_error = λ s. text "invalid digit found in string";
  header_to_str = λ s. some s;
  Body = Text;
  to_bytes = λ b n m. (if leb (length b) n then ok b else err (text "length limit exceeded"), m);
  send_body = read_send_body;
  event_body = read_event_body;
  is_email_address = λ s. true;
  markdown_to_html = λ s. s;
  clean = λ s. s;
  escape = escape_html;
  Mailbox = Text;
  parse_mailbox = λ s. ok s;
  compose = λ e. ok (length e.body);
  mail = mail_to;
}

pub insert-rows :
    (s s' : Space) (k v k' : Text) (m : Memory)
    → find k' (at_space s (λ t. (k, v) ∷ without k t) m.tables s') ≡ update (rows_of m) s k v s' k'
unfolding update find
insert-rows s s' k v k' m = ground (arith, find-without k k' (m.tables s'))

pub remove-rows :
    (s s' : Space) (k k' : Text) (m : Memory)
    → find k' (at_space s (without k) m.tables s') ≡ delete (rows_of m) s k s' k'
unfolding delete
remove-rows s s' k k' m = ground (arith, find-without k k' (m.tables s'))

pub mail-rows : (message : ℕ) (m : Memory) → rows_of (mail_to message m).1 ≡ rows_of m
unfolding mail_to
mail-rows message m = elim (Bool-cases (message == 0)) [
  | inl refused ↦ rw refused
  | inr accepted ↦ rw accepted
]

pub mail-outbox :
    (message : ℕ) (m : Memory)
    → (mail_to message m).0 ≡ ok tt
    → (mail_to message m).1.outbox ≡ message ∷ m.outbox
unfolding mail_to
mail-outbox message m h = ground arith

unfoldable pub memory_laws : PlatformLaws memory
memory_laws = record {
  rows = rows_of;
  durable = λ m. m.durable;
  outbox = λ m. m.outbox;
  rows-now_utc = λ w. refl;
  outbox-now_utc = λ w. refl;
  get-rows = λ s k w {v} h. cc;
  rows-get = λ s k w. refl;
  outbox-get = λ s k w. refl;
  rows-insert = λ s k v w h. fun_ext λ s'. fun_ext λ k'. insert-rows s s' k v k' w;
  outbox-insert = λ s k v w. refl;
  rows-remove = λ s k w h. fun_ext λ s'. fun_ext λ k'. remove-rows s s' k k' w;
  rows-iter = λ s w. refl;
  outbox-iter = λ s w. refl;
  iter-IsListing = λ s w entries h. sort-IsListing (w.tables s) entries h;
  rows-persist = λ w. refl;
  durable-persist = λ w h. refl;
  outbox-persist = λ w. refl;
  rows-to_bytes = λ b n w. refl;
  outbox-to_bytes = λ b n w. refl;
  to_bytes-le = λ b n w {t} h. body_fits b n h;
  rows-mail = mail-rows;
  outbox-mail = mail-outbox;
  escape-marks = escape_html-marks;
  subscriber_json-round_trip = subscriber_codec-round_trip;
  send_json-round_trip = send_codec-round_trip;
  delivery_json-round_trip = delivery_codec-round_trip;
}
