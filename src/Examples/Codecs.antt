-- ===== src/Examples/Codecs.antt =====
-- Codecs of the stored records, over numbers for times and identifiers, that meet the round-trip laws.

use epistole.Prelude.{
  ℕ, zero, suc, ◌≡◌, refl, ap, ◌++◌, Option, none, some, [], ◌∷◌, Text, text, arith, Result, ok,
  err,
}
use epistole.Prelude.{length}
use epistole.Platform.{Codec}
use epistole.Records.{
  Subscriber, Send, Delivery, SubscriberState, pending, active, unsubscribed, DeliveryStatus,
  queued, sent, failed, bounced, complained,
}

-- Codecs into cells of arbitrary size: fixed fields first, then the texts.
abbrev cell : Option ℕ → ℕ
cell none = 0
cell (some n) = suc n

abbrev uncell : ℕ → Option ℕ
uncell zero = none
uncell (suc n) = some n

abbrev state_cell : SubscriberState → ℕ
state_cell pending = 0
state_cell active = 1
state_cell unsubscribed = 2

abbrev cell_state : ℕ → SubscriberState
cell_state zero = pending
cell_state (suc zero) = active
cell_state (suc (suc n)) = unsubscribed

abbrev status_cell : DeliveryStatus → ℕ
status_cell queued = 0
status_cell sent = 1
status_cell failed = 2
status_cell bounced = 3
status_cell complained = 4

abbrev cell_status : ℕ → DeliveryStatus
cell_status zero = queued
cell_status (suc zero) = sent
cell_status (suc (suc zero)) = failed
cell_status (suc (suc (suc zero))) = bounced
cell_status (suc (suc (suc (suc n)))) = complained

abbrev pub take : ℕ → Text → Text
take zero s = []
take (suc n) [] = []
take (suc n) (c ∷ s) = c ∷ take n s

abbrev pub drop : ℕ → Text → Text
drop zero s = s
drop (suc n) [] = []
drop (suc n) (c ∷ s) = drop n s

take-length : (s t : Text) → take (length s) (s ++ t) ≡ s
take-length [] t = refl
take-length (c ∷ s) t = ap (λ r. c ∷ r) (take-length s t)

drop-length : (s t : Text) → drop (length s) (s ++ t) ≡ t
drop-length [] t = refl
drop-length (c ∷ s) t = drop-length s t

abbrev read_subscriber : Text → Result Text (Subscriber ℕ)
read_subscriber (a ∷ b ∷ c ∷ d ∷ g ∷ email) = ok (record {
  email = email;
  state = cell_state a;
  created_at = b;
  confirmed_at = uncell c;
  unsubscribed_at = uncell d;
  generation = g;
})
read_subscriber _ = err (text "bad subscriber")

abbrev read_send : Text → Result Text (Send ℕ ℕ)
read_send (u ∷ at ∷ n ∷ rest) = ok (record {
  id = record { ulid = u };
  subject = take n rest;
  body_html = drop n rest;
  sent_at = at;
})
read_send _ = err (text "bad send")

abbrev read_error : ℕ → Text → Option Text
read_error zero rest = none
read_error (suc n) rest = some (take n rest)

abbrev after_error : ℕ → Text → Text
after_error zero rest = rest
after_error (suc n) rest = drop n rest

abbrev error_cells : Option Text → Text → Text
error_cells none email = 0 ∷ email
error_cells (some e) email = suc (length e) ∷ e ++ email

abbrev read_delivery : Text → Result Text (Delivery ℕ ℕ)
read_delivery (u ∷ st ∷ at ∷ n ∷ rest) = ok (record {
  send_id = record { ulid = u };
  email = after_error n rest;
  status = cell_status st;
  at = at;
  error = read_error n rest;
})
read_delivery _ = err (text "bad delivery")

abbrev pub subscriber_codec : Codec (Subscriber ℕ)
subscriber_codec = record {
  to_vec = λ s. ok (
      state_cell s.state
      ∷ s.created_at
      ∷ cell s.confirmed_at
      ∷ cell s.unsubscribed_at
      ∷ s.generation
      ∷ s.email);
  from_slice = read_subscriber;
}

abbrev pub send_codec : Codec (Send ℕ ℕ)
send_codec = record {
  to_vec = λ s. ok (s.id.ulid ∷ s.sent_at ∷ length s.subject ∷ (s.subject ++ s.body_html));
  from_slice = read_send;
}

abbrev pub delivery_codec : Codec (Delivery ℕ ℕ)
delivery_codec = record {
  to_vec = λ d. ok (d.send_id.ulid ∷ status_cell d.status ∷ d.at ∷ error_cells d.error d.email);
  from_slice = read_delivery;
}

cell_state-state_cell : (s : SubscriberState) → cell_state (state_cell s) ≡ s
cell_state-state_cell pending = refl
cell_state-state_cell active = refl
cell_state-state_cell unsubscribed = refl

cell_status-status_cell : (s : DeliveryStatus) → cell_status (status_cell s) ≡ s
cell_status-status_cell queued = refl
cell_status-status_cell sent = refl
cell_status-status_cell failed = refl
cell_status-status_cell bounced = refl
cell_status-status_cell complained = refl

uncell-cell : (o : Option ℕ) → uncell (cell o) ≡ o
uncell-cell none = refl
uncell-cell (some n) = refl

pub subscriber_codec-round_trip :
    (s : Subscriber ℕ) {b : Text}
    → subscriber_codec.to_vec s ≡ ok b
    → subscriber_codec.from_slice b ≡ ok s
subscriber_codec-round_trip s h = ground (
  arith,
  cell_state-state_cell s.state,
  uncell-cell s.confirmed_at,
  uncell-cell s.unsubscribed_at,
)

pub send_codec-round_trip :
    (s : Send ℕ ℕ) {b : Text} → send_codec.to_vec s ≡ ok b → send_codec.from_slice b ≡ ok s
send_codec-round_trip s h =
    ground (arith, take-length s.subject s.body_html, drop-length s.subject s.body_html)

read-error_cells :
    (u st at : ℕ) (e : Option Text) (email : Text)
    → read_delivery (u ∷ st ∷ at ∷ error_cells e email)
      ≡ ok (record {
        send_id = record { ulid = u };
        email = email;
        status = cell_status st;
        at = at;
        error = e;
      })
read-error_cells u st at none email = refl
read-error_cells u st at (some e) email = rw (take-length e email, drop-length e email)

pub delivery_codec-round_trip :
    (d : Delivery ℕ ℕ) {b : Text}
    → delivery_codec.to_vec d ≡ ok b
    → delivery_codec.from_slice b ≡ ok d
delivery_codec-round_trip d h = ground (
  arith,
  cell_status-status_cell d.status,
  read-error_cells d.send_id.ulid (status_cell d.status) d.at d.error d.email,
)
