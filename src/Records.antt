-- ===== src/Records.antt =====
-- The records that src/store/subscriber.rs and src/store/send.rs persist, over the times of the crate
-- `time` and the identifiers of the crate `ulid`.
use epistole.Prelude.{ℕ, Option, List, Text, Bool, true, false}
use epistole.Prelude.Int.{ℤ}

-- `SubscriberState`
pub data SubscriberState : Type 0 where
  pending active unsubscribed : SubscriberState

abbrev pub state_eq : SubscriberState → SubscriberState → Bool
state_eq pending pending = true
state_eq active active = true
state_eq unsubscribed unsubscribed = true
state_eq _ _ = false

pub record Subscriber (Time : Type 0) : Type 0 where
  pub email : Text
  pub state : SubscriberState
  pub created_at : Time
  pub confirmed_at : Option Time
  pub unsubscribed_at : Option Time
  pub generation : ℕ

-- `SendId`, the newtype of src/send_id.rs
pub record SendId (Ulid : Type 0) : Type 0 where
  pub ulid : Ulid

pub record Send (Ulid Time : Type 0) : Type 0 where
  pub id : SendId Ulid
  pub subject : Text
  pub body_html : Text
  pub sent_at : Time

pub data DeliveryStatus : Type 0 where
  queued sent failed bounced complained : DeliveryStatus

pub record Delivery (Ulid Time : Type 0) : Type 0 where
  pub send_id : SendId Ulid
  pub email : Text
  pub status : DeliveryStatus
  pub at : Time
  pub error : Option Text

-- The year, month, day and time of day of an `OffsetDateTime`, in UTC.
pub record Calendar : Type 0 where
  pub year : ℤ
  pub month : ℕ
  pub day : ℕ
  pub hour : ℕ
  pub minute : ℕ
  pub second : ℕ

-- The parts of a message that src/handlers/send.rs and subscribe.rs give to `Message::builder`; every
-- one of theirs has the content type `text/html`.
pub record Envelope (Mailbox : Type 0) : Type 0 where
  pub from : Mailbox
  pub to : Mailbox
  pub subject : Text
  pub reply_to : Option Mailbox
  pub raw_headers : List (Text × Text)
  pub body : Text

-- The JSON body of `POST /send`
pub record SendBody (Ulid : Type 0) : Type 0 where
  pub send_id : SendId Ulid
  pub subject : Text
  pub markdown : Text

-- `EventKind` and the JSON body of `POST /webhooks/delivery-events`
pub data EventKind : Type 0 where
  bounce complaint : EventKind

pub record EventBody (Ulid : Type 0) : Type 0 where
  pub send_id : SendId Ulid
  pub email : Text
  pub kind : EventKind
  pub hard : Bool
