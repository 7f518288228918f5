-- ===== src/Tests/Schedules.antt =====
-- Two fan-outs of one send at once.
use epistole.Prelude.{
  ℕ, ◌≡◌, ◌≢◌, ap, refl, ok, none, [], ◌∷◌, length, Text, text, text_eq, arith, to_ascii_lowercase,
  lower_byte,
}
use epistole.Prelude.Int.{add_i64}
use epistole.Prelude.Decimal.{show_u64, parse_u64}
use epistole.Prelude.Utf8.{is_utf8}
use epistole.Token.{sign}
use epistole.Records
use epistole.Records.{DeliveryStatus}
use epistole.Store.{persist_acknowledged}
use epistole.Store.Sends.{decode_with, delivery_key, delivery_get, delivery_put}
use epistole.Store.RateLimits.{rate_get, count_of, rate_increment, try_reserve_send_slot}
use epistole.Store.RateLimits.Counts.{count_at}
use epistole.Templates.{newsletter_email_html}
use epistole.Handlers.Send.{zeros}
use epistole.Handlers.Send.Compose.{build_message, hour_bucket, day_bucket}
use epistole.Handlers.Send.Deliver.{
  sent, transmit, record_delivery, unsubscribe_token, send_to, admit, attempt, deliver_to_recipient,
}
use epistole.Handlers.Send.Schedule.Interrupted.{IsInterrupted, Unskipped, IsInterrupted-Unskipped}
use epistole.Handlers.Send.Schedule.{
  Pc, ready, unrecorded, admitted, handed, Running, looked, reserved, hand_over, advance,
}
use epistole.Handlers.Send.Schedule.Counts.{hourly, daily, bucket}
use epistole.Handlers.Send.Schedule.Caps.{
  advanced, begun, Trace, start, next, Within, handed_over, trace-Within,
}
use epistole.Examples.Letters.{letter_crypto, letters, tag}
use epistole.Examples.Tables.{find, without}
use epistole.Examples.Memory.{Memory, memory, memory_laws, empty, mail_to}
use epistole.Examples.Links.{config}
use epistole.Tests.Sending.{ann, issue}

abbrev Place : Type 0
Place = Pc memory letter_crypto config

abbrev Fan : Type 0
Fan = Running memory letter_crypto config

abbrev fan : Place → Fan
fan pc = record { send_rec = issue; now = 7; pc = pc }

abbrev begin : Place
begin = ready (ann ∷ []) zeros

abbrev look : Place
look = unrecorded ann [] zeros

abbrev admission : Place
admission = admitted ann [] zeros

abbrev handing : Place
handing = handed ann [] zeros (Records.sent, none)

abbrev after : Place → Memory → Memory
after pc w = (advance memory letter_crypto config issue 7 pc w).1

-- Both look into the ledger, both reserve, both hand their message over.
abbrev reserving : Memory
reserving = after begin (after begin empty)

abbrev sending : Memory
sending = after look (after look reserving)

abbrev sent_twice : Memory
sent_twice = after admission (after admission sending)

look_lem : (advance memory letter_crypto config issue 7 begin empty).0 ≡ ok look
unfolding advance hand_over looked reserved transmit unsubscribe_token try_reserve_send_slot
    rate_get count_of rate_increment delivery_get decode_with delivery_key sign letters tag
    build_message newsletter_email_html mail_to find without text text_eq to_ascii_lowercase
    lower_byte add_i64 hour_bucket day_bucket show_u64 memory_laws is_utf8 parse_u64
look_lem = refl

look_again : (advance memory letter_crypto config issue 7 begin (after begin empty)).0 ≡ ok look
unfolding advance hand_over looked reserved transmit unsubscribe_token try_reserve_send_slot
    rate_get count_of rate_increment delivery_get decode_with delivery_key sign letters tag
    build_message newsletter_email_html mail_to find without text text_eq to_ascii_lowercase
    lower_byte add_i64 hour_bucket day_bucket show_u64 memory_laws is_utf8 parse_u64
look_again = refl

reserve_lem : (advance memory letter_crypto config issue 7 look reserving).0 ≡ ok admission
unfolding advance hand_over looked reserved transmit unsubscribe_token try_reserve_send_slot
    rate_get count_of rate_increment delivery_get decode_with delivery_key sign letters tag
    build_message newsletter_email_html mail_to find without text text_eq to_ascii_lowercase
    lower_byte add_i64 hour_bucket day_bucket show_u64 memory_laws is_utf8 parse_u64
reserve_lem = refl

reserve_again :
    (advance memory letter_crypto config issue 7 look (after look reserving)).0 ≡ ok admission
unfolding advance hand_over looked reserved transmit unsubscribe_token try_reserve_send_slot
    rate_get count_of rate_increment delivery_get decode_with delivery_key sign letters tag
    build_message newsletter_email_html mail_to find without text text_eq to_ascii_lowercase
    lower_byte add_i64 hour_bucket day_bucket show_u64 memory_laws is_utf8 parse_u64
reserve_again = refl

hand_lem : (advance memory letter_crypto config issue 7 admission sending).0 ≡ ok handing
unfolding advance hand_over looked reserved transmit unsubscribe_token try_reserve_send_slot
    rate_get count_of rate_increment delivery_get decode_with delivery_key sign letters tag
    build_message newsletter_email_html mail_to find without text text_eq to_ascii_lowercase
    lower_byte add_i64 hour_bucket day_bucket show_u64 memory_laws is_utf8 parse_u64
hand_lem = refl

hand_again :
    (advance memory letter_crypto config issue 7 admission (after admission sending)).0 ≡ ok handing
unfolding advance hand_over looked reserved transmit unsubscribe_token try_reserve_send_slot
    rate_get count_of rate_increment delivery_get decode_with delivery_key sign letters tag
    build_message newsletter_email_html mail_to find without text text_eq to_ascii_lowercase
    lower_byte add_i64 hour_bucket day_bucket show_u64 memory_laws is_utf8 parse_u64
hand_again = refl

-- The recipient is mailed twice: nothing holds the ledger between the look and the record.
mailed_twice : length (memory_laws.outbox sent_twice) ≡ 2
unfolding advance hand_over looked reserved transmit unsubscribe_token try_reserve_send_slot
    rate_get count_of rate_increment delivery_get decode_with delivery_key sign letters tag
    build_message newsletter_email_html mail_to find without text text_eq to_ascii_lowercase
    lower_byte add_i64 hour_bucket day_bucket show_u64 memory_laws is_utf8 parse_u64
mailed_twice = refl

abbrev both :
    Trace memory memory_laws letter_crypto config empty [] sent_twice
      (fan handing ∷ fan handing ∷ [])
both =
    next
      (next
        (next
          (next
            (next
              (next (next (next start (begun issue 7 (ann ∷ []))) (begun issue 7 (ann ∷ [])))
                (advanced [] (fan begin ∷ []) (fan begin) look refl look_lem))
              (advanced (fan look ∷ []) [] (fan begin) look refl look_again))
            (advanced [] (fan look ∷ []) (fan look) admission refl reserve_lem))
          (advanced (fan admission ∷ []) [] (fan look) admission refl reserve_again))
        (advanced [] (fan admission ∷ []) (fan admission) handing refl hand_lem))
      (advanced (fan handing ∷ []) [] (fan admission) handing refl hand_again)

abbrev hour : Text
hour = hour_bucket memory 7

count_lem : count_at memory memory_laws empty hour ≡ ok 0
unfolding count_of find memory_laws
count_lem = refl

apart_lem : (now : ℕ) → bucket memory memory_laws letter_crypto config daily now ≢ hour
unfolding hour_bucket day_bucket show_u64
apart_lem now e = let sizes : ◌≡◌ {A = ℕ} 8 10 = ap length e in absurd (omega arith)

trace-Within_example :
    Within memory memory_laws letter_crypto config hourly hour 0
      (handed_over memory memory_laws letter_crypto config hourly hour both)
      (fan handing ∷ fan handing ∷ [])
      sent_twice
trace-Within_example =
    trace-Within memory memory_laws letter_crypto config hourly hour (omega arith) (omega arith)
      apart_lem both 0 count_lem

-- One fan-out that stops, and another one later.
abbrev looked_once : Memory
looked_once = after begin empty

abbrev stopped : Memory
stopped = after admission (after look looked_once)

reserve_once : (advance memory letter_crypto config issue 7 look looked_once).0 ≡ ok admission
unfolding advance hand_over looked reserved transmit unsubscribe_token try_reserve_send_slot
    rate_get count_of rate_increment delivery_get decode_with delivery_key sign letters tag
    build_message newsletter_email_html mail_to find without text text_eq to_ascii_lowercase
    lower_byte add_i64 hour_bucket day_bucket show_u64 memory_laws is_utf8 parse_u64
reserve_once = refl

hand_once :
    (advance memory letter_crypto config issue 7 admission (after look looked_once)).0 ≡ ok handing
unfolding advance hand_over looked reserved transmit unsubscribe_token try_reserve_send_slot
    rate_get count_of rate_increment delivery_get decode_with delivery_key sign letters tag
    build_message newsletter_email_html mail_to find without text text_eq to_ascii_lowercase
    lower_byte add_i64 hour_bucket day_bucket show_u64 memory_laws is_utf8 parse_u64
hand_once = refl

stopped-IsInterrupted :
    IsInterrupted memory memory_laws letter_crypto config issue ann [] zeros 7 empty stopped
stopped-IsInterrupted = record {
  look = look_lem;
  reserve = reserve_once;
  hand = hand_once;
  stopped = refl;
}

again_lem :
    (deliver_to_recipient memory letter_crypto config issue ann
      (hour_bucket memory 9)
      (day_bucket memory 9)
      9
      stopped).0
    ≡ ok sent
unfolding advance deliver_to_recipient attempt admit send_to record_delivery delivery_put
    persist_acknowledged hand_over looked reserved transmit unsubscribe_token try_reserve_send_slot
    rate_get count_of rate_increment delivery_get decode_with delivery_key sign letters tag
    build_message newsletter_email_html mail_to find without text text_eq to_ascii_lowercase
    lower_byte add_i64 hour_bucket day_bucket show_u64 memory_laws is_utf8 parse_u64
again_lem = refl

IsInterrupted-Unskipped_example :
    Unskipped memory memory_laws letter_crypto config sent empty stopped stopped
      (deliver_to_recipient memory letter_crypto config issue ann
        (hour_bucket memory 9)
        (day_bucket memory 9)
        9
        stopped).1
IsInterrupted-Unskipped_example =
    IsInterrupted-Unskipped memory memory_laws letter_crypto config issue ann [] zeros 7 9 empty
      stopped stopped sent (omega arith) (omega arith) stopped-IsInterrupted refl again_lem
