-- ===== src/Tests/Answers.antt =====
-- The theorems about answers, over the tables in memory, whose calls all succeed.
use epistole.Prelude.{
  ok, ◌⊎◌, ◌≡◌, err, ℕ, refl, ◌∷◌, none, text, text_eq, Bool-cases, inl, inr, arith,
}
use epistole.Prelude.Effects.{Returns}
use epistole.Platform.Available.{Available}
use epistole.Store.RateLimits.{count_of}
use epistole.Store.Sends.{decode_with}
use epistole.Store.Subscribers.{decode_row}
use epistole.Store.Subscribers.Answers.{IsReadable}
use epistole.Handlers.Confirm
use epistole.Handlers.Unsubscribe
use epistole.Handlers.Answers.{links-Returns}
use epistole.Handlers.Send.{campaign, reused}
use epistole.Handlers.Send.Replies.{campaign-Returns}
use epistole.Handlers.Send.Retries.{send_at}
use epistole.Records.{SendBody}
use epistole.Handlers.Send.Answers.{IsLedger}
use epistole.Examples.Letters.{letter_crypto, letter_laws}
use epistole.Examples.Tables.{find, sort}
use epistole.Examples.Memory.{memory, memory_laws}
use epistole.Examples.Links.{config, unsubscribe_link, secret-ne-nil}
use epistole.Tests.Leaving.{joined}

memory-Available : Available memory
memory-Available = record {
  get-total = λ s k w. (find k (w.tables s), refl);
  insert-total = λ s k v w. refl;
  persist-total = λ w. refl;
  subscriber_to_vec-total = λ s. (_, refl);
  delivery_to_vec-total = λ d. (_, refl);
  send_to_vec-total = λ d. (_, refl);
  iter-total = λ s w. (sort (w.tables s), refl);
}

joined-IsReadable : IsReadable memory memory_laws joined
unfolding decode_row find memory_laws text
joined-IsReadable = record {
  at = λ k. elim (Bool-cases (text_eq (text "ann@x.org") k)) [
    | inl here ↦ rw here (_, refl)
    | inr elsewhere ↦ rw elsewhere (none, refl)
  ];
}

links-Returns_example :
    Returns (Confirm.get memory letter_crypto config unsubscribe_link) joined
    × Returns (Confirm.post memory letter_crypto config unsubscribe_link) joined
    × Returns (Unsubscribe.get memory letter_crypto config unsubscribe_link) joined
    × Returns (Unsubscribe.post memory letter_crypto config unsubscribe_link) joined
    × Returns
        (Unsubscribe.one_click memory letter_crypto config unsubscribe_link (text "One-Click"))
        joined
links-Returns_example =
    links-Returns memory memory_laws memory-Available letter_crypto config unsubscribe_link joined
      joined-IsReadable

abbrev letter : SendBody ℕ
letter = record { send_id = record { ulid = 9 }; subject = text "May"; markdown = text "May" }

-- She is in the table, the ledger has her delivery, and the send is not recorded.
joined-IsLedger : IsLedger memory memory_laws joined
unfolding decode_with count_of find memory_laws
joined-IsLedger = record {
  delivery = λ k. elim (Bool-cases (text_eq (9 ∷ text "/ann@x.org") k)) [
    | inl here ↦ rw here (_, refl)
    | inr elsewhere ↦ rw elsewhere (none, refl)
  ];
  counted = λ b. (0, refl);
}

unrecorded : send_at memory memory_laws letter_crypto config joined letter.send_id ≡ ok none
unfolding decode_with find memory_laws
unrecorded = refl

campaign-Returns_example :
    Returns (campaign memory letter_crypto config letter (text "<p>May</p>") 7) joined
    ⊎ ((campaign memory letter_crypto config letter (text "<p>May</p>") 7 joined).0
        ≡ err (reused memory letter_crypto config letter.send_id))
campaign-Returns_example =
    campaign-Returns memory memory_laws memory-Available letter_crypto letter_laws config letter
      (text "<p>May</p>") 7 joined secret-ne-nil (omega arith) (omega arith) joined-IsReadable
      joined-IsLedger unrecorded
