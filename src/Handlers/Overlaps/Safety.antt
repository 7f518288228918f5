-- ===== src/Handlers/Overlaps/Safety.antt =====
-- Where consent comes from when requests overlap.
use epistole.Prelude.{
  ◌≡◌, refl, sym, ap, ◌∙◌, subst, ◌++◌, ◌⊎◌, inl, inr, [], ◌∷◌, List, All, All-map, Option, none,
  some, Text, text_eq, text_eq_sound, to_ascii_lowercase, true, Bool-cases, ok,
}
use epistole.Crypto.{Crypto}
use epistole.Config.{Config}
use epistole.Platform.{Platform, PlatformLaws, subscribers}
use epistole.Records.{Subscriber, active, state_eq}
use epistole.Token.{Token}
use epistole.Store.Subscribers.{subscriber_get, decode_row}
use epistole.Store.Subscribers.Laws.{
  subscriber_at, subscriber_get-Keeps, subscriber_get-subscriber_at,
}
use epistole.Handlers.Moves.{IsKeyed, IsKeyed-Wrote}
use epistole.Handlers.Overlaps.{
  confirming, settle, Step, confirm_read, unsubscribe_read, suppress_read, settled, elsewhere,
  Trace, start, next, ConfirmsIn, Confirmed,
}
use epistole.Handlers.Overlaps.Writes
use epistole.Handlers.Overlaps.Writes.{WroteBy}

module _ (p : Platform) (laws : PlatformLaws p) (crypto : Crypto) (config : Config) where
  open p use {World, Time}
  open laws use {rows}

  abbrev Flying : Type 0
  Flying = Writes.Flying p laws crypto config

  abbrev Own : Flying → Type 0
  Own = Writes.Own p laws crypto config

  abbrev Activates : Flying → Text → Type 0
  Activates = Writes.Activates p laws crypto config

  -- The row at `k` is active.
  pub record IsActive (w : World) (k : Text) : Type 0 where
    pub subscriber : Subscriber Time
    pub found : subscriber_at p laws w k ≡ ok (some subscriber)
    pub active_lem : state_eq subscriber.state active ≡ true

  All-remove :
      (P : Flying → Type 0) (before after : List Flying) (r : Flying)
      → All P (before ++ (r ∷ after))
      → P r × All P (before ++ after)
  All-remove P [] after r (own, others) = (own, others)
  All-remove P (q ∷ before) after r (first, others) =
      let (own, rest) = All-remove P before after r others in (own, (first, rest))

  IsKeyed-same :
      (w w' : World)
      → rows w' subscribers ≡ rows w subscribers
      → IsKeyed p laws w
      → IsKeyed p laws w'
  IsKeyed-same w w' same h = record {
    at = λ k s found. h.at k s (ap (λ r. decode_row p (r k)) (sym same) ∙ found);
  }

  IsActive-same :
      (w w' : World) (k : Text)
      → rows w' subscribers ≡ rows w subscribers
      → IsActive w' k
      → IsActive w k
  IsActive-same w w' k same h = record {
    subscriber = h.subscriber;
    found = ap (λ r. decode_row p (r k)) (sym same) ∙ h.found;
    active_lem = h.active_lem;
  }

  -- A row that is active after a write was so before, or is the one that was written.
  IsActive-Wrote :
      (r : Flying) (w w' : World) (k : Text)
      → WroteBy p laws crypto config r w w'
      → IsActive w' k
      → IsActive w k ⊎ Activates r k
  IsActive-Wrote r w w' k h act = elim (Bool-cases (text_eq (to_ascii_lowercase h.row.email) k)) [
    | inl same ↦
        let row_at : subscriber_at p laws w' k ≡ ok (some h.row) =
          h.wrote.subscriber_at_key k ∙ rw same refl in
        let is_row : act.subscriber ≡ h.row = let found = act.found in cc in
        let here = text_eq_sound (to_ascii_lowercase h.row.email) k same in
        inr (
          subst (Activates r) here
            (h.allowed (ap (λ s. state_eq s.state active) (sym is_row) ∙ act.active_lem)))
    | inr other ↦ inl (record {
      subscriber = act.subscriber;
      found = sym (h.wrote.subscriber_at_key k ∙ rw other refl) ∙ act.found;
      active_lem = act.active_lem;
    })
  ]

  module _ (w : World) where
    -- What holds after a trace from `w`.
    record Held {v : World} {flying : List Flying} (trace : Trace p laws crypto config w v flying)
        : Type 0 where
      keyed : IsKeyed p laws v
      own : All Own flying
      linked : All (λ r. (k : Text) → Activates r k → Confirmed p laws crypto config trace k) flying
      from : (k : Text) → IsActive v k → IsActive w k ⊎ Confirmed p laws crypto config trace k

    -- What a trace has for each request in flight.
    abbrev Linked :
        {v : World} {flying : List Flying} → Trace p laws crypto config w v flying → Flying → Type 0
    Linked trace r = (k : Text) → Activates r k → Confirmed p laws crypto config trace k

    module _ {v : World} {flying : List Flying}
        (trace : Trace p laws crypto config w v flying) where
      Linked-next :
          {w' : World} {flying' : List Flying}
          (step : Step p laws crypto config v flying w' flying') (rs : List Flying)
          → All (Linked trace) rs
          → All (Linked (next trace step)) rs
      unfolding Confirmed
      Linked-next step rs linked = All-map (λ r h k act. inl (h k act)) rs linked

      -- A step that only reads.
      read-Held :
          {w' : World} {flying' : List Flying}
          (step : Step p laws crypto config v flying w' flying')
          → rows w' subscribers ≡ rows v subscribers
          → All Own flying'
          → All (Linked (next trace step)) flying'
          → Held trace
          → Held (next trace step)
      unfolding Confirmed
      read-Held {w'} step same own linked h = record {
        keyed = IsKeyed-same v w' same h.keyed;
        own = own;
        linked = linked;
        from = λ k act. elim (h.from k (IsActive-same v w' k same act)) [
          | inl old ↦ inl old
          | inr confirmed ↦ inr (inl confirmed)
        ];
      }

      Own-read :
          (t : Token) (now : Time) (o : Option (Subscriber Time))
          → IsKeyed p laws v
          → (subscriber_get p t.email v).0 ≡ ok o
          → Own (confirming t now o)
      Own-read t now none keyed read = tt
      Own-read t now (some s) keyed read =
          keyed.at (to_ascii_lowercase t.email) s
            (subscriber_get-subscriber_at p laws t.email v read)

      got_rows : (email : Text) → rows (subscriber_get p email v).1 subscribers ≡ rows v subscribers
      got_rows email = ap (λ r. r subscribers) ((subscriber_get-Keeps p laws email).at v)

      -- A request in flight that settles.
      settled-Held :
          (before after : List Flying) (r : Flying) (placed : flying ≡ before ++ (r ∷ after))
          (done : (settle p laws crypto config r v).0 ≡ ok tt)
          → Held trace
          → Held (next trace (settled before after r placed done))
      unfolding Confirmed ConfirmsIn
      settled-Held before after r placed done h =
          let w' = (settle p laws crypto config r v).1 in
          let step : Step p laws crypto config v flying w' (before ++ after) =
            settled before after r placed done in
          let (own, others) = All-remove Own before after r (subst (All Own) placed h.own) in
          let (linked, rest) =
            All-remove (Linked trace) before after r (subst (All (Linked trace)) placed h.linked) in
          elim (Writes.settle-Settled p laws crypto config r v own done) [
            | inl same ↦
                let unchanged = ap (λ q. q subscribers) same in
                read-Held step unchanged others (Linked-next step (before ++ after) rest) h
            | inr wrote ↦ record {
              keyed = IsKeyed-Wrote p laws wrote.row wrote.wrote h.keyed;
              own = others;
              linked = Linked-next step (before ++ after) rest;
              from = λ k act. elim (IsActive-Wrote r v w' k wrote act) [
                | inl was ↦ elim (h.from k was) [
                  | inl old ↦ inl old
                  | inr confirmed ↦ inr (inl confirmed)
                ]
                | inr allowed ↦ inr (inl (linked k allowed))
              ];
            }
          ]

      step-Held :
          {w' : World} {flying' : List Flying}
          (step : Step p laws crypto config v flying w' flying')
          → Held trace
          → Held (next trace step)
      unfolding Confirmed ConfirmsIn
      step-Held (confirm_read raw now t o valid read) h =
          read-Held (confirm_read raw now t o valid read) (got_rows t.email)
            (Own-read t now o h.keyed read, h.own)
            ((λ k act. inr act), Linked-next (confirm_read raw now t o valid read) flying h.linked)
            h
      step-Held (unsubscribe_read raw now t o valid read) h =
          read-Held (unsubscribe_read raw now t o valid read) (got_rows t.email) (tt, h.own)
            (
              (λ k act. absurd act),
              Linked-next (unsubscribe_read raw now t o valid read) flying h.linked,
            )
            h
      step-Held (suppress_read email now o read) h =
          read-Held (suppress_read email now o read) (got_rows email) (tt, h.own)
            ((λ k act. absurd act), Linked-next (suppress_read email now o read) flying h.linked) h
      step-Held (elsewhere w' same) h =
          read-Held (elsewhere w' same) same h.own (Linked-next (elsewhere w' same) flying h.linked)
            h
      step-Held (settled before after r placed done) h = settled-Held before after r placed done h

    trace-Held :
        {v : World} {flying : List Flying} (trace : Trace p laws crypto config w v flying)
        → IsKeyed p laws w
        → Held trace
    unfolding Confirmed
    trace-Held start h = record { keyed = h; own = tt; linked = tt; from = λ k act. inl act }
    trace-Held (next trace step) h = step-Held trace step (trace-Held trace h)

  -- Consent comes from a link also when requests overlap. Confirmations, unsubscriptions and
  -- suppressions each read a row and write later by what they read, with any others in between and
  -- each read and write that is made succeeding, from a world whose subscriber rows stand under
  -- their own lowercased emails and with no request in flight. If a row that was not active is
  -- active afterwards, a confirm link for its address that verified was submitted on the way.
  pub IsActive-Confirmed :
      {w v : World} {flying : List Flying} (trace : Trace p laws crypto config w v flying)
      (k : Text)
      → IsKeyed p laws w
      → ¬ IsActive w k
      → IsActive v k
      → Confirmed p laws crypto config trace k
  IsActive-Confirmed {w} trace k keyed inactive act = elim ((trace-Held w trace keyed).from k act) [
    | inl old ↦ absurd (inactive old)
    | inr confirmed ↦ confirmed
  ]
