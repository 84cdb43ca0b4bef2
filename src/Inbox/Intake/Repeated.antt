-- ===== src/Inbox/Intake/Repeated.antt =====
-- What a request adds to the queue, and what it adds when it is sent again.
use crmtsi_app.Common.{
  ℕ, ◌+◌, ◌≤◌, ◌≡◌, refl, ap, ◌∙◌, String, Bool, true, Option, List, [], ◌∷◌, ◌++◌, str_eq_refl,
  if◌then◌else◌, any_of, ◌==◌, length, length-append, arith, Bool-cases, inl, inr,
}
use crmtsi_app.Inbox.Intake.{
  Queued, is_same, insert_event, Normalized, Channel, Body, Answer, ignored, counted, Counts,
  queue_all, answer_counts, events_of, is_supported, no_counts, queue_events, receive,
}

abbrev Known : String → Normalized → List Queued → Type 0
Known channel_id e rows = any_of (is_same channel_id e.provider_event_id) rows ≡ true

abbrev AllKnown : String → List Normalized → List Queued → Type 0
AllKnown channel_id [] rows = Unit {0}
AllKnown channel_id (e ∷ events) rows = Known channel_id e rows × AllKnown channel_id events rows

any_of-append :
    (p : Queued → Bool) (rows more : List Queued)
    → any_of p rows ≡ true
    → any_of p (rows ++ more) ≡ true
any_of-append p [] more h = absurd (cc h)
any_of-append p (r ∷ rows) more h = ground (arith, any_of-append p rows more)

any_of-last :
    (p : Queued → Bool) (rows : List Queued) (q : Queued)
    → p q ≡ true
    → any_of p (rows ++ q ∷ []) ≡ true
any_of-last p [] q h = ground (arith, h)
any_of-last p (r ∷ rows) q h = ground (arith, any_of-last p rows q h)

insert-any_of :
    (p : Queued → Bool) (q : Queued) (rows : List Queued)
    → any_of p rows ≡ true
    → any_of p (insert_event q rows).0 ≡ true
unfolding insert_event
insert-any_of p q rows h =
    elim (Bool-cases (any_of (is_same q.channel_id q.provider_event_id) rows)) [
      | inl known ↦ rw known h
      | inr new ↦ rw new (any_of-append p rows (q ∷ []) h)
    ]

-- After an insert its identity is there.
insert-known :
    (q : Queued) (rows : List Queued)
    → any_of (is_same q.channel_id q.provider_event_id) (insert_event q rows).0 ≡ true
unfolding insert_event
insert-known q rows = elim (Bool-cases (any_of (is_same q.channel_id q.provider_event_id) rows)) [
  | inl known ↦ rw known known
  | inr new ↦ rw new (
      any_of-last (is_same q.channel_id q.provider_event_id) rows q
        (ground (arith, str_eq_refl q.channel_id, str_eq_refl q.provider_event_id)))
]

insert-length :
    (q : Queued) (rows : List Queued)
    → let (after, inserted) = insert_event q rows in
      length after ≡ length rows + (if inserted then 1 else 0)
unfolding insert_event
insert-length q rows = ground (arith, length-append rows (q ∷ []))

module _ (channel_id : String) (tenant_id : Option String) (ids : ℕ → String) where
  abbrev row : ℕ → Normalized → Queued
  row i e = record {
    id = ids i;
    channel_id = channel_id;
    tenant_id = tenant_id;
    provider_event_id = e.provider_event_id;
    event = e.event;
  }

  abbrev counts_after : Bool → Counts → Counts
  counts_after inserted n =
      if inserted
      then record n { accepted = n.accepted + 1 }
      else record n { duplicates = n.duplicates + 1 }

  queue_all-any_of :
      (p : Queued → Bool) (i : ℕ) (events : List Normalized) (n : Counts) (rows : List Queued)
      → any_of p rows ≡ true
      → any_of p (queue_all channel_id tenant_id ids i events n rows).0 ≡ true
  unfolding queue_all
  queue_all-any_of p i [] n rows h = h
  queue_all-any_of p i (e ∷ events) n rows h =
      let next = insert_event (row i e) rows in
      queue_all-any_of p (i + 1) events (counts_after next.1 n) next.0
        (insert-any_of p (row i e) rows h)

  -- The counts add up, and every event's identity is queued at the end.
  queue_all-counts :
      (i : ℕ) (events : List Normalized) (n : Counts) (rows : List Queued)
      → let (after, m) = queue_all channel_id tenant_id ids i events n rows in
        (m.accepted + m.duplicates ≡ n.accepted + n.duplicates + length events)
        × (length after + n.accepted ≡ length rows + m.accepted)
  unfolding queue_all
  queue_all-counts i [] n rows = (omega arith, refl)
  queue_all-counts i (e ∷ events) n rows =
      let next = insert_event (row i e) rows in
      let rest = queue_all-counts (i + 1) events (counts_after next.1 n) next.0 in
      elim (Bool-cases next.1) [
        | inl inserted ↦ ground (arith, rest, insert-length (row i e) rows, inserted)
        | inr known ↦ ground (arith, rest, insert-length (row i e) rows, known)
      ]

  queue_all-known :
      (i : ℕ) (events : List Normalized) (n : Counts) (rows : List Queued)
      → AllKnown channel_id events (queue_all channel_id tenant_id ids i events n rows).0
  unfolding queue_all
  queue_all-known i [] n rows = tt
  queue_all-known i (e ∷ events) n rows =
      let next = insert_event (row i e) rows in
      (
        queue_all-any_of (is_same channel_id e.provider_event_id) (i + 1) events
            (counts_after next.1 n) next.0 (insert-known (row i e) rows),
        queue_all-known (i + 1) events (counts_after next.1 n) next.0,
      )

  -- Events that are known are counted as duplicates and queued no more.
  queue_all-repeated :
      (i : ℕ) (events : List Normalized) (n : Counts) (rows : List Queued)
      → AllKnown channel_id events rows
      → queue_all channel_id tenant_id ids i events n rows
        ≡ (rows, record n { duplicates = n.duplicates + length events })
  unfolding queue_all insert_event
  queue_all-repeated i [] n rows h =
      ap (λ (k : ℕ). (rows, record n { duplicates = k })) (omega arith)
  queue_all-repeated i (e ∷ events) n rows h = rw h.0 (
      queue_all-repeated (i + 1) events (record n { duplicates = n.duplicates + 1 }) rows h.1
      ∙ ap (λ (k : ℕ). (rows, record n { duplicates = k })) (omega arith))

AllKnown-append :
    (channel_id : String) (events : List Normalized) (rows more : List Queued)
    → AllKnown channel_id events rows
    → AllKnown channel_id events (rows ++ more)
AllKnown-append channel_id [] rows more h = tt
AllKnown-append channel_id (e ∷ events) rows more h = (
  any_of-append (is_same channel_id e.provider_event_id) rows more h.0,
  AllKnown-append channel_id events rows more h.1,
)

-- What a request with events is answered.
abbrev pub answer_to : (n d : ℕ) → (status : ℕ) → Answer
answer_to n d status = if n == 0 then ignored else counted status n d

module _ (channel_id : String) (c : Channel) (ids again : ℕ → String) where
  queue_events-counted :
      (events : List Normalized) (rows : List Queued)
      → let (after, answer) = queue_events channel_id c ids events rows in
        (d : ℕ) × (answer
          ≡ answer_to (length events) d (if length after == length rows then 200 else 202))
        × (d + length after ≡ length events + length rows)
        × (d ≤ length events)
  unfolding answer_counts
  queue_events-counted [] rows = (0, refl, omega arith, omega arith)
  queue_events-counted (e ∷ events) rows =
      let (total, added) =
        queue_all-counts channel_id c.tenant_id ids 0 (e ∷ events) no_counts rows in
      let (after, m) = queue_all channel_id c.tenant_id ids 0 (e ∷ events) no_counts rows in
      (
        m.duplicates,
        ground (arith, total, added),
        omega (arith, total, added),
        omega (arith, total, added),
      )

  queue_events-repeated :
      (events : List Normalized) (rows more : List Queued)
      → let later = (queue_events channel_id c ids events rows).0 ++ more in
        queue_events channel_id c again events later
        ≡ (later, answer_to (length events) (length events) 200)
  unfolding answer_counts
  queue_events-repeated [] rows more = refl
  queue_events-repeated (e ∷ events) rows more =
      let after = (queue_all channel_id c.tenant_id ids 0 (e ∷ events) no_counts rows).0 in
      ap (answer_counts (e ∷ events)) (
        queue_all-repeated channel_id c.tenant_id again 0 (e ∷ events) no_counts (after ++ more) (
          AllKnown-append channel_id (e ∷ events) after more
            (queue_all-known channel_id c.tenant_id ids 0 (e ∷ events) no_counts rows)))
      ∙ (ground arith)

  -- A request of a channel with a supported provider and a valid signature is answered `ignored` if it
  -- has no events. Otherwise it is answered the number of its events and that of the duplicates among
  -- them, each other event is a new row, and the status is 202 if there is a new row, else 200. Sent
  -- again, with whatever other rows queued since, it adds no row, and all its events are duplicates.
  pub receive_repeated :
      (body : Body) (rows more : List Queued)
      → is_supported c.provider ≡ true
      → let (after, answer) = receive channel_id c true ids body rows in
        let n = length (events_of c body) in
        ((d : ℕ) × (answer ≡ answer_to n d (if length after == length rows then 200 else 202))
          × (d + length after ≡ n + length rows)
          × (d ≤ n))
        × (receive channel_id c true again body (after ++ more)
            ≡ (after ++ more, answer_to n n 200))
  unfolding receive
  receive_repeated body rows more supported = rw supported (
    queue_events-counted (events_of c body) rows,
    queue_events-repeated (events_of c body) rows more,
  )
