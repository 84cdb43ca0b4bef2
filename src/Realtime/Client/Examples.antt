-- ===== src/Realtime/Client/Examples.antt =====
-- Messages that are late, repeated and out of order.
use crmtsi_app.Realtime.Hub.{Audience}
use crmtsi_app.Common.{
  Bool-cases, inl, inr, ◌⊎◌, ◌<◌, Option, false, keep, arith, ltb, length, ℕ, ◌≡◌, refl, String,
  some, none, List, [], ◌∷◌, map,
}
use crmtsi_app.Realtime.Client.{Message, other, start, receive, receive_all}
use crmtsi_app.Realtime.Store.{Row, Store, empty_store, run, replay_events}
use crmtsi_app.Realtime.Store.Examples.{calls}
use crmtsi_app.Realtime.Client.Paging.{
  Page, query, missed_by, IsReplay, replay_beyond_limit, replay_beyond_limit_ends,
}
use crmtsi_app.Realtime.Client.Rising.{Rising, receive_all-Rising}

abbrev message : String → ℕ → Message
message id version = record {
  event = some (record {
    event_id = id;
    aggregate = some (record { kind = "conversation"; id = "7"; version = some version });
  });
  last_event_id = id;
  kind = other;
}

abbrev messages : List Message
messages =
    message "a" 1
    ∷ message "b" 3
    ∷ message "a" 4
    ∷ message "c" 2
    ∷ message "d" 5
    ∷ record (message "e" 6) { event = none }
    ∷ []

drops-late : map (λ h. h.version) (receive_all messages start).handled ≡ 5 ∷ 3 ∷ 1 ∷ []
unfolding receive_all receive
drops-late = refl

receive_all-Rising_example : Rising (receive_all messages start).handled
receive_all-Rising_example = receive_all-Rising messages

abbrev message_of : Row → Message
message_of r = record {
  event = some (record {
    event_id = r.id;
    aggregate = some (record {
      kind = r.aggregate_kind;
      id = r.aggregate_id;
      version = some r.aggregate_version;
    });
  });
  last_event_id = r.id;
  kind = other;
}

abbrev store : Store
store = run calls empty_store

-- The second of the three events that are missed is hidden from the subscriber. The pages have two events
-- each, or one where the other is hidden.
abbrev subscriber : Option Audience
subscriber = some (record { team_ids = "support" ∷ []; capabilities = [] })

abbrev pages : ℕ → ℕ → Page
pages cursor size = record {
  events = (replay_events 10 (query "t" subscriber false cursor size) store).events;
  has_more = ltb cursor 1;
}

pages-IsReplay : IsReplay 10 2 "t" subscriber false pages store
unfolding run keep replay_events
pages-IsReplay = record {
  replays = λ k. refl;
  ends = λ k. elim (Bool-cases (ltb k 1)) [
    | inl more ↦ inl more
    | inr done ↦ inr (ground (arith, done))
  ];
}

pages_shown : (k : ℕ) → (missed_by 10 "t" subscriber store k ≡ []) ⊎ (0 < length (pages k 2).events)
unfolding run keep replay_events
pages_shown k = elim (Bool-cases (ltb k 5)) [
  | inl before ↦ inr (ground (arith, before))
  | inr after ↦ inl (ground (arith, after))
]

replay_beyond_limit_ends_example :
    replay_beyond_limit message_of pages 2 3 0 start
    ≡ some (5, receive_all (map message_of (missed_by 10 "t" subscriber store 0)) start)
unfolding run keep
replay_beyond_limit_ends_example =
    replay_beyond_limit_ends message_of 10 2 3 0 "t" subscriber false pages calls start
      pages-IsReplay refl pages_shown (omega arith)

-- In pages of one event the page that is hidden ends the loop, and the last event is not received.
hidden_page_ends : replay_beyond_limit message_of pages 1 3 1 start ≡ some (1, start)
unfolding run keep replay_events replay_beyond_limit
hidden_page_ends = refl
