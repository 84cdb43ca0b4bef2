-- ===== src/Inbox/Processor/Stored.antt =====
-- What each operation on the inbox leaves of its messages and conversations.
use crmtsi_app.Common.{
  ℕ, ◌≡◌, refl, ◌⊎◌, inl, inr, String, true, false, List, [], ◌∷◌, map, Result, ok, err, str_eq,
  str_eq_refl, any_of, arith, Bool-cases, Result-cases,
}
use crmtsi_app.Realtime.Store
use crmtsi_app.Realtime.Store.{append_event}
use crmtsi_app.Inbox.Processor.{
  Conversation, Message, Inbox, Inbound, DeliveryStatus, Context, Draw, epoch_to_date, is_message,
  last_open, touched, conversation_for, new_message, realtime_event, stored, store_message,
  add_message, process_inbound, delivered, process_delivery, Status, with_status, in_tenant,
  updated_event, status_stored, update_status,
}

-- What storing a message found and left.
pub record Stored (x : Context) (d : Draw) (m : Inbound) (inbox after : Inbox) : Type 0 where
  pub conversation_id : String
  pub conversations : List Conversation
  pub events : Store.Store
  pub found :
      conversation_for x d m (last_open x m.phone inbox.conversations) inbox.conversations
      ≡ ok (conversation_id, conversations)
  pub unknown : any_of (is_message x.channel_id m.provider_event_id) inbox.messages ≡ false
  pub left : after ≡ record inbox {
    conversations =
        map (touched conversation_id (epoch_to_date d.now m.timestamp) d.now) conversations;
    messages = new_message x d m conversation_id ∷ inbox.messages;
    events = events;
  }

module _ (x : Context) (d : Draw) (m : Inbound) (inbox : Inbox) where
  abbrev Left : String → List Conversation → Inbox → Type 0
  Left id cs after =
      (events : Store.Store) × (after ≡ record inbox {
        conversations = map (touched id (epoch_to_date d.now m.timestamp) d.now) cs;
        messages = new_message x d m id ∷ inbox.messages;
        events = events;
      })

  stored-ok :
      (id : String) (cs : List Conversation) (appended : Store.Store × Result Store.Row)
      (after : Inbox)
      → stored x d m id cs inbox appended ≡ ok after
      → Left id cs after
  unfolding stored
  stored-ok id cs (events, err e) after h = absurd (cc h)
  stored-ok id cs (events, ok row) after h = (events, cc h)

  store_message-ok :
      (id : String) (cs : List Conversation) (after : Inbox)
      → store_message x d m id cs inbox ≡ ok after
      → Left id cs after
  unfolding store_message
  store_message-ok id cs after h =
      elim (Bool-cases (any_of (λ n. str_eq n.id d.message_id) inbox.messages)) [
        | inl taken ↦ absurd (cc (rw taken at h))
        | inr free ↦
            stored-ok id cs (append_event d.now 0 (realtime_event x d m id) inbox.events) after
              (rw free at h)
      ]

  abbrev lookup : Result (String × List Conversation)
  lookup = conversation_for x d m (last_open x m.phone inbox.conversations) inbox.conversations

  -- A message that is added.
  add_message-ok :
      (after : Inbox)
      → add_message x d m inbox ≡ ok after
      → any_of (is_message x.channel_id m.provider_event_id) inbox.messages ≡ false
      → Stored x d m inbox after
  unfolding add_message
  add_message-ok after h unknown = elim (Result-cases lookup) [
    | inl (e, fails) ↦ absurd (cc (rw fails at h))
    | inr ((id, cs), found) ↦
        let (events, left) = store_message-ok id cs after (rw found at h) in
        record {
          conversation_id = id;
          conversations = cs;
          events = events;
          found = found;
          unknown = unknown;
          left = left;
        }
  ]

  -- An inbound event leaves everything as it was, or stores its message.
  pub process_inbound-Stored :
      let after = (process_inbound x d m inbox).0 in (after ≡ inbox) ⊎ Stored x d m inbox after
  unfolding process_inbound
  process_inbound-Stored = elim (Bool-cases (str_eq x.tenant_id "")) [
    | inl absent ↦ inl (rw absent refl)
    | inr given ↦
        elim (Bool-cases (any_of (is_message x.channel_id m.provider_event_id) inbox.messages)) [
          | inl known ↦ inl (rw (given, known) refl)
          | inr unknown ↦ elim (Result-cases (add_message x d m inbox)) [
            | inl (e, fails) ↦ inl (rw (given, unknown, fails) refl)
            | inr (after, added) ↦
                inr (rw (given, unknown, added) (add_message-ok after added unknown))
          ]
        ]
  ]

  -- What an event that was processed leaves.
  pub process_inbound-ok :
      (process_inbound x d m inbox).1 ≡ ok tt
      → (str_eq x.tenant_id "" ≡ false)
        × (any_of
              (is_message x.channel_id m.provider_event_id)
              (process_inbound x d m inbox).0.messages
            ≡ true)
  unfolding process_inbound
  process_inbound-ok h = elim (Bool-cases (str_eq x.tenant_id "")) [
    | inl absent ↦ absurd (cc (rw absent at h))
    | inr given ↦
        elim (Bool-cases (any_of (is_message x.channel_id m.provider_event_id) inbox.messages)) [
          | inl known ↦ (given, rw (given, known) known)
          | inr unknown ↦ elim (Result-cases (add_message x d m inbox)) [
            | inl (e, fails) ↦ absurd (cc (rw (given, unknown, fails) at h))
            | inr (after, added) ↦
                let left = (add_message-ok after added unknown).left in
                (
                  given,
                  rw (given, unknown, added, left)
                      (ground (arith, str_eq_refl x.channel_id, str_eq_refl m.provider_event_id)),
                )
          ]
        ]
  ]

-- A status of a delivery changes no message's channel or identity.
pub any_of-delivered :
    (channel provider : String) (x : Context) (s : DeliveryStatus) (messages : List Message)
    → any_of (is_message channel provider) (map (delivered x s) messages)
      ≡ any_of (is_message channel provider) messages
any_of-delivered channel provider x s [] = refl
any_of-delivered channel provider x s (m ∷ messages) =
    ground (arith, any_of-delivered channel provider x s messages)

pub process_delivery-messages :
    (x : Context) (now : ℕ) (s : DeliveryStatus) (inbox : Inbox)
    → let after = (process_delivery x now s inbox).0 in
      (after.messages ≡ inbox.messages) ⊎ (after.messages ≡ map (delivered x s) inbox.messages)
unfolding process_delivery
process_delivery-messages x now s inbox = elim (Bool-cases (str_eq x.tenant_id "")) [
  | inl absent ↦ inl (rw absent refl)
  | inr given ↦ inr (rw given refl)
]

pub process_delivery-conversations :
    (x : Context) (now : ℕ) (s : DeliveryStatus) (inbox : Inbox)
    → (process_delivery x now s inbox).0.conversations ≡ inbox.conversations
unfolding process_delivery
process_delivery-conversations x now s inbox = ground arith

-- A change of status leaves the messages, and of the conversations at most their status and time.
pub record StatusLeft (t id : String) (status : Status) (now : ℕ) (inbox after : Inbox)
    : Type 0 where
  pub messages : after.messages ≡ inbox.messages
  pub conversations :
      (after.conversations ≡ inbox.conversations)
      ⊎ (after.conversations ≡ map (with_status t id status now) inbox.conversations)

status_stored-left :
    (t id : String) (status : Status) (now : ℕ) (inbox : Inbox)
    (appended : Store.Store × Result Store.Row)
    → StatusLeft t id status now inbox
        (status_stored (map (with_status t id status now) inbox.conversations) inbox appended).0
unfolding status_stored
status_stored-left t id status now inbox (events, err e) = record {
  messages = refl;
  conversations = inl refl;
}
status_stored-left t id status now inbox (events, ok row) = record {
  messages = refl;
  conversations = inr refl;
}

pub update_status-left :
    (t id : String) (status : Status) (event_id : String) (now : ℕ) (inbox : Inbox)
    → StatusLeft t id status now inbox (update_status t id status event_id now inbox).0
unfolding update_status
update_status-left t id status event_id now inbox =
    elim (Bool-cases (any_of (in_tenant t id) inbox.conversations)) [
      | inl found ↦ rw found (
          status_stored-left t id status now inbox
            (append_event now 0 (updated_event t event_id id now) inbox.events))
      | inr absent ↦ rw absent (record { messages = refl; conversations = inl refl })
    ]
