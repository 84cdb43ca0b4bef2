-- ===== src/Inbox/Processor.antt =====
-- webhook-processor.js: an inbound event becomes a message of a conversation, or a delivery status.
-- Times are milliseconds. A text that is absent is empty.
mod Examples
mod Rows
pub mod Stored
pub mod Once
pub mod Conversations
unfoldable pub use Rows.*
use Prim.Native.String
use crmtsi_app.Common.{
  ℕ, String, Bool, true, false, ◌&&◌, Option, none, some, List, [], ◌∷◌, map, Result, ok, err,
  ◌>>=◌, str_eq, has, ltb, if◌then◌else◌, find_first, any_of, codes,
}
use crmtsi_app.Realtime.Store
use crmtsi_app.Realtime.Store.{append_event}

abbrev pub is_message : String → String → Message → Bool
is_message channel_id provider_id m =
    str_eq m.channel_id channel_id && str_eq m.provider_message_id provider_id

abbrev is_open : Status → Bool
is_open open_status = true
is_open other_status = false

abbrev pub is_for : Context → String → Conversation → Bool
is_for x phone c =
    str_eq c.tenant_id x.tenant_id
    && str_eq c.channel x.channel_id
    && str_eq c.contact_phone phone
    && is_open c.status

abbrev pub later_of : Conversation → Option Conversation → Conversation
later_of c none = c
later_of c (some d) = if ltb c.updated_at d.updated_at then d else c

-- The one that was updated last of those that are for the contact.
unfoldable pub last_open : Context → String → List Conversation → Option Conversation
last_open x phone [] = none
last_open x phone (c ∷ cs) =
    let rest = last_open x phone cs in if is_for x phone c then some (later_of c rest) else rest

abbrev pub new_conversation : Context → Draw → Inbound → Conversation
new_conversation x d m = record {
  id = d.conversation_id;
  tenant_id = x.tenant_id;
  contact_name = contact_name m;
  contact_phone = m.phone;
  status = open_status;
  channel = x.channel_id;
  last_message_at = epoch_to_date d.now m.timestamp;
  last_inbound_at = epoch_to_date d.now m.timestamp;
  updated_at = d.now;
}

abbrev pub has_id : String → Conversation → Bool
has_id id c = str_eq c.id id

-- The conversation of the contact: the open one, or a new one, whose identity the primary key checks.
unfoldable pub conversation_for :
    Context
    → Draw
    → Inbound
    → Option Conversation
    → List Conversation
    → Result (String × List Conversation)
conversation_for x d m (some c) cs = ok (c.id, cs)
conversation_for x d m none cs =
    if any_of (has_id d.conversation_id) cs
    then err "23505"
    else ok (d.conversation_id, new_conversation x d m ∷ cs)

abbrev pub new_message : Context → Draw → Inbound → String → Message
new_message x d m conversation_id = record {
  id = d.message_id;
  tenant_id = x.tenant_id;
  conversation_id = conversation_id;
  body = incoming_body m.content;
  channel_id = x.channel_id;
  provider_message_id = m.provider_event_id;
  created_at = epoch_to_date d.now m.timestamp;
  delivery_status = none;
}

abbrev pub touched : String → ℕ → ℕ → Conversation → Conversation
touched id timestamp now c =
    if has_id id c
    then record c { last_message_at = timestamp; last_inbound_at = timestamp; updated_at = now }
    else c

abbrev pub realtime_event : Context → Draw → Inbound → String → Store.Event
realtime_event x d m conversation_id = record {
  id = d.event_id;
  tenant_id = x.tenant_id;
  event_type = "inbox.message.created";
  aggregate_kind = "conversation";
  aggregate_id = conversation_id;
  aggregate_version = epoch_to_date d.now m.timestamp;
  payload = codes d.message_id;
  audience = some (record { team_ids = []; capabilities = "conversation:read" ∷ [] });
  occurred_at = none;
  expires_at = none;
}

-- The rows that are left once the event is appended to its store.
unfoldable pub stored :
    Context
    → Draw
    → Inbound
    → String
    → List Conversation
    → Inbox
    → Store.Store × Result Store.Row
    → Result Inbox
stored x d m conversation_id cs inbox (events, err e) = err e
stored x d m conversation_id cs inbox (events, ok row) = ok (record inbox {
  conversations = map (touched conversation_id (epoch_to_date d.now m.timestamp) d.now) cs;
  messages = new_message x d m conversation_id ∷ inbox.messages;
  events = events;
})

-- The statements after the conversation is found.
unfoldable pub store_message :
    Context → Draw → Inbound → String → List Conversation → Inbox → Result Inbox
unfolding stored
store_message x d m conversation_id cs inbox =
    if any_of (λ n. str_eq n.id d.message_id) inbox.messages
    then err "23505"
    else stored x d m conversation_id cs inbox
        (append_event d.now 0 (realtime_event x d m conversation_id) inbox.events)

unfoldable pub add_message : Context → Draw → Inbound → Inbox → Result Inbox
unfolding conversation_for store_message
add_message x d m inbox =
    conversation_for x d m (last_open x m.phone inbox.conversations) inbox.conversations
    >>= λ found. store_message x d m found.0 found.1 inbox

-- What is thrown is rolled back. The lock on the event's identity is held until the end.
abbrev pub kept_or : Inbox → Result Inbox → Inbox × Result (Unit {0})
kept_or inbox (err e) = (inbox, err e)
kept_or inbox (ok after) = (after, ok tt)

unfoldable pub process_inbound : Context → Draw → Inbound → Inbox → Inbox × Result (Unit {0})
unfolding add_message
process_inbound x d m inbox =
    if str_eq x.tenant_id ""
    then (inbox, err "tenant context is required for inbound processing")
    else if any_of (is_message x.channel_id m.provider_event_id) inbox.messages
    then (inbox, ok tt)
    else kept_or inbox (add_message x d m inbox)

abbrev pub normalized : String → String
normalized s = if has ("sent" ∷ "delivered" ∷ "read" ∷ "failed" ∷ []) s then s else "failed"

abbrev pub of_tenant : Context → String → Message → Bool
of_tenant x provider_id m =
    str_eq m.tenant_id x.tenant_id && str_eq m.provider_message_id provider_id

abbrev pub delivered : Context → DeliveryStatus → Message → Message
delivered x s m =
    if of_tenant x s.id m then record m { delivery_status = some (normalized s.status) } else m

abbrev id_of : Option Message → Option String
id_of none = none
id_of (some m) = some m.id

abbrev same_delivery : Context → DeliveryStatus → Delivery → Bool
same_delivery x s d =
    str_eq d.channel_id x.channel_id
    && str_eq d.provider_message_id s.id
    && str_eq d.status (normalized s.status)

unfoldable pub process_delivery : Context → ℕ → DeliveryStatus → Inbox → Inbox × Result (Unit {0})
process_delivery x now s inbox =
    let delivery : Delivery = record {
      tenant_id = x.tenant_id;
      channel_id = x.channel_id;
      message_id = id_of (find_first (of_tenant x s.id) inbox.messages);
      provider_message_id = s.id;
      status = normalized s.status;
      occurred_at = epoch_to_date now s.timestamp;
    } in
    if str_eq x.tenant_id ""
    then (inbox, err "tenant context is required for delivery processing")
    else (
      record inbox {
        messages = map (delivered x s) inbox.messages;
        deliveries =
            if any_of (same_delivery x s) inbox.deliveries
            then inbox.deliveries
            else delivery ∷ inbox.deliveries;
      },
      ok tt,
    )

unfoldable pub process_webhook_event : Context → Draw → Event → Inbox → Inbox × Result (Unit {0})
unfolding process_inbound process_delivery
process_webhook_event x d (message_event m) inbox = process_inbound x d m inbox
process_webhook_event x d (delivery_event s) inbox = process_delivery x d.now s inbox
process_webhook_event x d other_event inbox = (inbox, ok tt)

-- `updateStatus` of tenant-inbox-store.js, by which the pages close a conversation or open it again.
abbrev pub in_tenant : String → String → Conversation → Bool
in_tenant tenant_id id c = str_eq c.tenant_id tenant_id && str_eq c.id id

abbrev pub with_status : String → String → Status → ℕ → Conversation → Conversation
with_status tenant_id id status now c =
    if in_tenant tenant_id id c then record c { status = status; updated_at = now } else c

abbrev pub updated_event : String → String → String → ℕ → Store.Event
updated_event tenant_id event_id id now = record {
  id = event_id;
  tenant_id = tenant_id;
  event_type = "inbox.conversation.updated";
  aggregate_kind = "conversation";
  aggregate_id = id;
  aggregate_version = now;
  payload = codes id;
  audience = some (record { team_ids = []; capabilities = "conversation:read" ∷ [] });
  occurred_at = none;
  expires_at = none;
}

unfoldable pub status_stored :
    List Conversation → Inbox → Store.Store × Result Store.Row → Inbox × Result Bool
status_stored cs inbox (events, err e) = (inbox, err e)
status_stored cs inbox (events, ok row) =
    (record inbox { conversations = cs; events = events }, ok true)

unfoldable pub update_status :
    String → String → Status → (event_id : String) → (now : ℕ) → Inbox → Inbox × Result Bool
unfolding status_stored
update_status tenant_id id status event_id now inbox =
    if any_of (in_tenant tenant_id id) inbox.conversations
    then status_stored (map (with_status tenant_id id status now) inbox.conversations) inbox
        (append_event now 0 (updated_event tenant_id event_id id now) inbox.events)
    else (inbox, ok false)

pub data Call : Type 0 where
  processes : Context → Draw → Event → Call
  sets_status : String → String → Status → (event_id : String) → (now : ℕ) → Call

unfoldable pub step : Call → Inbox → Inbox
unfolding process_webhook_event update_status
step (processes x d e) inbox = (process_webhook_event x d e inbox).0
step (sets_status tenant_id id status event_id now) inbox =
    (update_status tenant_id id status event_id now inbox).0

unfoldable pub run : List Call → Inbox → Inbox
unfolding step
run [] inbox = inbox
run (c ∷ calls) inbox = run calls (step c inbox)
