-- ===== src/Inbox/Processor/Examples.antt =====
-- Two messages of a contact, one of them sent twice, and a late delivery status.
use crmtsi_app.Common.{ℕ, ◌≡◌, refl, List, [], ◌∷◌, map, none, some, ok, String, All}
use crmtsi_app.Realtime.Store.{append_event}
use crmtsi_app.Inbox.Processor.{
  last_open, empty_inbox, Content, Inbound, message_event, delivery_event, Context, Draw,
  process_inbound, other_status, Call, processes, sets_status, run, incoming_body,
}
use crmtsi_app.Inbox.Processor.Once.{process_inbound_once, Unique}
use crmtsi_app.Inbox.Processor.Conversations.{HasHome, messages_at_home}

abbrev context : Context
context = record { channel_id = "c1"; tenant_id = "t1" }

abbrev draw : String → String → ℕ → Draw
draw conversation message now = record {
  conversation_id = conversation;
  message_id = message;
  event_id = message;
  now = now;
}

abbrev text : String → Content
text body = record {
  kind = "text";
  text_body = body;
  button_text = "";
  button_reply_title = "";
  list_reply_title = "";
}

abbrev inbound : String → String → ℕ → Inbound
inbound id body seconds = record {
  provider_event_id = id;
  phone = "55";
  contacts = ("55", "Ana") ∷ [];
  content = text body;
  timestamp = some seconds;
}

abbrev calls : List Call
calls =
    processes context (draw "k1" "m1" 10) (message_event (inbound "w1" "oi" 1))
    ∷ processes context (draw "k2" "m2" 20) (message_event (inbound "w1" "oi" 1))
    ∷ processes context (draw "k3" "m3" 30) (message_event (inbound "w2" "tudo bem?" 2))
    ∷ processes context (draw "" "" 40)
        (delivery_event (record { id = "w1"; status = "read"; timestamp = none }))
    ∷ processes context (draw "" "" 50)
        (delivery_event (record { id = "w1"; status = "sent"; timestamp = none }))
    ∷ sets_status "t1" "k1" other_status "e1" 55
    ∷ processes context (draw "k4" "m4" 60) (message_event (inbound "w3" "e agora?" 3))
    ∷ []

-- The second message joins the conversation, and one after it was closed begins another.
homes : map (λ m. m.conversation_id) (run calls empty_inbox).messages ≡ "k4" ∷ "k1" ∷ "k1" ∷ []
unfolding run last_open append_event
homes = refl

-- A status that comes late replaces the one that followed it.
late_status :
    map (λ m. m.delivery_status) (run calls empty_inbox).messages ≡ none ∷ none ∷ some "sent" ∷ []
unfolding run last_open append_event
late_status = refl

other_kind : incoming_body (record (text "") { kind = "audio" }) ≡ "[audio recebida]"
unfolding incoming_body
other_kind = refl

process_inbound_once_example :
    let later =
      run calls (process_inbound context (draw "k" "m" 5) (inbound "w9" "a" 1) empty_inbox).0 in
    process_inbound context (draw "k5" "m5" 70) (inbound "w9" "b" 4) later ≡ (later, ok tt)
unfolding process_inbound last_open append_event
process_inbound_once_example =
    process_inbound_once context (draw "k" "m" 5) (draw "k5" "m5" 70) (inbound "w9" "a" 1)
      (inbound "w9" "b" 4) empty_inbox calls refl refl

messages_at_home_example :
    All (HasHome (run calls empty_inbox).conversations) (run calls empty_inbox).messages
    × Unique (run calls empty_inbox).messages
messages_at_home_example = messages_at_home calls
