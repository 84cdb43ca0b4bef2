-- ===== src/Inbox/Processor/Rows.antt =====
-- webhook-processor.js: the rows of the inbox, the events, and what is read of an event. Times are
-- milliseconds. A text that is absent is empty.
use Prim.Native.String
use crmtsi_app.Common.{
  ℕ, ◌*◌, String, not, ◌||◌, Option, none, some, List, [], ◌∷◌, str_eq, if◌then◌else◌,
}
use crmtsi_app.Realtime.Store
use crmtsi_app.Realtime.Store.{append_event}

-- The statuses of a conversation that are told apart.
pub data Status : Type 0 where
  open_status other_status : Status

pub record Conversation : Type 0 where
  pub id : String
  pub tenant_id : String
  pub contact_name : String
  pub contact_phone : String
  pub status : Status
  pub channel : String
  pub last_message_at : ℕ
  pub last_inbound_at : ℕ
  pub updated_at : ℕ

pub record Message : Type 0 where
  pub id : String
  pub tenant_id : String
  pub conversation_id : String
  pub body : String
  pub channel_id : String
  pub provider_message_id : String
  pub created_at : ℕ
  pub delivery_status : Option String

pub record Delivery : Type 0 where
  pub tenant_id : String
  pub channel_id : String
  pub message_id : Option String
  pub provider_message_id : String
  pub status : String
  pub occurred_at : ℕ

pub record Inbox : Type 0 where
  pub conversations : List Conversation
  pub messages : List Message
  pub deliveries : List Delivery
  pub events : Store.Store

abbrev pub empty_inbox : Inbox
empty_inbox = record {
  conversations = [];
  messages = [];
  deliveries = [];
  events = Store.empty_store;
}

-- The parts of a message that its body is taken from.
pub record Content : Type 0 where
  pub kind : String
  pub text_body : String
  pub button_text : String
  pub button_reply_title : String
  pub list_reply_title : String

abbrev or_text : String → String → String
or_text s t = if str_eq s "" then t else s

unfoldable pub incoming_body : Content → String
incoming_body c =
    if str_eq c.kind "text" || not (str_eq c.text_body "")
    then c.text_body
    else if str_eq c.kind "button"
    then c.button_text
    else if str_eq c.kind "interactive"
    then or_text c.button_reply_title c.list_reply_title
    else String.◌++◌ "[" (String.◌++◌ (or_text c.kind "mensagem") " recebida]")

-- A timestamp that is no number is `none`.
pub record Inbound : Type 0 where
  pub provider_event_id : String
  pub phone : String
  pub contacts : List (String × String)
  pub content : Content
  pub timestamp : Option ℕ

pub record DeliveryStatus : Type 0 where
  pub id : String
  pub status : String
  pub timestamp : Option ℕ

pub data Event : Type 0 where
  message_event : Inbound → Event
  delivery_event : DeliveryStatus → Event
  other_event : Event

pub record Context : Type 0 where
  pub channel_id : String
  pub tenant_id : String

-- The identities that are drawn, and the time.
pub record Draw : Type 0 where
  pub conversation_id : String
  pub message_id : String
  pub event_id : String
  pub now : ℕ

abbrev pub epoch_to_date : ℕ → Option ℕ → ℕ
epoch_to_date now none = now
epoch_to_date now (some seconds) = seconds * 1000

profile_name : String → List (String × String) → String
profile_name phone [] = ""
profile_name phone ((wa_id, name) ∷ contacts) =
    let rest = profile_name phone contacts in if str_eq wa_id phone then name else rest

pub contact_name : Inbound → String
unfolding profile_name
contact_name m = or_text (profile_name m.phone m.contacts) (or_text m.phone "Contato")
