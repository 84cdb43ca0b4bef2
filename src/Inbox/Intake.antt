-- ===== src/Inbox/Intake.antt =====
-- channel-webhook-service.js and webhook-ingest.js: the requests of the channels, whose events are
-- queued once for each identity of a channel. A text that is absent is empty.
mod Examples
pub mod Repeated
use Prim.Native.String
use crmtsi_app.Common.{
  ℕ, ◌+◌, String, Bool, true, false, not, ◌&&◌, ◌||◌, Option, none, some, List, [], ◌∷◌, ◌++◌,
  Result, ok, err, str_eq, if◌then◌else◌, any_of, ◌==◌, leb, length,
}
use crmtsi_app.Inbox.Processor.{
  Inbound, DeliveryStatus, Event, message_event, delivery_event, other_event, Content,
}

-- A queued row of `webhook_events`.
pub record Queued : Type 0 where
  pub id : String
  pub channel_id : String
  pub tenant_id : Option String
  pub provider_event_id : String
  pub event : Event

abbrev pub is_same : String → String → Queued → Bool
is_same channel_id provider_id q =
    str_eq q.channel_id channel_id && str_eq q.provider_event_id provider_id

-- The insert that does nothing on a conflict, and whether it inserted.
unfoldable pub insert_event : Queued → List Queued → List Queued × Bool
insert_event q rows =
    if any_of (is_same q.channel_id q.provider_event_id) rows
    then (rows, false)
    else (rows ++ q ∷ [], true)

-- The message of a WAHA request; `phone` is the sender without its suffix.
pub record WahaPayload : Type 0 where
  pub event : String
  pub session : String
  pub from_me : Bool
  pub id : String
  pub phone : String
  pub body : String
  pub push_name : String
  pub timestamp : Option ℕ

abbrev waha_content : String → Content
waha_content body = record {
  kind = "";
  text_body = body;
  button_text = "";
  button_reply_title = "";
  list_reply_title = "";
}

-- An event with the identity that the provider gives it.
pub record Normalized : Type 0 where
  pub provider_event_id : String
  pub event : Event

abbrev name_or : String → String → String
name_or name phone = if str_eq name "" then phone else name

unfoldable pub waha_events : String → WahaPayload → List Normalized
waha_events session_name p =
    if not (str_eq p.event "message")
      || p.from_me
      || (not (str_eq session_name "") && not (str_eq p.session session_name))
    then []
    else if str_eq p.id "" || str_eq p.phone ""
    then []
    else record {
      provider_event_id = p.id;
      event = message_event (record {
        provider_event_id = p.id;
        phone = p.phone;
        contacts = (p.phone, name_or p.push_name p.phone) ∷ [];
        content = waha_content p.body;
        timestamp = p.timestamp;
      });
    }
      ∷ []

-- A change of a Meta request; the identity of a status is `id:status:timestamp`, with the text of the
-- timestamp.
pub record MetaStatus : Type 0 where
  pub status : DeliveryStatus
  pub timestamp_text : String

pub record Change : Type 0 where
  pub messages : List Inbound
  pub statuses : List MetaStatus

abbrev pub status_id : MetaStatus → String
status_id s =
    String.◌++◌ s.status.id
      (String.◌++◌ ":" (String.◌++◌ s.status.status (String.◌++◌ ":" s.timestamp_text)))

message_events : List Inbound → List Normalized
message_events [] = []
message_events (m ∷ ms) =
    record { provider_event_id = m.provider_event_id; event = message_event m } ∷ message_events ms

status_events : List MetaStatus → List Normalized
status_events [] = []
status_events (s ∷ ss) =
    record { provider_event_id = status_id s; event = delivery_event s.status } ∷ status_events ss

unfoldable pub meta_events : List Change → List Normalized
unfolding message_events status_events
meta_events [] = []
meta_events (c ∷ changes) =
    message_events c.messages ++ (status_events c.statuses ++ meta_events changes)

pub data Provider : Type 0 where
  meta waha other_provider : Provider

pub record Channel : Type 0 where
  pub provider : Provider
  pub tenant_id : Option String
  pub session_name : String
  pub verify_token : Option String
  pub webhook_secret : String

-- The body of a request, as `metaEvents` reads it, and as `wahaEvents` does.
pub record Body : Type 0 where
  pub changes : List Change
  pub payload : WahaPayload

-- What is answered.
pub data Answer : Type 0 where
  unsupported invalid_signature ignored : Answer
  counted : (status received duplicates : ℕ) → Answer

abbrev pub status_of : Answer → ℕ
status_of unsupported = 400
status_of invalid_signature = 401
status_of ignored = 200
status_of (counted status _ _) = status

pub record Counts : Type 0 where
  pub accepted : ℕ
  pub duplicates : ℕ

-- The loop over the events; `ids` are drawn, one for each.
unfoldable pub queue_all :
    String
    → Option String
    → (ℕ → String)
    → ℕ
    → List Normalized
    → Counts
    → List Queued
    → List Queued × Counts
unfolding insert_event
queue_all channel_id tenant_id ids i [] n rows = (rows, n)
queue_all channel_id tenant_id ids i (e ∷ events) n rows =
    let (after, inserted) =
      insert_event
        (record {
          id = ids i;
          channel_id = channel_id;
          tenant_id = tenant_id;
          provider_event_id = e.provider_event_id;
          event = e.event;
        })
        rows in
    queue_all channel_id tenant_id ids (i + 1) events
      (if inserted
        then record n { accepted = n.accepted + 1 }
        else record n { duplicates = n.duplicates + 1 })
      after

unfoldable pub answer_counts : List Normalized → List Queued × Counts → List Queued × Answer
answer_counts events (rows, n) =
    (rows, counted (if n.accepted == 0 then 200 else 202) (length events) n.duplicates)

abbrev pub is_meta : Provider → Bool
is_meta meta = true
is_meta _ = false

unfoldable pub events_of : Channel → Body → List Normalized
unfolding meta_events waha_events
events_of c b =
    if is_meta c.provider then meta_events b.changes else waha_events c.session_name b.payload

abbrev pub is_supported : Provider → Bool
is_supported other_provider = false
is_supported _ = true

abbrev pub no_counts : Counts
no_counts = record { accepted = 0; duplicates = 0 }

abbrev pub queue_events :
    String → Channel → (ℕ → String) → List Normalized → List Queued → List Queued × Answer
queue_events channel_id c ids [] rows = (rows, ignored)
queue_events channel_id c ids (e ∷ events) rows =
    answer_counts (e ∷ events) (queue_all channel_id c.tenant_id ids 0 (e ∷ events) no_counts rows)

-- `receive`, for a channel that is found; `authentic` is the answer of the check of its signature.
unfoldable pub receive :
    String → Channel → (authentic : Bool) → (ℕ → String) → Body → List Queued → List Queued × Answer
unfolding queue_all answer_counts events_of
receive channel_id c authentic ids body rows =
    if not (is_supported c.provider)
    then (rows, unsupported)
    else if not authentic
    then (rows, invalid_signature)
    else queue_events channel_id c ids (events_of c body) rows

-- `verify`: the status, and the challenge that is sent back.
abbrev pub same_token : Option String → Option String → Bool
same_token none none = true
same_token (some s) (some t) = str_eq s t
same_token _ _ = false

unfoldable pub verify : Channel → (mode : String) → Option String → String → ℕ × String
verify c mode token challenge =
    if is_meta c.provider && str_eq mode "subscribe" && same_token token c.verify_token
    then (200, challenge)
    else (403, "forbidden")

-- webhook-ingest.js: the handler of one event, and its status. `signature` is the answer of `verify`,
-- `normal` that of `normalize`, and an identity that is not given is the digest of the request.
unfoldable pub handle :
    (channel_id : String) (signature : Bool) (normal : Result Event) (given digest id : String)
    → List Queued
    → List Queued × ℕ
unfolding insert_event
handle channel_id false normal given digest id rows = (rows, 401)
handle channel_id true (err e) given digest id rows = (rows, 400)
handle channel_id true (ok event) given digest id rows =
    let (after, inserted) =
      insert_event
        (record {
          id = id;
          channel_id = channel_id;
          tenant_id = none;
          provider_event_id = if str_eq given "" then digest else given;
          event = event;
        })
        rows in
    (after, if inserted then 202 else 200)
