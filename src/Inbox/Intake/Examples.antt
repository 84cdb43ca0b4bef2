-- ===== src/Inbox/Intake/Examples.antt =====
-- A request of two messages and a status, of which one message is queued already.
use crmtsi_app.Common.{
  ℕ, ◌+◌, ◌≡◌, ◌≤◌, refl, true, false, [], ◌∷◌, ◌++◌, none, some, String, if◌then◌else◌, length,
  ◌==◌,
}
use crmtsi_app.Inbox.Processor.{Inbound, Content}
use crmtsi_app.Inbox.Intake.{
  WahaPayload, Channel, Body, meta, waha, ignored, counted, events_of, receive, verify,
}
use crmtsi_app.Inbox.Intake.Repeated.{answer_to, receive_repeated}

abbrev content : Content
content = record {
  kind = "text";
  text_body = "oi";
  button_text = "";
  button_reply_title = "";
  list_reply_title = "";
}

abbrev inbound : String → Inbound
inbound id = record {
  provider_event_id = id;
  phone = "55";
  contacts = [];
  content = content;
  timestamp = none;
}

abbrev payload : WahaPayload
payload = record {
  event = "message";
  session = "s";
  from_me = false;
  id = "w1";
  phone = "55";
  body = "oi";
  push_name = "";
  timestamp = none;
}

abbrev body : Body
body = record {
  changes =
      record {
        messages = inbound "a" ∷ inbound "b" ∷ inbound "a" ∷ [];
        statuses =
            record {
              status = record { id = "a"; status = "read"; timestamp = none };
              timestamp_text = "";
            }
            ∷ [];
      }
      ∷ [];
  payload = payload;
}

abbrev channel : Channel
channel = record {
  provider = meta;
  tenant_id = some "t1";
  session_name = "";
  verify_token = none;
  webhook_secret = "k";
}

abbrev ids : ℕ → String
ids n = if n == 0 then "q0" else if n == 1 then "q1" else "q2"

received : (receive "c1" channel true ids body []).1 ≡ counted 202 4 1
unfolding receive
received = refl

-- A channel without a token is verified by a request without one.
no_token : verify channel "subscribe" none "x" ≡ (200, "x")
unfolding verify
no_token = refl

own_message :
    (receive "c1"
      (record channel { provider = waha })
      true
      ids
      (record body { payload = record payload { from_me = true } })
      []).1
    ≡ ignored
unfolding receive
own_message = refl

receive_repeated_example :
    let (after, answer) = receive "c1" channel true ids body [] in
    let n = length (events_of channel body) in
    ((d : ℕ) × (answer ≡ answer_to n d (if length after == 0 then 200 else 202))
      × (d + length after ≡ n + 0)
      × (d ≤ n))
    × (receive "c1" channel true ids body (after ++ []) ≡ (after ++ [], answer_to n n 200))
receive_repeated_example = receive_repeated "c1" channel ids ids body [] [] refl
