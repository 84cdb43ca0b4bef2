-- ===== src/Outbox/Rows.antt =====
-- outbox.js: the rows of the queue and of the messages, the delay of a retry, and what a thrown error
-- means. Times are milliseconds.
use crmtsi_app.Common.{
  ℕ, ◌+◌, ◌*◌, ◌^◌, String, Bool, true, false, not, ◌&&◌, Option, none, some, List, [], ◌∷◌, ◌++◌,
  ltb, leb, ◌==◌, if◌then◌else◌, codes, decimal, take, Text,
}

-- The statuses that the check constraint of `outbox_jobs` admits.
pub data Status : Type 0 where
  pending processing sent failed dead_letter delivery_unknown : Status

pub record Job : Type 0 where
  pub id : String
  pub tenant_id : String
  pub channel_id : Option String
  pub kind : String
  pub payload : String
  pub idempotency_key : String
  pub status : Status
  pub attempts : ℕ
  pub max_attempts : ℕ
  pub available_at : ℕ
  pub created_at : ℕ
  pub locked_at : Option ℕ
  pub locked_by : Option String
  pub lease_token : Option String
  pub provider_message_id : Option String
  pub last_error : Option Text

-- The rows of `conversation_messages`, as far as the queue reads and writes them.
pub record Message : Type 0 where
  pub id : String
  pub tenant_id : String
  pub provider_message_id : Option String
  pub delivery_status : String

pub record Db : Type 0 where
  pub jobs : List Job
  pub messages : List Message

-- A value that was thrown: 0 and the empty text stand for what is absent or falsy; `shown` is
-- `String(error)`.
pub record Thrown : Type 0 where
  pub status : ℕ
  pub status_code : ℕ
  pub message : Text
  pub shown : Text

-- Milliseconds from now to the next attempt.
unfoldable pub retry_delay : ℕ → ℕ → ℕ → ℕ
retry_delay attempts base_ms max_ms =
    let delay = base_ms * 2 ^ attempts in if ltb delay max_ms then delay else max_ms

unfoldable pub next_retry_at : ℕ → ℕ → ℕ
unfolding retry_delay
next_retry_at attempts now = now + retry_delay attempts 1000 300000

abbrev pub http_status : Option Thrown → ℕ
http_status none = 0
http_status (some e) = if e.status == 0 then e.status_code else e.status

abbrev is_empty : Text → Bool
is_empty [] = true
is_empty (_ ∷ _) = false

failure_reason : Option Thrown → Text
failure_reason none = codes "unknown delivery failure"
failure_reason (some e) =
    if not (http_status (some e) == 0)
    then codes "provider HTTP " ++ decimal (http_status (some e))
    else if is_empty e.message
    then e.shown
    else e.message

pub record Failure : Type 0 where
  pub terminal : Bool
  pub reason : Text

unfoldable pub classify_failure : Option Thrown → Failure
unfolding failure_reason
classify_failure error =
    let status = http_status error in
    record {
      terminal =
          leb 400 status
          && ltb status 500
          && not (status == 408)
          && not (status == 409)
          && not (status == 425)
          && not (status == 429);
      reason = take 1000 (failure_reason error);
    }
