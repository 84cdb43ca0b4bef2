-- ===== src/Webhook.antt =====
-- webhook-worker.js: the queue of inbound events, whose expired leases are claimed again. Times are
-- milliseconds.
mod Examples
pub mod Reclaim
use crmtsi_app.Common.{
  ℕ, ◌+◌, String, Bool, true, false, not, ◌&&◌, ◌||◌, Option, none, some, List, [], ◌∷◌, map, ltb,
  leb, ◌==◌, str_eq, if◌then◌else◌, Text, codes, take,
}
use crmtsi_app.Outbox.{Thrown, next_retry_at}

pub data Status : Type 0 where
  pending processing processed failed dead_letter : Status

pub record Event : Type 0 where
  pub id : String
  pub channel_id : String
  pub tenant_id : String
  pub payload : String
  pub status : Status
  pub attempts : ℕ
  pub max_attempts : ℕ
  pub available_at : ℕ
  pub received_at : ℕ
  pub locked_at : Option ℕ
  pub locked_by : Option String
  pub lease_token : Option String
  pub processing_error : Option Text

abbrev is_ready : Status → Bool
is_ready pending = true
is_ready failed = true
is_ready _ = false

abbrev is_processing : Status → Bool
is_processing processing = true
is_processing _ = false

abbrev older_than : ℕ → ℕ → Option ℕ → Bool
older_than age now none = false
older_than age now (some t) = ltb (t + age) now

pub is_due : ℕ → Event → Bool
is_due now e =
    (is_ready e.status && leb e.available_at now && ltb e.attempts e.max_attempts)
    || (is_processing e.status
        && older_than 120000 now e.locked_at
        && ltb e.attempts e.max_attempts)

-- `order by available_at, received_at`
pub before : Event → Event → Bool
before a b =
    ltb a.available_at b.available_at
    || (a.available_at == b.available_at && ltb a.received_at b.received_at)

abbrev earlier : Event → Option Event → Option Event
earlier e none = some e
earlier e (some k) = if before k e then some k else some e

-- `locked` holds of the rows that other transactions have locked, which are skipped.
pub next_event : ℕ → (String → Bool) → List Event → Option Event
unfolding is_due before
next_event now locked [] = none
next_event now locked (e ∷ es) =
    let rest = next_event now locked es in
    if is_due now e && not (locked e.id) then earlier e rest else rest

abbrev pub leased : ℕ → String → String → Event → Event
leased now worker token e = record e {
  status = processing;
  locked_at = some now;
  locked_by = some worker;
  lease_token = some token;
}

pub lease_row : ℕ → String → String → String → Event → Event
lease_row now worker token id e = if str_eq e.id id then leased now worker token e else e

abbrev pub finish_claim :
    ℕ → String → String → List Event → Option Event → List Event × Option Event
finish_claim now worker token rows none = (rows, none)
finish_claim now worker token rows (some e) =
    (map (lease_row now worker token e.id) rows, some (leased now worker token e))

-- `token` is the random UUID of the lease.
pub claim_next_webhook :
    ℕ → String → String → (String → Bool) → List Event → List Event × Option Event
claim_next_webhook now worker token locked rows =
    finish_claim now worker token rows (next_event now locked rows)

abbrev sql_eq : Option String → Option String → Bool
sql_eq (some s) (some t) = str_eq s t
sql_eq _ _ = false

abbrev pub has_lease : Event → Event → Bool
has_lease event row =
    str_eq row.id event.id
    && is_processing row.status
    && sql_eq row.locked_by event.locked_by
    && sql_eq row.lease_token event.lease_token

abbrev unlock : Event → Event
unlock row = record row { locked_at = none; locked_by = none; lease_token = none }

pub processed_row : Event → Event → Event
processed_row event row =
    if has_lease event row
    then record (unlock row) { status = processed; processing_error = none }
    else row

pub row_count : Event → List Event → ℕ
row_count event [] = 0
row_count event (r ∷ rows) =
    if has_lease event r then row_count event rows + 1 else row_count event rows

pub mark_webhook_processed : Event → List Event → List Event × Bool
unfolding processed_row row_count
mark_webhook_processed event rows = (map (processed_row event) rows, row_count event rows == 1)

abbrev or_shown : Text → Text → Text
or_shown [] shown = shown
or_shown message shown = message

abbrev reason_of : Option Thrown → Text
reason_of none = codes "webhook processing failure"
reason_of (some e) = or_shown e.message e.shown

pub failed_row : Event → Bool → ℕ → Text → Event → Event
failed_row event dead retry_at reason row =
    if has_lease event row
    then record (unlock row) {
      status = if dead then dead_letter else failed;
      attempts = event.attempts + 1;
      available_at = retry_at;
      processing_error = some reason;
    }
    else row

-- The retry is that of nextRetryAt, which both workers have alike. The answer is
-- whether the report was accepted, and whether the event is dead.
pub mark_webhook_failed : Event → Option Thrown → ℕ → List Event → List Event × Bool × Bool
unfolding failed_row row_count
mark_webhook_failed event error now rows =
    let dead = leb event.max_attempts (event.attempts + 1) in
    (
      map
          (failed_row event dead (next_retry_at (event.attempts + 1) now)
            (take 1000 (reason_of error)))
          rows,
      row_count event rows == 1,
      dead,
    )

pub data Outcome : Type 0 where
  done lease_lost dead retrying : Outcome

pub record Round : Type 0 where
  pub id : String
  pub outcome : Outcome

-- What `processEvent` does: it returns, or it throws.
abbrev pub Processing : Type 0
Processing = Event → Option (Option Thrown)

abbrev failure_outcome : Bool → Bool → Outcome
failure_outcome accepted is_dead =
    if accepted then (if is_dead then dead else retrying) else lease_lost

report : ℕ → Event → Option (Option Thrown) → List Event → List Event × Option Round
unfolding mark_webhook_processed mark_webhook_failed
report now event none rows =
    let (rows', accepted) = mark_webhook_processed event rows in
    (rows', some (record { id = event.id; outcome = if accepted then done else lease_lost }))
report now event (some error) rows =
    let (rows', accepted, is_dead) = mark_webhook_failed event error now rows in
    (rows', some (record { id = event.id; outcome = failure_outcome accepted is_dead }))

abbrev work : Processing → ℕ → List Event → Option Event → List Event × Option Round
work process now rows none = (rows, none)
work process now rows (some event) = report now event (process event) rows

-- `now` is the time of the claim and `later` that of the report.
pub process_one_webhook :
    Processing
    → String
    → (String → Bool)
    → (now later : ℕ) → String
    → List Event
    → List Event × Option Round
unfolding report
process_one_webhook process worker locked now later token rows =
    let (rows', event) = claim_next_webhook now worker token locked rows in
    work process later rows' event
