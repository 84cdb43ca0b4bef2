-- ===== src/Outbox.antt =====
-- outbox.js: the queue of outbound messages, a table of jobs that workers claim under a lease.
-- Times are milliseconds. A statement of SQL is a function on the rows of the tables it names.
pub mod Claim
pub mod Enqueue
mod Examples
pub mod Protocol
pub mod Retry
mod Rows
pub mod Worker
unfoldable pub use Rows.*
use crmtsi_app.Common.{
  ℕ, ◌>>◌, ◌+◌, String, Bool, true, false, not, ◌&&◌, ◌||◌, Option, none, some, List, [], ◌∷◌, ◌++◌,
  map, ltb, leb, ◌==◌, str_eq, if◌then◌else◌, has, any_of, every, find_first, Result, ok, err,
  require, codes, Text,
}

abbrev pub is_processing : Status → Bool
is_processing processing = true
is_processing _ = false

-- `status in ('pending','failed')`
abbrev pub is_ready : Status → Bool
is_ready pending = true
is_ready failed = true
is_ready _ = false

abbrev older_than : ℕ → ℕ → Option ℕ → Bool
older_than age now none = false
older_than age now (some t) = ltb (t + age) now

-- The `ambiguous` rows: a lease of more than two minutes.
abbrev pub is_expired : ℕ → Job → Bool
is_expired now j = is_processing j.status && older_than 120000 now j.locked_at

pub expire : ℕ → Job → Job
expire now j =
    if is_expired now j
    then record j {
      status = delivery_unknown;
      last_error = some (codes "delivery outcome unknown after lease expiry");
      locked_at = none;
      locked_by = none;
      lease_token = none;
    }
    else j

abbrev pub is_due : ℕ → Job → Bool
is_due now j = is_ready j.status && leb j.available_at now && ltb j.attempts j.max_attempts

-- `order by available_at, created_at`
abbrev pub before : Job → Job → Bool
before a b =
    ltb a.available_at b.available_at
    || (a.available_at == b.available_at && ltb a.created_at b.created_at)

abbrev earlier : Job → Option Job → Option Job
earlier j none = some j
earlier j (some k) = if before k j then some k else some j

-- `locked` holds of the rows that other transactions have locked, which are skipped.
pub next_job : ℕ → (String → Bool) → List Job → Option Job
next_job now locked [] = none
next_job now locked (j ∷ js) =
    let rest = next_job now locked js in
    if is_due now j && not (locked j.id) then earlier j rest else rest

abbrev pub leased : ℕ → String → String → Job → Job
leased now worker token j = record j {
  status = processing;
  locked_at = some now;
  locked_by = some worker;
  lease_token = some token;
}

pub lease_row : ℕ → String → String → String → Job → Job
lease_row now worker token id j = if str_eq j.id id then leased now worker token j else j

abbrev finish_claim : ℕ → String → String → List Job → Option Job → List Job × Option Job
finish_claim now worker token swept none = (swept, none)
finish_claim now worker token swept (some j) =
    (map (lease_row now worker token j.id) swept, some (leased now worker token j))

-- `token` is the new random UUID of the lease.
pub claim_next_job : ℕ → String → String → (String → Bool) → List Job → List Job × Option Job
claim_next_job now worker token locked jobs =
    finish_claim now worker token (map (expire now) jobs) (next_job now locked jobs)

-- SQL equality is not true of nulls.
abbrev pub sql_eq : Option String → Option String → Bool
sql_eq (some s) (some t) = str_eq s t
sql_eq _ _ = false

-- `where id=$1 and status='processing' and locked_by=… and lease_token=…`
abbrev pub has_lease : Job → Job → Bool
has_lease job row =
    str_eq row.id job.id
    && is_processing row.status
    && sql_eq row.locked_by job.locked_by
    && sql_eq row.lease_token job.lease_token

abbrev unlock : Job → Job
unlock row = record row { locked_at = none; locked_by = none; lease_token = none }

pub sent_row : Job → String → Job → Job
sent_row job message_id row =
    if has_lease job row
    then record (unlock row) { status = sent; provider_message_id = some message_id }
    else row

pub failed_row : Job → ℕ → ℕ → Text → Job → Job
failed_row job attempts retry_at reason row =
    if has_lease job row
    then record (unlock row) {
      status = failed;
      attempts = attempts;
      available_at = retry_at;
      last_error = some reason;
    }
    else row

-- A message is linked to a job row by the row's idempotency key, within the tenant.
abbrev pub is_linked : Option Job → Message → Bool
is_linked none m = false
is_linked (some row) m = str_eq m.id row.idempotency_key && str_eq m.tenant_id row.tenant_id

abbrev pub sent_message : Option Job → String → Message → Message
sent_message accepted message_id m =
    if is_linked accepted m
    then record m { provider_message_id = some message_id; delivery_status = "sent" }
    else m

-- The Boolean is `rowCount > 0`, of the messages that were updated.
pub mark_delivered : Db → Job → String → Db × Bool
unfolding sent_row
mark_delivered db job message_id =
    let accepted = find_first (has_lease job) db.jobs in
    (
      record db {
        jobs = map (sent_row job message_id) db.jobs;
        messages = map (sent_message accepted message_id) db.messages;
      },
      any_of (is_linked accepted) db.messages,
    )

pub is_dead : Job → Option Thrown → Bool
is_dead job error = (classify_failure error).terminal || leb job.max_attempts (job.attempts + 1)

-- The statement for a job that is tried again.
pub postpone : Db → Job → Text → ℕ → Db
unfolding failed_row
postpone db job reason retry_at = record db {
  jobs = map (failed_row job (job.attempts + 1) retry_at reason) db.jobs;
}

-- What the statement for a job that is given up returns from `outbox_jobs`, and what its insert
-- into `failed_jobs` selects from that.
abbrev pub returned_columns : List String
returned_columns = "id" ∷ "idempotency_key" ∷ "payload" ∷ []

abbrev pub selected_columns : List String
selected_columns = "tenant_id" ∷ "id" ∷ "payload" ∷ []

abbrev unlock_dead : Job → ℕ → Text → Job → Job
unlock_dead job attempts reason row =
    if has_lease job row
    then record (unlock row) { status = dead_letter; attempts = attempts; last_error = some reason }
    else row

-- The statement for a job that is given up. A statement that selects a column which is not there
-- is refused as a whole, before it changes a row; what it would do to the linked message and to
-- `failed_jobs` is therefore left out.
pub bury : Db → Job → Text → Db × Result Bool
bury db job reason =
    if every (has returned_columns) selected_columns
    then (record db { jobs = map (unlock_dead job (job.attempts + 1) reason) db.jobs }, ok true)
    else (db, err "undefined_column")

-- The Boolean is `dead`.
pub mark_failed : Db → Job → Option Thrown → ℕ → Db × Result Bool
unfolding bury postpone
mark_failed db job error now =
    let reason = (classify_failure error).reason in
    if is_dead job error
    then bury db job reason
    else (postpone db job reason (next_retry_at (job.attempts + 1) now), ok false)

pub record NewJob : Type 0 where
  pub id : String
  pub tenant_id : String
  pub channel_id : Option String
  pub kind : String
  pub payload : String
  pub idempotency_key : String
  pub max_attempts : ℕ

abbrev pub new_row : ℕ → NewJob → Job
new_row now n = record {
  id = n.id;
  tenant_id = n.tenant_id;
  channel_id = n.channel_id;
  kind = n.kind;
  payload = n.payload;
  idempotency_key = n.idempotency_key;
  status = pending;
  attempts = 0;
  max_attempts = n.max_attempts;
  available_at = now;
  created_at = now;
  locked_at = none;
  locked_by = none;
  lease_token = none;
  provider_message_id = none;
  last_error = none;
}

-- The `insert`: a row of the same key is returned as it stands, and a second row of one id is an
-- error of the database.
insert_job : ℕ → NewJob → Option Job → List Job → Result (List Job × Job)
insert_job now n (some row) jobs = ok (jobs, row)
insert_job now n none jobs =
    if any_of (λ j. str_eq j.id n.id) jobs
    then err "unique_violation"
    else ok (jobs ++ new_row now n ∷ [], new_row now n)

abbrev pub same_key : String → Job → Bool
same_key key j = str_eq j.idempotency_key key

pub enqueue : ℕ → NewJob → List Job → Result (List Job × Job)
unfolding insert_job
enqueue now n jobs = do
  require (has ("text" ∷ "template" ∷ []) n.kind) "unsupported outbox kind"
  require (not (str_eq n.tenant_id "")) "tenant context is required for outbound enqueue"
  insert_job now n (find_first (same_key n.idempotency_key) jobs) jobs
