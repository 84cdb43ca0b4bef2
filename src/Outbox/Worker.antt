-- ===== src/Outbox/Worker.antt =====
-- outbox-worker.js: one round of the worker that sends the queued messages. The claim and the report are
-- transactions of their own, and others may come between. A statement on the queue that the database
-- cannot run, other than the one that buries a job, is left out.
mod Examples
pub mod Report
pub mod Rounds
use crmtsi_app.Common.{
  Text, ℕ, String, Bool, true, false, Option, none, some, List, [], ◌∷◌, codes, decimal, str_eq,
  ◌++◌, Result, ok, err, if◌then◌else◌,
}
use crmtsi_app.Outbox.{Job, Db, Thrown, claim_next_job, mark_delivered, mark_failed}

abbrev pub Config : Type 0
Config = List (String × String)

put : Config → String → String → Config
put [] k v = (k, v) ∷ []
put ((j, w) ∷ c) k v = if str_eq j k then (j, v) ∷ c else (j, w) ∷ put c k v

-- `{ ...config, ...credentials }`
pub merge_channel_credentials : Config → Config → Config
unfolding put
merge_channel_credentials config [] = config
merge_channel_credentials config ((k, v) ∷ credentials) =
    merge_channel_credentials (put config k v) credentials

pub record Channel : Type 0 where
  pub provider : Option String
  pub config : Config

-- A row of the join of channels, credentials and secret versions.
pub record ChannelRow : Type 0 where
  pub provider : String
  pub config : Config
  pub ciphertext : String

-- An `Error` with a message and no HTTP status.
abbrev pub error_of : Text → Option Thrown
error_of message =
    some (record {
      status = 0;
      status_code = 0;
      message = message;
      shown = codes "Error: " ++ message;
    })

pub data Delivery : Type 0 where
  delivered : String → Delivery
  thrown : Option Thrown → Delivery

pub data Loaded : Type 0 where
  loaded : Channel → Loaded
  unavailable : Option Thrown → Loaded

-- The methods that the adapter of a provider has.
pub record Adapter : Type 0 where
  pub send_text : Option (Job → Channel → Delivery)
  pub send_template : Option (Job → Channel → Delivery)
  pub send_media : Option (Job → Channel → Delivery)

pub data RoundStatus : Type 0 where
  sent dead_letter retrying : RoundStatus

pub record Round : Type 0 where
  pub id : String
  pub status : RoundStatus

abbrev pub outcome : Bool → RoundStatus
outcome true = dead_letter
outcome false = retrying

abbrev or_error {ℓ} : {A : Type ℓ} → Option A → Text → (A → Delivery) → Delivery
or_error none message k = thrown (error_of message)
or_error (some a) message k = k a

abbrev pub method : String → Adapter → Option (Job → Channel → Delivery)
method kind a =
    if str_eq kind "template"
    then a.send_template
    else if str_eq kind "media"
    then a.send_media
    else a.send_text

-- The answer of a round: a job of which it reports, nothing where no job was due, or a throw.
abbrev pub Answer : Type 0
Answer = Result (Option Round)

abbrev answer : Job → Result Bool → Answer
answer job (ok dead) = ok (some (record { id = job.id; status = outcome dead }))
answer job (err e) = err e

-- The answer of `markDelivered` is not looked at.
pub report : Db → Job → ℕ → Delivery → Db × Answer
report db job now (delivered message_id) =
    ((mark_delivered db job message_id).0, ok (some (record { id = job.id; status = sent })))
report db job now (thrown e) = let (db', dead) = mark_failed db job e now in (db', answer job dead)

-- `find_channel` is the query by channel and tenant, `decrypt` the credentials of channel-secrets.js
-- (`none` where they throw), and `adapters` the adapter of each provider.
module _ (find_channel : String → String → Option ChannelRow) (decrypt : String → Option Config)
    (adapters : String → Option Adapter) where
  with_credentials : ChannelRow → Option Config → Loaded
  with_credentials row none = unavailable (error_of (codes "channel credentials are unavailable"))
  with_credentials row (some c) =
      loaded
        (record { provider = some row.provider; config = merge_channel_credentials row.config c })

  with_row : Option ChannelRow → Loaded
  unfolding with_credentials
  with_row none = unavailable (error_of (codes "channel credentials unavailable"))
  with_row (some row) = with_credentials row (decrypt row.ciphertext)

  -- A row of `outbox_jobs` has no provider of its own.
  pub load_job_channel : Job → Loaded
  unfolding with_row
  load_job_channel job = elim job.channel_id [
    | none ↦ loaded (record { provider = none; config = [] })
    | some id ↦ with_row (find_channel id job.tenant_id)
  ]

  abbrev provider_adapter : Option String → Option Adapter
  provider_adapter none = none
  provider_adapter (some p) = adapters p

  abbrev provider_name : Option String → Text
  provider_name none = codes "missing"
  provider_name (some p) = if str_eq p "" then codes "missing" else codes p

  send_on : Job → Loaded → Delivery
  send_on job (unavailable e) = thrown e
  send_on job (loaded channel) =
      or_error (provider_adapter channel.provider)
        (codes "unsupported provider: " ++ provider_name channel.provider)
        λ a.
          or_error (method job.kind a) (codes "unsupported delivery kind: " ++ codes job.kind)
            λ send. send job channel

  pub send : Job → Delivery
  unfolding send_on load_job_channel
  send job = send_on job (load_job_channel job)

  -- A round after its claim: `meanwhile` is what other transactions do to the tables until the report.
  pub work : (Db → Db) → Db → ℕ → Option Job → Db × Answer
  unfolding report
  work meanwhile db later none = (db, ok none)
  work meanwhile db later (some job) = report (meanwhile db) job later (send job)

  -- `token` is the random UUID of the lease; `now` is the time of the claim and `later` that of the
  -- report.
  pub process_one :
      (meanwhile : Db → Db)
      → Db
      → String
      → (String → Bool)
      → (now later : ℕ) (token : String) → Db × Answer
  unfolding work
  process_one meanwhile db worker locked now later token =
      let (jobs, job) = claim_next_job now worker token locked db.jobs in
      work meanwhile (record db { jobs = jobs }) later job
