-- ===== src/Outbox/Worker/Report.antt =====
-- What a round answers by what the adapter did, and how it leaves the tables that it finds at its report.
use crmtsi_app.Common.{
  Text, ℕ, ◌+◌, ◌≤◌, ◌<◌, String, Bool, true, false, ◌≡◌, ◌⊎◌, inl, inr, refl, ap, Option, none,
  some, List, [], ◌∷◌, map, arith, Result, ok, err, any_of, Bool-cases, find_first,
}
use crmtsi_app.Outbox.{
  postpone, Job, Status, Message, Db, Thrown, has_lease, sent_row, failed_row, sent_message,
  mark_delivered, mark_failed, classify_failure, next_retry_at,
}
use crmtsi_app.Outbox.Retry.{Fails, refused, alive, mark_failed-Fails}
use crmtsi_app.Outbox.Worker.{Delivery, delivered, thrown, sent, retrying, Answer, answer, report}

-- Two tables whose rows are related one by one.
pub data Rows (R : Job → Job → Type 0) : List Job → List Job → Type 0 where
  no_rows : Rows R [] []
  more_rows : {b r : Job} {bs rs : List Job} → R b r → Rows R bs rs → Rows R (b ∷ bs) (r ∷ rs)

Rows-map :
    (R : Job → Job → Type 0) (f : Job → Job)
    → ((b : Job) → R b (f b))
    → (bs : List Job) → Rows R bs (map f bs)
Rows-map R f each [] = no_rows
Rows-map R f each (b ∷ bs) = more_rows (each b) (Rows-map R f each bs)

-- A row that is no longer leased, as it was but for the status and what is written with it.
pub record IsFreed (status : Status) (b r : Job) : Type 0 where
  pub id : r.id ≡ b.id
  pub now_has : r.status ≡ status
  pub lease : r.lease_token ≡ none
  pub worker : r.locked_by ≡ none

-- The row under the job's lease is sent with the message's identity; others are as they were.
abbrev pub IsSent : Job → String → Job → Job → Type 0
IsSent job message_id b r =
    ((has_lease job b ≡ true)
      × IsFreed Status.sent b r
      × (r.provider_message_id ≡ some message_id)
      × (r.attempts ≡ b.attempts))
    ⊎ ((has_lease job b ≡ false) × (r ≡ b))

-- The row under the job's lease waits for its next attempt; others are as they were.
abbrev pub IsPostponed : Job → ℕ → Job → Job → Type 0
IsPostponed job later b r =
    ((has_lease job b ≡ true)
      × IsFreed Status.failed b r
      × (r.attempts ≡ job.attempts + 1)
      × (r.available_at ≡ next_retry_at (job.attempts + 1) later))
    ⊎ ((has_lease job b ≡ false) × (r ≡ b))

-- What a round that holds `job` answers by what the adapter did, and how it leaves the tables that it
-- finds at its report.
pub data Reported (job : Job) (db : Db) (later : ℕ) : Delivery → Db × Answer → Type 0 where
  was_sent :
      (message_id : String) {after : Db}
      → Rows (IsSent job message_id) db.jobs after.jobs
      → (after ≡ db) ⊎ (any_of (has_lease job) db.jobs ≡ true)
      → Reported job db later
          (delivered message_id)
          (after, ok (some (record { id = job.id; status = sent })))
  tried_again :
      (e : Option Thrown) {after : Db}
      → (classify_failure e).terminal ≡ false
      → job.attempts + 1 < job.max_attempts
      → Rows (IsPostponed job later) db.jobs after.jobs
      → after.messages ≡ db.messages
      → Reported job db later
          (thrown e)
          (after, ok (some (record { id = job.id; status = retrying })))
  threw :
      (e : Option Thrown)
      → ((classify_failure e).terminal ≡ true) ⊎ (job.max_attempts ≤ job.attempts + 1)
      → Reported job db later (thrown e) (db, err "undefined_column")

sent_row-IsSent :
    (job : Job) (message_id : String) (b : Job)
    → IsSent job message_id b (sent_row job message_id b)
unfolding sent_row
sent_row-IsSent job message_id b = elim (Bool-cases (has_lease job b)) [
  | inl held ↦
      rw held
        (inl (refl, record { id = refl; now_has = refl; lease = refl; worker = refl }, refl, refl))
  | inr lost ↦ rw lost (inr (refl, refl))
]

failed_row-IsPostponed :
    (job : Job) (later : ℕ) (reason : Text) (b : Job)
    → IsPostponed job later b
        (failed_row job (job.attempts + 1) (next_retry_at (job.attempts + 1) later) reason b)
unfolding failed_row
failed_row-IsPostponed job later reason b = elim (Bool-cases (has_lease job b)) [
  | inl held ↦
      rw held
        (inl (refl, record { id = refl; now_has = refl; lease = refl; worker = refl }, refl, refl))
  | inr lost ↦ rw lost (inr (refl, refl))
]

-- Where no row is under the job's lease, a report that it is delivered changes nothing.
sent_row-lost :
    (job : Job) (message_id : String) (jobs : List Job)
    → any_of (has_lease job) jobs ≡ false
    → map (sent_row job message_id) jobs ≡ jobs
unfolding sent_row
sent_row-lost job message_id [] h = refl
sent_row-lost job message_id (b ∷ bs) h = ground (arith, h, sent_row-lost job message_id bs)

find_first-lost :
    (job : Job) (jobs : List Job)
    → any_of (has_lease job) jobs ≡ false
    → find_first (has_lease job) jobs ≡ none
find_first-lost job [] h = refl
find_first-lost job (b ∷ bs) h = ground (arith, h, find_first-lost job bs)

sent_message-lost :
    (message_id : String) (messages : List Message)
    → map (sent_message none message_id) messages ≡ messages
sent_message-lost message_id [] = refl
sent_message-lost message_id (m ∷ ms) =
    ap (λ (l : List Message). m ∷ l) (sent_message-lost message_id ms)

mark_delivered-lost :
    (db : Db) (job : Job) (message_id : String)
    → ((mark_delivered db job message_id).0 ≡ db) ⊎ (any_of (has_lease job) db.jobs ≡ true)
unfolding mark_delivered
mark_delivered-lost db job message_id = elim (Bool-cases (any_of (has_lease job) db.jobs)) [
  | inl held ↦ inr held
  | inr lost ↦ inl (
      cc (
        sent_row-lost job message_id db.jobs lost,
        find_first-lost job db.jobs lost,
        sent_message-lost message_id db.messages,
      ))
]

report_failed-Reported :
    (db : Db) (job : Job) (later : ℕ) (e : Option Thrown) (c : Db × Result Bool)
    → Fails db job e later c
    → Reported job db later (thrown e) (c.0, answer job c.1)
unfolding postpone
report_failed-Reported db job later e c (refused why) = threw e why
report_failed-Reported db job later e c (alive again few) =
    let reason = (classify_failure e).reason in
    tried_again e again few
      (Rows-map (IsPostponed job later)
        (failed_row job (job.attempts + 1) (next_retry_at (job.attempts + 1) later) reason)
        (failed_row-IsPostponed job later reason) db.jobs)
      refl

pub report-Reported :
    (db : Db) (job : Job) (later : ℕ) (d : Delivery)
    → Reported job db later d (report db job later d)
unfolding report mark_delivered
report-Reported db job later (delivered message_id) =
    was_sent message_id
      (Rows-map (IsSent job message_id) (sent_row job message_id) (sent_row-IsSent job message_id)
        db.jobs)
      (mark_delivered-lost db job message_id)
report-Reported db job later (thrown e) =
    report_failed-Reported db job later e (mark_failed db job e later)
      (mark_failed-Fails db job e later)
