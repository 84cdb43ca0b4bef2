-- ===== src/Outbox/Protocol.antt =====
-- The queue of outbox.js and its workers: whoever holds a claimed job may report on it at any time,
-- also long after its lease has run out, and any number of times.
pub mod Invariant
pub mod Safety
pub mod Settled
use crmtsi_app.Common.{ℕ, String, Bool, true, false, ◌≡◌, Option, none, some, List, [], ◌∷◌, ok, In}
use crmtsi_app.Outbox.{
  Status, sent, dead_letter, delivery_unknown, Job, Db, NewJob, Thrown, claim_next_job, enqueue,
  mark_delivered, mark_failed,
}

-- `held` are the jobs that workers were given, `used` the lease tokens made so far.
pub record System : Type 0 where
  pub db : Db
  pub held : List Job
  pub used : List String

abbrev pub hold : Option Job → List Job → List Job
hold none held = held
hold (some j) held = j ∷ held

-- `randomUUID` makes a token that was not made before.
pub data Step (s : System) : System → Type 0 where
  claims :
      (now : ℕ) (worker token : String) (locked : String → Bool)
      → ¬ In token s.used
      → Step s (record {
        db = record s.db { jobs = (claim_next_job now worker token locked s.db.jobs).0 };
        held = hold (claim_next_job now worker token locked s.db.jobs).1 s.held;
        used = token ∷ s.used;
      })
  delivers :
      (job : Job) (message_id : String)
      → In job s.held
      → Step s (record s { db = (mark_delivered s.db job message_id).0 })
  fails :
      (job : Job) (error : Option Thrown) (now : ℕ)
      → In job s.held
      → Step s (record s { db = (mark_failed s.db job error now).0 })
  enqueues :
      (now : ℕ) (n : NewJob) (jobs : List Job) (row : Job)
      → enqueue now n s.db.jobs ≡ ok (jobs, row)
      → Step s (record s { db = record s.db { jobs = jobs } })

pub data Reach (s : System) : System → Type 0 where
  start : Reach s s
  next : {t u : System} → Reach s t → Step t u → Reach s u

-- A job that is not to be sent again.
abbrev pub is_settled : Status → Bool
is_settled sent = true
is_settled dead_letter = true
is_settled delivery_unknown = true
is_settled _ = false
