-- ===== src/Outbox/Examples.antt =====
-- Runs of the queue and of a worker on small tables.
use crmtsi_app.Common.{
  ◌≤◌, ◌≡◌, refl, String, Bool, true, false, Option, none, some, List, [], ◌∷◌, ok, err, In, here,
  inl, arith, eq_iff,
}
use crmtsi_app.Outbox.{
  processing, sent, Job, Message, Db, NewJob, Thrown, new_row, leased, claim_next_job, enqueue,
  insert_job, mark_delivered, mark_failed, classify_failure, next_job, lease_row, expire, is_dead,
  bury, sent_row,
}
use crmtsi_app.Outbox.Claim.{Claims, claim_next_job-Claims}
use crmtsi_app.Outbox.Enqueue.{enqueue_idempotent}
use crmtsi_app.Outbox.Protocol.{System, Reach, start, next, claims, delivers, fails, enqueues}
use crmtsi_app.Outbox.Protocol.Invariant.{IsSound}
use crmtsi_app.Outbox.Protocol.Safety.{attempts_bounded, lease_exclusive, Reach-IsSound}
use crmtsi_app.Outbox.Protocol.Settled.{settled_frozen}

abbrev order : NewJob
order = record {
  id = "job-1";
  tenant_id = "tenant";
  channel_id = some "channel";
  kind = "text";
  payload = "{}";
  idempotency_key = "message-1";
  max_attempts = 2;
}

abbrev again : NewJob
again = record order { id = "job-2"; payload = "other" }

abbrev pub unlocked : String → Bool
unlocked _ = false

-- Two jobs that are due, the later one first in the table, and one that was lost by its worker.
abbrev pub table : List Job
table =
    new_row 20 (record order { id = "late"; idempotency_key = "m-late" })
    ∷ new_row 10 order
    ∷ record (new_row 0 (record order { id = "lost"; idempotency_key = "m-lost" })) {
      status = processing;
      locked_at = some 0;
      locked_by = some "gone";
      lease_token = some "old";
    }
    ∷ []

first_due :
    (claim_next_job 30 "worker" "token" unlocked table).1
    ≡ some (leased 30 "worker" "token" (new_row 10 order))
unfolding claim_next_job next_job
first_due = refl

claim_next_job-Claims_example :
    Claims 30 "worker" "token" unlocked table (claim_next_job 30 "worker" "token" unlocked table)
claim_next_job-Claims_example = claim_next_job-Claims 30 "worker" "token" unlocked table

refused_kind : enqueue 0 (record order { kind = "media" }) [] ≡ err "unsupported outbox kind"
unfolding enqueue
refused_kind = refl

enqueue_idempotent_example :
    enqueue 9 again (new_row 5 order ∷ []) ≡ ok (new_row 5 order ∷ [], new_row 5 order)
unfolding enqueue insert_job
enqueue_idempotent_example =
    enqueue_idempotent 5 9 order again [] (new_row 5 order ∷ []) (new_row 5 order) refl refl
      (inl refl) (ground (arith, eq_iff "tenant" ""))

abbrev busy : Option Thrown
busy = some (record { status = 429; status_code = 0; message = []; shown = [] })

abbrev not_found : Option Thrown
not_found = some (record { status = 404; status_code = 0; message = []; shown = [] })

not_found_is_terminal : (classify_failure not_found).terminal ≡ true
unfolding classify_failure
not_found_is_terminal = refl

abbrev held : Job
held = leased 30 "worker" "token" (new_row 10 order)

abbrev pub messages : List Message
messages =
    record {
      id = "message-1";
      tenant_id = "tenant";
      provider_message_id = none;
      delivery_status = "queued";
    }
    ∷ []

abbrev db : Db
db = record { jobs = held ∷ []; messages = messages }

buried_is_refused : mark_failed db held not_found 40 ≡ (db, err "undefined_column")
unfolding mark_failed bury is_dead classify_failure
buried_is_refused = refl

delivered_is_sent : (mark_delivered db held "wamid").1 ≡ true
unfolding mark_delivered
delivered_is_sent = refl

-- A table with no rows, and no workers.
abbrev empty : System
empty = record { db = record { jobs = []; messages = messages }; held = []; used = [] }

empty-IsSound : IsSound empty
empty-IsSound = record {
  row = λ r m. elim m [ ];
  holder = λ h m. elim m [ ];
  by_id = λ a b m k e. elim m [ ];
  by_token = λ a b m k e. elim m [ ];
}

abbrev enqueued : System
enqueued = record empty { db = record empty.db { jobs = new_row 10 order ∷ [] } }

abbrev running : System
running = record { db = db; held = held ∷ []; used = "token" ∷ [] }

abbrev done : System
done = record running { db = (mark_delivered db held "wamid").0 }

abbrev sent_job : Job
sent_job = record held {
  status = sent;
  locked_at = none;
  locked_by = none;
  lease_token = none;
  provider_message_id = some "wamid";
}

to_enqueued : Reach empty enqueued
unfolding enqueue insert_job
to_enqueued = next start (enqueues 10 order (new_row 10 order ∷ []) (new_row 10 order) refl)

to_running : Reach empty running
unfolding claim_next_job next_job expire lease_row
to_running = next to_enqueued (claims 30 "worker" "token" unlocked (λ m. elim m [ ]))

to_done : Reach empty done
to_done = next to_running (delivers held "wamid" here)

attempts_bounded_example : held.attempts ≤ held.max_attempts
attempts_bounded_example = attempts_bounded held empty-IsSound to_running here

lease_exclusive_example : held ≡ held
lease_exclusive_example =
    lease_exclusive empty-IsSound to_running held held held here here refl refl

-- The worker reports a second time, and as a failure, when the job is sent.
late_report : Reach done (record done { db = (mark_failed done.db held busy 99).0 })
late_report = next start (fails held busy 99 here)

settled_frozen_example : In sent_job (mark_failed done.db held busy 99).0.jobs
unfolding mark_delivered sent_row
settled_frozen_example =
    settled_frozen sent_job (Reach-IsSound empty-IsSound to_done) refl here late_report
