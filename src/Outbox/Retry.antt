-- ===== src/Outbox/Retry.antt =====
-- nextRetryAt, classifyFailure and markFailed of outbox.js: when a failed job is tried again.
use native.Mathlib.Nat.{pow-suc}
use crmtsi_app.Common.{
  ℕ, suc, ◌+◌, ◌*◌, ◌^◌, ◌≤◌, ◌<◌, ◌≡◌, ◌≢◌, ◌↔◌, Bool, true, false, Option, arith, ◌⊎◌, inl, inr,
  Bool-cases, Result, ok, err,
}
use crmtsi_app.Outbox.{
  Db, Job, Thrown, http_status, classify_failure, retry_delay, next_retry_at, mark_failed, bury,
  postpone, is_dead,
}

pow-le-pow-suc : (base n : ℕ) → base * 2 ^ n ≤ base * 2 ^ suc n
pow-le-pow-suc base n = rw pow-suc (grind arith)

-- The delay never passes the maximum, does not shrink when the attempts grow, and is the
-- exponential or, where that is no smaller, the maximum.
retry_delay_bounds :
    (attempts base_ms max_ms : ℕ)
    → (retry_delay attempts base_ms max_ms ≤ max_ms)
      × (retry_delay attempts base_ms max_ms ≤ retry_delay (suc attempts) base_ms max_ms)
      × ((retry_delay attempts base_ms max_ms ≡ base_ms * 2 ^ attempts)
          ⊎ ((retry_delay attempts base_ms max_ms ≡ max_ms) × (max_ms ≤ base_ms * 2 ^ attempts)))
unfolding retry_delay
retry_delay_bounds attempts base_ms max_ms =
    (ground arith, ground (arith, pow-le-pow-suc base_ms attempts), ground arith)

abbrev pub IsTransient : ℕ → Type 0
IsTransient status = (status ≢ 408) × (status ≢ 409) × (status ≢ 425) × (status ≢ 429)

-- A failure is terminal exactly if it carries an HTTP status 4xx other than 408, 409, 425 and 429.
pub classify_failure-terminal_iff :
    (error : Option Thrown)
    → ((classify_failure error).terminal ≡ true)
      ↔ ((400 ≤ http_status error) × (http_status error < 500) × IsTransient (http_status error))
unfolding classify_failure
classify_failure-terminal_iff error = ground arith

-- Either the job is given up, or it waits for its next attempt.
pub data Fails (db : Db) (job : Job) (error : Option Thrown) (now : ℕ)
    : Db × Result Bool → Type 0 where
  refused :
      ((classify_failure error).terminal ≡ true) ⊎ (job.max_attempts ≤ job.attempts + 1)
      → Fails db job error now (db, err "undefined_column")
  alive :
      (classify_failure error).terminal ≡ false
      → job.attempts + 1 < job.max_attempts
      → Fails db job error now (
        postpone db job (classify_failure error).reason (next_retry_at (job.attempts + 1) now),
        ok false,
      )

-- A failure that is not terminal, with an attempt left, postpones the rows under the job's lease to
-- the next attempt. Any other failure should bury the job, but the statement for that selects a
-- column that it does not return, so the database refuses it and no row changes.
pub mark_failed-Fails :
    (db : Db) (job : Job) (error : Option Thrown) (now : ℕ)
    → Fails db job error now (mark_failed db job error now)
unfolding mark_failed is_dead bury
mark_failed-Fails db job error now = elim (Bool-cases (is_dead job error)) [
  | inl e ↦ rw e (refused (ground (arith, e)))
  | inr e ↦ rw e (alive (ground (arith, e)) (ground (arith, e)))
]
