-- ===== src/Operations/Drain.antt =====
-- modules/operations/job-store.js and modules/cli/commands/queues.js: the claims of a tenant are paused
-- while its queue is drained. Times are milliseconds.
mod Examples
pub mod Ends
use crmtsi_app.Common.{
  ℕ, zero, suc, ◌+◌, ◌-◌, String, Bool, true, false, not, ◌||◌, Option, none, some, List, [], ◌∷◌,
  Result, ok, err, ◌>>=◌, ◌>>◌, require, str_eq, ltb, if◌then◌else◌, ◌==◌,
}

-- The rows of `queue_controls`: a tenant and whether its claims are paused.
abbrev pub Controls : Type 0
Controls = List (String × Bool)

-- The insert that updates on a conflict.
unfoldable pub set_paused : String → Bool → Controls → Controls
set_paused tenant_id paused [] = (tenant_id, paused) ∷ []
set_paused tenant_id paused ((t, p) ∷ rows) =
    let rest = set_paused tenant_id paused rows in
    if str_eq t tenant_id then (t, paused) ∷ rows else (t, p) ∷ rest

-- A tenant without a row is not paused.
unfoldable pub is_paused : String → Controls → Bool
is_paused tenant_id [] = false
is_paused tenant_id ((t, p) ∷ rows) =
    let rest = is_paused tenant_id rows in if str_eq t tenant_id then p else rest

unfoldable pub pause_claims : String → Controls → Controls
unfolding set_paused
pause_claims tenant_id rows = set_paused tenant_id true rows

unfoldable pub resume_claims : String → Controls → Controls
unfolding set_paused
resume_claims tenant_id rows = set_paused tenant_id false rows

abbrev pub or_default : ℕ → ℕ
or_default ms = if ms == 0 then 30000 else ms

-- What the loop sees in its rounds: the time when each begins, and the number of jobs in progress, or
-- what the query throws.
pub record Rounds : Type 0 where
  pub clock : ℕ → ℕ
  pub active : ℕ → Result ℕ

-- The loop from a round; `none` means that the fuel ran out, and the answer is the round that found no
-- job in progress.
unfoldable pub wait : (fuel : ℕ) → Rounds → (started timeout : ℕ) → (round : ℕ) → Option (Result ℕ)
wait zero rounds started timeout round = none
wait (suc fuel) rounds started timeout round =
    let rest = wait fuel rounds started timeout (round + 1) in
    if ltb (rounds.clock round - started) timeout
    then elim (rounds.active round) [
      | err e ↦ some (err e)
      | ok n ↦ if n == 0 then some (ok round) else rest
    ]
    else some (err "OPERATION_TIMEOUT")

abbrev pub ended : String → Controls → Option (Result ℕ) → Option (Controls × Result ℕ)
ended tenant_id rows none = none
ended tenant_id rows (some r) = some (resume_claims tenant_id rows, r)

-- `drainQueue`; the claims are resumed however the loop ends.
unfoldable pub drain_queue :
    (fuel : ℕ)
    → Rounds
    → String
    → (started timeout_ms : ℕ) → Controls
    → Option (Controls × Result ℕ)
unfolding wait pause_claims resume_claims
drain_queue fuel rounds tenant_id started timeout_ms rows =
    ended tenant_id (pause_claims tenant_id rows)
      (wait fuel rounds started (or_default timeout_ms) 0)

-- `drainQueues`: the timeout that is given, or half a minute, is within a second and five minutes.
unfoldable pub timeout_of : Option ℕ → Result ℕ
timeout_of none = ok 30000
timeout_of (some ms) = do require (not (ltb ms 1000 || ltb 300000 ms)) "VALIDATION_ERROR"; ok ms
