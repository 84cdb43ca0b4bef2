-- ===== src/Operations/Drain/Examples.antt =====
-- A queue whose two jobs end one after the other.
use crmtsi_app.Common.{
  ℕ, ◌+◌, ◌-◌, ◌*◌, ◌≡◌, ◌≢◌, refl, String, true, false, [], ◌∷◌, some, Result, ok, err, arith,
}
use crmtsi_app.Operations.Drain.{Controls, Rounds, drain_queue, is_paused, timeout_of}
use crmtsi_app.Operations.Drain.Ends.{Ended, drain_queue_ends}

abbrev rounds : Rounds
rounds = record { clock = λ k. 100 + 250 * k; active = λ k. ok (2 - k) }

abbrev controls : Controls
controls = ("t", false) ∷ ("u", true) ∷ []

third_round : drain_queue 5 rounds "t" 100 1000 controls ≡ some (controls, ok 2)
unfolding drain_queue
third_round = refl

too_late : drain_queue 5 rounds "t" 100 300 controls ≡ some (controls, err "OPERATION_TIMEOUT")
unfolding drain_queue
too_late = refl

too_short : timeout_of (some 999) ≡ err "VALIDATION_ERROR"
unfolding timeout_of
too_short = refl

drain_queue_ends_example :
    (after : Controls) × (r : Result ℕ) × (drain_queue 1001 rounds "t" 100 1000 controls
      ≡ some (after, r))
    × Ended rounds 100 1000 0 r
    × (is_paused "t" after ≡ false)
    × ((u : String) → u ≢ "t" → is_paused u after ≡ is_paused u controls)
drain_queue_ends_example =
    drain_queue_ends rounds 1001 100 1000 "t" controls (λ k. omega arith) (omega arith)
      (omega arith)
