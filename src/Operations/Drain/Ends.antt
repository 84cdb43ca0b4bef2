-- ===== src/Operations/Drain/Ends.antt =====
-- Draining a queue ends, and the claims are resumed.
use crmtsi_app.Common.{
  ℕ, zero, suc, ◌+◌, ◌-◌, ◌≤◌, ◌<◌, ◌≡◌, ◌≢◌, refl, ap, ◌∙◌, inl, inr, String, Bool, true, false,
  Option, some, [], ◌∷◌, Result, ok, err, str_eq, str_eq_refl, ltb, if◌then◌else◌, ◌==◌, arith,
  eq_iff, Bool-cases, Result-cases,
}
use crmtsi_app.Operations.Drain.{
  Controls, set_paused, is_paused, pause_claims, resume_claims, or_default, Rounds, wait, ended,
  drain_queue,
}

is_paused-set_paused :
    (t u : String) (p : Bool) (rows : Controls)
    → is_paused u (set_paused t p rows) ≡ (if str_eq t u then p else is_paused u rows)
unfolding is_paused set_paused
is_paused-set_paused t u p [] = refl
is_paused-set_paused t u p ((k, q) ∷ rows) =
    ground (arith, is_paused-set_paused t u p rows, eq_iff k t, eq_iff k u, eq_iff t u)

-- How a wait that started at a round ends: a query failed, or a round found no job in progress in
-- time, or the time was up with jobs in progress in every round before.
pub data Ended (rounds : Rounds) (started timeout round : ℕ) : Result ℕ → Type 0 where
  failed :
      (k : ℕ) (code : String)
      → round ≤ k
      → rounds.active k ≡ err code
      → Ended rounds started timeout round (err code)
  drained :
      (k : ℕ)
      → round ≤ k
      → rounds.clock k < started + timeout
      → rounds.active k ≡ ok 0
      → Ended rounds started timeout round (ok k)
  timed_out :
      (k : ℕ)
      → round ≤ k
      → started + timeout ≤ rounds.clock k
      → ((i : ℕ) → round ≤ i → i < k → (n : ℕ) × (rounds.active i ≡ ok n) × (0 < n))
      → Ended rounds started timeout round (err "OPERATION_TIMEOUT")

module _ (rounds : Rounds) (started timeout : ℕ) where
  abbrev EndsAt : ℕ → Option (Result ℕ) → Type 0
  EndsAt round o = (r : Result ℕ) × (o ≡ some r) × Ended rounds started timeout round r

  later :
      (round n : ℕ) (r : Result ℕ)
      → rounds.active round ≡ ok n
      → 0 < n
      → Ended rounds started timeout (round + 1) r
      → Ended rounds started timeout round r
  later round n r seen busy (failed k code le e) = failed k code (omega (arith, le)) e
  later round n r seen busy (drained k le time e) = drained k (omega (arith, le)) time e
  later round n r seen busy (timed_out k le time all) =
      timed_out k (omega (arith, le)) time λ i above below. elim (Bool-cases (i == round)) [
        | inl here ↦
            let same : i ≡ round = ground (arith, here) in (n, ap rounds.active same ∙ seen, busy)
        | inr there ↦ all i (ground (arith, above, there)) below
      ]

  -- The clock goes on by each round's sleep.
  module _ (ticks : (k : ℕ) → rounds.clock k < rounds.clock (k + 1)) where
    wait_ends :
        (fuel round : ℕ)
        → 0 < timeout
        → 0 < fuel
        → started + timeout < rounds.clock round + fuel
        → EndsAt round (wait fuel rounds started timeout round)
    unfolding wait
    wait_ends zero round some_time h enough = absurd (omega (arith, h))
    wait_ends (suc fuel) round some_time h enough =
        elim (Bool-cases (ltb (rounds.clock round - started) timeout)) [
          | inr up ↦ (
            err "OPERATION_TIMEOUT",
            rw up refl,
            timed_out round (omega arith) (ground (arith, up))
                (λ i above below. absurd (omega (arith, above, below))),
          )
          | inl within ↦ elim (Result-cases (rounds.active round)) [
            | inl (code, fails) ↦
                (err code, rw (within, fails) refl, failed round code (omega arith) fails)
            | inr (n, seen) ↦ elim (Bool-cases (n == 0)) [
              | inl none_left ↦
                  let zero_left : n ≡ 0 = ground (arith, none_left) in
                  (
                    ok round,
                    rw (within, seen, none_left) refl,
                    drained round (omega arith) (ground (arith, within, some_time))
                        (seen ∙ ap (λ (x : ℕ). ok x) zero_left),
                  )
              | inr busy ↦
                  let before : rounds.clock round < started + timeout =
                    ground (arith, within, some_time) in
                  let (r, same, ends) =
                    wait_ends fuel (round + 1) some_time (omega (arith, enough, before))
                      (omega (arith, enough, ticks round)) in
                  (
                    r,
                    rw (within, seen, busy) same,
                    later round n r seen (ground (arith, busy)) ends,
                  )
            ]
          ]
        ]

-- Where the clock goes on in every round, draining ends with more rounds than the timeout has
-- milliseconds. It answers a round in time that found no job in progress, fails as a query of the
-- number of jobs did, or fails as the time is up with jobs in progress in every round before. In each
-- case the tenant's claims are resumed and no other tenant's are changed.
pub drain_queue_ends :
    (rounds : Rounds) (fuel started timeout_ms : ℕ) (t : String) (rows : Controls)
    → ((k : ℕ) → rounds.clock k < rounds.clock (k + 1))
    → started ≤ rounds.clock 0
    → or_default timeout_ms < fuel
    → (after : Controls) × (r : Result ℕ) × (drain_queue fuel rounds t started timeout_ms rows
        ≡ some (after, r))
      × Ended rounds started (or_default timeout_ms) 0 r
      × (is_paused t after ≡ false)
      × ((u : String) → u ≢ t → is_paused u after ≡ is_paused u rows)
unfolding drain_queue pause_claims resume_claims
drain_queue_ends rounds fuel started timeout_ms t rows ticks begun enough =
    let (r, same, ends) =
      wait_ends rounds started (or_default timeout_ms) ticks fuel 0 (ground arith)
        (omega (arith, enough)) (omega (arith, enough, begun)) in
    let paused = set_paused t true rows in
    (
      set_paused t false paused,
      r,
      ap (ended t paused) same,
      ends,
      is_paused-set_paused t t false paused ∙ (rw (str_eq_refl t) refl),
      λ u other. ground (
        arith,
        is_paused-set_paused t u false paused,
        is_paused-set_paused t u true rows,
        eq_iff t u,
        other,
      ),
    )
