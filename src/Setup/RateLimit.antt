-- ===== src/Setup/RateLimit.antt =====
-- The rate limit of validateDraft in modules/setup/state-machine.js, and what starts its count anew.
use crmtsi_app.Common.{
  ℕ, ◌+◌, ◌-◌, ◌*◌, ◌≤◌, ◌<◌, String, List, [], ◌∷◌, arith, Result, ok, err, All, leb, Option, none,
  some, if◌then◌else◌, ◌≡◌, Bool, true, false, ltb,
}
use crmtsi_app.Setup.{
  Draft, Machine, Callback, returns, promises, throws, Event, bootstraps, activates, drafts,
  validates, settles, bootstrap, activate, run_callback, settle, set_draft_config, store_draft,
  missing_field, required_fields, validate_draft, step,
}

abbrev one_if_ok : Result (Unit {0}) → ℕ
one_if_ok (ok _) = 1
one_if_ok (err _) = 0

-- Each validation is tried within the minute that begins at a time.
abbrev pub InMinute : ℕ → List Event → Type 0
InMinute t es =
    All
      (λ e. elim e [
        | validates now token ↦ (t ≤ now) × (now < t + 60000)
        | bootstraps tenant secret ↦ Unit
        | activates c ↦ Unit
        | drafts d ↦ Unit
        | settles done ↦ Unit
      ])
      es

-- How many validations the limit admits yet in the minute: where one was accepted in it, those that
-- are not counted.
abbrev pub left : ℕ → ℕ → Machine → ℕ
left rate_limit t m =
    if leb t m.last_validation_at then rate_limit - m.validation_attempts else rate_limit

module _ (hash : String → String) (bootstrap_secret : String) (rate_limit : ℕ) where
  -- The validations that are accepted.
  abbrev pub accepts : Event → Machine → ℕ
  accepts (validates now token) m = one_if_ok (validate_draft rate_limit now token m).1
  accepts _ m = 0

  -- The drafts that are taken, and the bootstrap.
  abbrev pub restarts : Event → Machine → ℕ
  restarts (bootstraps tenant secret) m =
      one_if_ok (bootstrap hash bootstrap_secret tenant secret m).1
  restarts (drafts d) m = one_if_ok (set_draft_config d m).1
  restarts _ m = 0

  unfoldable pub total : (Event → Machine → ℕ) → Machine → List Event → ℕ
  total count m [] = 0
  total count m (e ∷ es) = count e m + total count (step hash bootstrap_secret rate_limit e m) es

  left-le : (t : ℕ) (m : Machine) → left rate_limit t m ≤ rate_limit
  left-le t m = ground arith

  -- One call: what it accepts and what it leaves are what was left, and the limit if it starts the
  -- count anew.
  validate-left :
      (t now : ℕ) (token : String) (m : Machine)
      → 0 < rate_limit
      → t ≤ now
      → now < t + 60000
      → let (m', r) = validate_draft rate_limit now token m in
        one_if_ok r + left rate_limit t m' ≤ left rate_limit t m
  unfolding validate_draft
  validate-left t now token m pos begun within = ground (arith, pos, begun, within)

  store_draft-left :
      (t : ℕ) (d : Draft) (o : Option String) (m : Machine)
      → left rate_limit t (store_draft d o m).0
        ≤ left rate_limit t m + rate_limit * one_if_ok (store_draft d o m).1
  unfolding store_draft
  store_draft-left t d none m = ground arith
  store_draft-left t d (some upper) m = omega arith

  draft-left :
      (t : ℕ) (d : Draft) (m : Machine)
      → left rate_limit t (set_draft_config d m).0
        ≤ left rate_limit t m + rate_limit * one_if_ok (set_draft_config d m).1
  unfolding set_draft_config
  draft-left t d m =
      ground (arith, store_draft-left t d (missing_field d.config (required_fields d.provider)) m)

  bootstrap-left :
      (t : ℕ) (tenant secret : String) (m : Machine)
      → let (m', r) = bootstrap hash bootstrap_secret tenant secret m in
        left rate_limit t m' ≤ left rate_limit t m + rate_limit * one_if_ok r
  unfolding bootstrap
  bootstrap-left t tenant secret m = ground arith

  activate-left :
      (t : ℕ) (c : Callback) (m : Machine)
      → left rate_limit t (activate c m).0 ≡ left rate_limit t m
  unfolding activate run_callback
  activate-left t returns m = ground arith
  activate-left t promises m = ground arith
  activate-left t (throws e) m = ground arith

  settle-left :
      (t : ℕ) (done : Bool) (m : Machine)
      → left rate_limit t (if ltb 0 m.pending then settle done m else m) ≡ left rate_limit t m
  unfolding settle
  settle-left t true m = ground arith
  settle-left t false m = ground arith

  step-left :
      (t : ℕ) (e : Event) (m : Machine)
      → 0 < rate_limit
      → InMinute t (e ∷ [])
      → accepts e m + left rate_limit t (step hash bootstrap_secret rate_limit e m)
        ≤ left rate_limit t m + rate_limit * restarts e m
  unfolding step
  step-left t (bootstraps tenant secret) m pos h = omega (arith, bootstrap-left t tenant secret m)
  step-left t (activates c) m pos h = omega (arith, activate-left t c m)
  step-left t (drafts d) m pos h = omega (arith, draft-left t d m)
  step-left t (validates now token) m pos h =
      omega (arith, validate-left t now token m pos h.0.0 h.0.1)
  step-left t (settles done) m pos h = omega (arith, settle-left t done m)

  -- In any minute, with a limit above 0, from any state and whatever else is called in it, at most as
  -- many validations are accepted as are left of the limit, and as many as the limit again for each
  -- draft that is taken and each bootstrap, which start the count anew.
  pub validations_limited :
      (t : ℕ) (m : Machine) (es : List Event)
      → 0 < rate_limit
      → InMinute t es
      → total accepts m es ≤ left rate_limit t m + rate_limit * total restarts m es
  unfolding total
  validations_limited t m [] pos h = omega arith
  validations_limited t m (e ∷ es) pos h =
      let next = step hash bootstrap_secret rate_limit e m in
      grind (arith, step-left t e m pos (h.0, tt), validations_limited t next es pos h.1)
