-- ===== src/Setup/Service/Calls/Over.antt =====
-- A set-up that is over stays as it is.
use crmtsi_app.Common.{◌≡◌, refl, ◌∙◌, ◌⊎◌, String, Option, none, some, List, [], ◌∷◌, arith, Text}
use crmtsi_app.Providers.Endpoint.{Url}
use crmtsi_app.Setup.{active, activating}
use crmtsi_app.Setup.Validation.{Draft}
use crmtsi_app.Setup.Service.{Row, Limits, Status, status_of, active_of}
use crmtsi_app.Setup.Service.Calls.{
  Store, Call, bootstraps, drafts, validates, activates, settles, rotates, step, run,
}
use crmtsi_app.Setup.Service.Calls.Views.{View, view_of, local, step_view}

abbrev view : Option Row → Option (String × Draft) → View
view o f = record { row = o; flight = f }

-- The set-up is over: active, or left in the middle of an activation that the process did not end.
abbrev pub IsOver : Option Row → Option (String × Draft) → Type 0
IsOver none f = ⊥
IsOver (some r) f = ((r.state ≡ active) ⊎ (r.state ≡ activating)) × (f ≡ none)

-- What is seen of a tenant's set-up.
abbrev pub shown : View → Status × Option Draft
shown v = (status_of v.row, active_of v.row)

module _ (sha256 : String → String) (parse_url : Text → Option Url) (limits : Limits) where
  local-IsOver :
      (u : String) (c : Call) (o : Option Row) (f : Option (String × Draft))
      → IsOver o f
      → (shown (local sha256 parse_url limits u c (view o f)) ≡ shown (view o f))
        × IsOver
            (local sha256 parse_url limits u c (view o f)).row
            (local sha256 parse_url limits u c (view o f)).flight
  local-IsOver u c none f h = absurd h
  local-IsOver u (bootstraps now secret bootstrap_secret salt expires_at) (some r) f h =
      ground (arith, h)
  local-IsOver u (drafts config) (some r) f h = ground (arith, h)
  local-IsOver u (validates now token) (some r) f h = ground (arith, h)
  local-IsOver u activates (some r) f h = ground (arith, h)
  local-IsOver u (settles actor_id ciphertext out) (some r) f h = ground (arith, h)
  local-IsOver u (rotates now actor_id old_secret new_secret salt audited) (some r) f h =
      ground (arith, h)

  step-IsOver :
      (u t : String) (c : Call) (s : Store)
      → IsOver (view_of t s).row (view_of t s).flight
      → (shown (view_of t (step sha256 parse_url limits u c s)) ≡ shown (view_of t s))
        × IsOver
            (view_of t (step sha256 parse_url limits u c s)).row
            (view_of t (step sha256 parse_url limits u c s)).flight
  step-IsOver u t c s h =
      step_view sha256 parse_url limits (λ v w. (shown w ≡ shown v) × IsOver w.row w.flight)
        (λ v. IsOver v.row v.flight) (λ u c v k. local-IsOver u c v.row v.flight k)
        (λ v k. (refl, k)) u t c s h

  -- Where a tenant's row is active, or is activating, and no activation of the tenant is in flight, no
  -- calls of any tenants change the status or the active configuration that are answered for it.
  over_kept :
      (t : String) (calls : List (String × Call)) (s : Store)
      → IsOver (view_of t s).row (view_of t s).flight
      → shown (view_of t (run sha256 parse_url limits s calls)) ≡ shown (view_of t s)
  unfolding run
  over_kept t [] s h = refl
  over_kept t ((u, c) ∷ calls) s h =
      let (same, later) = step-IsOver u t c s h in
      over_kept t calls (step sha256 parse_url limits u c s) later ∙ same
