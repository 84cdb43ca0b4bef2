-- ===== src/Setup/Service/Calls/Moves.antt =====
-- The promise of the service for each tenant: its status moves as `Move` says, and a configuration is
-- active only if it passed the checks.
use crmtsi_app.Common.{
  ℕ, ◌+◌, ◌≡◌, refl, subst, ◌⊎◌, inl, String, Option, none, some, List, [], ◌∷◌, ok, arith, Text,
}
use crmtsi_app.Providers.Endpoint.{Url}
use crmtsi_app.Setup.{State, uninitialized, bootstrapped, draft, validated, activating, active}
use crmtsi_app.Setup.Validation.{Draft, validate_provider_config}
use crmtsi_app.Setup.Service.{
  Row, Limits, Status, status_of, get_setup, get_setup_status, get_active_config, active_of,
  check_draft,
}
use crmtsi_app.Setup.Service.Calls.{
  Store, Call, bootstraps, drafts, validates, activates, settles, rotates, step, run,
}
use crmtsi_app.Setup.Service.Calls.Views.{View, view_of, local, step_view}

-- The moves that the set-up of a tenant may make, with the versions before and after.
abbrev pub Move : State → ℕ → State → ℕ → Type 0
Move uninitialized n bootstrapped m = (n ≡ 0) × (m ≡ 1)
Move uninitialized n uninitialized m = m ≡ n
Move bootstrapped n bootstrapped m = m ≡ n
Move bootstrapped n draft m = m ≡ n + 1
Move draft n draft m = (m ≡ n) ⊎ (m ≡ n + 1)
Move draft n validated m = m ≡ n
Move validated n draft m = m ≡ n + 1
Move validated n validated m = m ≡ n
Move validated n activating m = m ≡ n
Move activating n activating m = m ≡ n
Move activating n active m = m ≡ n + 1
Move activating n validated m = m ≡ n
Move active n active m = m ≡ n
Move s n t m = ⊥

abbrev pub Moves : Status → Status → Type 0
Moves s t = Move s.state s.version t.state t.version

abbrev pub empty : Store
empty = record { rows = []; settings = []; audits = []; in_flight = [] }

module _ (parse_url : Text → Option Url) where
  abbrev pub IsAccepted : Option Draft → Type 0
  IsAccepted none = ⊥
  IsAccepted (some d) = check_draft parse_url (some d) ≡ ok tt

  -- What each state says of the row and of the activation in flight.
  abbrev Fits : State → Row → Option (String × Draft) → Type 0
  Fits uninitialized r f = ⊥
  Fits bootstrapped r f = (r.active_config ≡ none) × (f ≡ none)
  Fits draft r f = IsAccepted r.draft_config × (r.active_config ≡ none) × (f ≡ none)
  Fits validated r f = IsAccepted r.draft_config × (r.active_config ≡ none) × (f ≡ none)
  Fits activating r f = IsAccepted r.draft_config × (r.active_config ≡ none)
  Fits active r f = IsAccepted r.active_config × (f ≡ none)

  abbrev pub IsSound : View → Type 0
  IsSound v = elim v.row [ none ↦ v.flight ≡ none | some r ↦ Fits r.state r v.flight ]

module _ (sha256 : String → String) (parse_url : Text → Option Url) (limits : Limits) where
  draft-IsAccepted :
      (config : Option Draft) → check_draft parse_url config ≡ ok tt → IsAccepted parse_url config
  unfolding validate_provider_config
  draft-IsAccepted none e = ground (arith, e)
  draft-IsAccepted (some d) e = e

  abbrev Advances : View → View → Type 0
  Advances v w = Moves (status_of v.row) (status_of w.row) × IsSound parse_url w

  local_absent :
      (u : String) (c : Call) (f : Option (String × Draft))
      → f ≡ none
      → Advances
          (record { row = none; flight = f })
          (local sha256 parse_url limits u c (record { row = none; flight = f }))
  local_absent u (bootstraps now secret bootstrap_secret salt expires_at) f h = ground (arith, h)
  local_absent u (drafts config) f h = ground (arith, h)
  local_absent u (validates now token) f h = ground (arith, h)
  local_absent u activates f h = ground (arith, h)
  local_absent u (settles actor_id ciphertext out) f h = ground (arith, h)
  local_absent u (rotates now actor_id old_secret new_secret salt audited) f h = ground (arith, h)

  local_present :
      (u : String) (c : Call) (r : Row) (f : Option (String × Draft)) (s : State)
      → r.state ≡ s
      → Fits parse_url s r f
      → Advances
          (record { row = some r; flight = f })
          (local sha256 parse_url limits u c (record { row = some r; flight = f }))
  local_present u (bootstraps now secret bootstrap_secret salt expires_at) r f s e h =
      ground (arith, e, h)
  local_present u (drafts config) r f s e h = ground (arith, e, h, draft-IsAccepted config)
  local_present u (validates now token) r f s e h = ground (arith, e, h)
  local_present u activates r f s e h = ground (arith, e, h)
  local_present u (settles actor_id ciphertext out) r f s e h = ground (arith, e, h)
  local_present u (rotates now actor_id old_secret new_secret salt audited) r f s e h =
      ground (arith, e, h)

  abbrev Sound : Store → Type 0
  Sound s = (t : String) → IsSound parse_url (view_of t s)

  abbrev view : Option Row → Option (String × Draft) → View
  view o f = record { row = o; flight = f }

  local-Advances :
      (u : String) (c : Call) (o : Option Row) (f : Option (String × Draft))
      → IsSound parse_url (view o f)
      → Advances (view o f) (local sha256 parse_url limits u c (view o f))
  local-Advances u c none f h = local_absent u c f h
  local-Advances u c (some r) f h = local_present u c r f r.state refl h

  rests :
      (r : Row) (f : Option (String × Draft)) (s : State)
      → Fits parse_url s r f
      → Move s r.version s r.version
  rests r f uninitialized h = absurd h
  rests r f bootstrapped h = refl
  rests r f draft h = inl refl
  rests r f validated h = refl
  rests r f activating h = refl
  rests r f active h = refl

  stays_put :
      (o : Option Row) (f : Option (String × Draft))
      → IsSound parse_url (view o f)
      → Advances (view o f) (view o f)
  stays_put none f h = (refl, h)
  stays_put (some r) f h = (rests r f r.state h, h)

  step-Advances :
      (u t : String) (c : Call) (s : Store)
      → IsSound parse_url (view_of t s)
      → Advances (view_of t s) (view_of t (step sha256 parse_url limits u c s))
  step-Advances u t c s h =
      step_view sha256 parse_url limits Advances (IsSound parse_url)
        (λ u c v k. local-Advances u c v.row v.flight k) (λ v k. stays_put v.row v.flight k) u t c s
        h

  abbrev pub reached : List (String × Call) → Store
  reached calls = run sha256 parse_url limits empty calls

  run-Sound :
      (t : String) (calls : List (String × Call)) (s : Store)
      → IsSound parse_url (view_of t s)
      → IsSound parse_url (view_of t (run sha256 parse_url limits s calls))
  unfolding run
  run-Sound t [] s h = h
  run-Sound t ((u, c) ∷ calls) s h =
      run-Sound t calls (step sha256 parse_url limits u c s) (step-Advances u t c s h).1

  reached-Sound :
      (t : String) (calls : List (String × Call)) → IsSound parse_url (view_of t (reached calls))
  unfolding get_setup
  reached-Sound t calls = run-Sound t calls empty refl

  -- From an empty database, after any calls of any tenants, every further call moves the status that
  -- getSetupStatus answers for a tenant only as `Move` allows.
  pub setup-Moves :
      (calls : List (String × Call)) (u t : String) (c : Call)
      → Moves
          (get_setup_status t (reached calls).rows)
          (get_setup_status t (step sha256 parse_url limits u c (reached calls)).rows)
  unfolding get_setup_status
  setup-Moves calls u t c = (step-Advances u t c (reached calls) (reached-Sound t calls)).0

  active_accepted :
      (r : Row) (f : Option (String × Draft)) (d : Draft) (s : State)
      → Fits parse_url s r f
      → r.active_config ≡ some d
      → check_draft parse_url (some d) ≡ ok tt
  active_accepted r f d uninitialized h e = absurd h
  active_accepted r f d active h e = subst (IsAccepted parse_url) e h.0
  active_accepted r f d bootstrapped h e = cc
  active_accepted r f d draft h e = cc
  active_accepted r f d validated h e = cc
  active_accepted r f d activating h e = cc

  answer_accepted :
      (o : Option Row) (f : Option (String × Draft)) (d : Draft)
      → IsSound parse_url (view o f)
      → active_of o ≡ some d
      → check_draft parse_url (some d) ≡ ok tt
  answer_accepted none f d h e = ground (arith, e)
  answer_accepted (some r) f d h e = active_accepted r f d r.state h e

  -- From an empty database, after any calls of any tenants, a configuration that getActiveConfig answers
  -- passed the checks of setDraftConfig.
  pub active_checked :
      (calls : List (String × Call)) (t : String) (d : Draft)
      → get_active_config t (reached calls).rows ≡ some d
      → check_draft parse_url (some d) ≡ ok tt
  unfolding get_active_config
  active_checked calls t d e =
      answer_accepted (view_of t (reached calls)).row (view_of t (reached calls)).flight d
        (reached-Sound t calls) e
