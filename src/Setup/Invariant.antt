-- ===== src/Setup/Invariant.antt =====
-- What holds of the set-up after any calls.
use crmtsi_app.Common.{
  ℕ, String, true, ◌≡◌, ◌≢◌, refl, ap, ◌∙◌, Option, none, some, List, [], ◌∷◌, arith, eq_iff, has,
  ◌⊎◌, inl, inr, In, here, there, All, subst,
}
use crmtsi_app.Setup.{
  State, uninitialized, bootstrapped, draft, validated, activating, active, Draft, Machine, new,
  Event, bootstraps, activates, drafts, validates, settles, step, run, value, required_fields,
  allowed_providers, missing_field,
}

-- A draft that names an allowed provider and every field that the provider needs.
abbrev pub IsComplete : Draft → Type 0
IsComplete d =
    (has allowed_providers d.provider ≡ true)
    × All (λ f. value d.config f.0 ≢ "") (required_fields d.provider)

-- The stored draft is there and complete.
abbrev pub HasDraft : Option Draft → Type 0
HasDraft none = ⊥
HasDraft (some d) = IsComplete d

-- What each state says of the rest of the machine.
abbrev pub Fits : State → Machine → Type 0
Fits uninitialized m = (m.version ≡ 0) × (m.draft_config ≡ none) × (m.pending ≡ 0)
Fits bootstrapped m = (m.version ≡ 1) × (m.draft_config ≡ none) × (m.pending ≡ 0)
Fits draft m = (m.version ≡ 1) × HasDraft m.draft_config × (m.pending ≡ 0)
Fits validated m =
    (m.version ≡ 1) × HasDraft m.draft_config × (m.secrets_hash ≢ none) × (m.pending ≡ 0)
Fits activating m =
    (m.version ≡ 1) × HasDraft m.draft_config × (m.secrets_hash ≢ none) × (m.pending ≡ 1)
Fits active m =
    (m.version ≡ 1) × (m.draft_config ≡ none) × (m.secrets_hash ≡ none) × (m.pending ≡ 0)

abbrev pub Inv : Machine → Type 0
Inv m = Fits m.state m

missing_field-All :
    (config fields : List (String × String))
    → missing_field config fields ≡ none
    → All (λ f. value config f.0 ≢ "") fields
unfolding missing_field
missing_field-All config [] e = tt
missing_field-All config ((field, upper) ∷ fields) e =
    (ground (arith, eq_iff (value config field) ""), missing_field-All config fields (ground arith))

module _ (hash : String → String) (bootstrap_secret : String) (rate_limit : ℕ) where
  step-Inv :
      (e : Event) (m : Machine) (s : State)
      → m.state ≡ s
      → Fits s m
      → Inv (step hash bootstrap_secret rate_limit e m)
  unfolding step
  step-Inv (bootstraps tenant_id secret) m uninitialized e v = ground (arith, e, v)
  step-Inv (bootstraps tenant_id secret) m _ e v = ground (arith, e, v)
  step-Inv (activates c) m uninitialized e v = ground (arith, e, v)
  step-Inv (activates c) m _ e v = ground (arith, e, v)
  step-Inv (drafts d) m uninitialized e v = ground (arith, e, v)
  step-Inv (drafts d) m _ e v =
      ground (arith, e, v, missing_field-All d.config (required_fields d.provider))
  step-Inv (validates now token) m uninitialized e v = ground (arith, e, v)
  step-Inv (validates now token) m _ e v = ground (arith, e, v)
  step-Inv (settles done) m uninitialized e v = ground (arith, e, v)
  step-Inv (settles done) m _ e v = ground (arith, e, v)

  run-Inv :
      (m : Machine) (es : List Event) → Inv m → Inv (run hash bootstrap_secret rate_limit m es)
  unfolding run
  run-Inv m [] v = v
  run-Inv m (e ∷ es) v =
      run-Inv (step hash bootstrap_secret rate_limit e m) es (step-Inv e m m.state refl v)

  -- Whatever calls are made, and however their promises end: a validated or activating set-up has
  -- a complete draft of an allowed provider and a secret, an active one keeps neither, and exactly
  -- the activating one waits for a promise.
  pub setup_invariant : (es : List Event) → Inv (run hash bootstrap_secret rate_limit new es)
  setup_invariant es = run-Inv new es (refl, refl, refl)

  step_active :
      (e : Event) (m : Machine)
      → m.state ≡ active
      → m.pending ≡ 0
      → step hash bootstrap_secret rate_limit e m ≡ m
  unfolding step
  step_active (bootstraps tenant_id secret) m a p = ground arith
  step_active (activates c) m a p = ground arith
  step_active (drafts d) m a p = ground arith
  step_active (validates now token) m a p = ground arith
  step_active (settles done) m a p = ground arith

  run_active :
      (m : Machine) (es : List Event)
      → m.state ≡ active
      → m.pending ≡ 0
      → run hash bootstrap_secret rate_limit m es ≡ m
  unfolding run
  run_active m [] a p = refl
  run_active m (e ∷ es) a p =
      ap (λ k. run hash bootstrap_secret rate_limit k es) (step_active e m a p)
      ∙ run_active m es a p

  Fits-active : (m : Machine) (s : State) → s ≡ active → Fits s m → m.pending ≡ 0
  Fits-active m active a v = v.3
  Fits-active m _ a v = cc

  -- An active set-up is closed: whatever is called from then on, nothing changes.
  pub active_closed :
      (es later : List Event)
      → (run hash bootstrap_secret rate_limit new es).state ≡ active
      → run hash bootstrap_secret rate_limit (run hash bootstrap_secret rate_limit new es) later
        ≡ run hash bootstrap_secret rate_limit new es
  active_closed es later a =
      let m = run hash bootstrap_secret rate_limit new es in
      run_active m later a (Fits-active m m.state a (setup_invariant es))

abbrev pub IsBootstrap : (hash : String → String) (bootstrap_secret : String) → Event → Type 0
IsBootstrap hash bootstrap_secret (bootstraps tenant_id secret) =
    (tenant_id ≡ "") × (secret ≢ "") × (hash secret ≡ hash bootstrap_secret)
IsBootstrap hash bootstrap_secret _ = ⊥

module _ (hash : String → String) (bootstrap_secret : String) (rate_limit : ℕ) where
  step_uninitialized :
      (e : Event) (m : Machine)
      → m.state ≡ uninitialized
      → m.pending ≡ 0
      → ((step hash bootstrap_secret rate_limit e m ≡ m)) ⊎ IsBootstrap hash bootstrap_secret e
  unfolding step
  step_uninitialized (bootstraps tenant_id secret) m u p =
      ground
        (arith, eq_iff tenant_id "", eq_iff secret "", eq_iff (hash secret) (hash bootstrap_secret))
  step_uninitialized (activates c) m u p = ground arith
  step_uninitialized (drafts d) m u p = ground arith
  step_uninitialized (validates now token) m u p = ground arith
  step_uninitialized (settles done) m u p = ground arith

  -- Nothing but a bootstrap with no tenant and a secret of the right hash takes the set-up out of
  -- its first state.
  pub secret_needed :
      (es : List Event)
      → (run hash bootstrap_secret rate_limit new es).state ≢ uninitialized
      → (e : Event) × In e es × IsBootstrap hash bootstrap_secret e
  unfolding run
  secret_needed [] h = absurd (h refl)
  secret_needed (e ∷ es) h = elim (step_uninitialized e new refl refl) [
    | inl same ↦
        let (b, at, p) =
          secret_needed es (
            subst (λ m. (run hash bootstrap_secret rate_limit m es).state ≢ uninitialized) same
              h) in
        (b, there at, p)
    | inr p ↦ (e, here, p)
  ]
