-- ===== src/Providers/Service/Calls/Revoked.antt =====
-- What the calls never undo: at most one active row, and a revoked one.
use crmtsi_app.Common.{
  ℕ, ◌≡◌, ◌≤◌, refl, ap, sym, ◌∙◌, String, Bool, true, false, ◌&&◌, ◌||◌, Option, none, some, List,
  [], ◌∷◌, ◌++◌, if◌then◌else◌, any_of, arith, Bool-cases, inl, inr, if_intro, err,
}
use crmtsi_app.Providers.Service.{
  Config, of_provider, is_revoked, rank, first_of, get_provider, is_dropped, guarded,
  update_configs,
}
use crmtsi_app.Providers.Service.OneActive.{
  active_count, update_configs-active_count, inserted_draft, none_yet,
}
use crmtsi_app.Providers.Service.Calls.{
  Environment, Store, Call, creates, activates, deactivates, rotates, step, run, create_provider,
  activate_provider, deactivate_provider, rotate_credentials, draft_row, normal_config, stored,
  set_version, set_active, set_revoked,
}

abbrev pub empty : Store
empty = record { configs = []; credentials = []; audits = [] }

abbrev pub revoked_for : (t p : String) → Config → Bool
revoked_for t p r = of_provider t p r && is_revoked r.status

any_of-append {ℓ} :
    {A : Type ℓ} (p : A → Bool) (xs ys : List A) → any_of p (xs ++ ys) ≡ any_of p xs || any_of p ys
any_of-append p [] ys = refl
any_of-append p (x ∷ xs) ys = ground (arith, any_of-append p xs ys)

first_high : (r : Config) (o : Option Config) → 2 ≤ rank r.status → 2 ≤ rank (first_of r o).status
unfolding first_of
first_high r none h = h
first_high r (some q) h = ground (arith, h)

rest_high : (r q : Config) → 2 ≤ rank q.status → 2 ≤ rank (first_of r (some q)).status
unfolding first_of
rest_high r q h = ground (arith, h)

-- A revoked row comes before drafts and active rows.
revoked_first :
    (t p : String) (rows : List Config)
    → any_of (revoked_for t p) rows ≡ true
    → (r : Config) × (get_provider t p rows ≡ some r) × (2 ≤ rank r.status)
unfolding get_provider
revoked_first t p [] h = cc
revoked_first t p (r ∷ rows) h = elim (Bool-cases (revoked_for t p r)) [
  | inl e ↦ (
    first_of r (get_provider t p rows),
    ground (arith, e),
    first_high r (get_provider t p rows) (ground (arith, e)),
  )
  | inr e ↦
      let (q, at, high) = revoked_first t p rows (ground (arith, h, e)) in
      elim (Bool-cases (of_provider t p r)) [
        | inl mine ↦ (first_of r (some q), rw (mine, at) refl, rest_high r q high)
        | inr other ↦ (q, rw (other, at) refl, high)
      ]
]

-- Updates that leave revoked rows as they are, the trigger's part included.
abbrev KeepsRevoked : (Config → Config) → Type 0
KeepsRevoked f =
    (t p : String) (others : List Config) (r : Config)
    → revoked_for t p r ≡ true
    → revoked_for t p (guarded f others r) ≡ true

chosen_revoked :
    (t p u q : String) (f : Config → Config)
    → KeepsRevoked f
    → (others : List Config) (r : Config) → revoked_for t p r ≡ true
    → revoked_for t p (if of_provider u q r then guarded f others r else r) ≡ true
chosen_revoked t p u q f k others r h =
    if_intro (λ x. revoked_for t p x ≡ true) (of_provider u q r) (guarded f others r) r
      (λ _. k t p others r h) (λ _. h)

moved_on :
    (a b c d : Bool)
    → (b ≡ true → d ≡ true)
    → a || (b || c) ≡ true
    → (a || (d || false)) || c ≡ true
moved_on true b c d f h = refl
moved_on false b true d f h = ground arith
moved_on false true false d f h = ground (arith, f refl)
moved_on false false false d f h = cc

update_configs-revoked :
    (t p u q : String) (f : Config → Config)
    → KeepsRevoked f
    → (past rows : List Config) → any_of (revoked_for t p) (past ++ rows) ≡ true
    → any_of (revoked_for t p) (update_configs u q f past rows) ≡ true
unfolding update_configs
update_configs-revoked t p u q f k past [] h =
    ground (arith, h, any_of-append (revoked_for t p) past [])
update_configs-revoked t p u q f k past (r ∷ rows) h =
    let new = if of_provider u q r then guarded f (past ++ rows) r else r in
    let was = sym (any_of-append (revoked_for t p) past (r ∷ rows)) ∙ h in
    let moved =
      moved_on (any_of (revoked_for t p) past) (revoked_for t p r) (any_of (revoked_for t p) rows)
        (revoked_for t p new) (chosen_revoked t p u q f k (past ++ rows) r) was in
    let front = any_of-append (revoked_for t p) past (new ∷ []) in
    update_configs-revoked t p u q f k (past ++ new ∷ []) rows (
      any_of-append (revoked_for t p) (past ++ new ∷ []) rows
      ∙ ap (λ x. x || any_of (revoked_for t p) rows) front
      ∙ moved)

set_version-KeepsRevoked : (v : ℕ) → KeepsRevoked (set_version v)
unfolding is_dropped
set_version-KeepsRevoked v t p others r h = ground (arith, h)

set_active-KeepsRevoked : (now : ℕ) → KeepsRevoked (set_active now)
unfolding is_dropped
set_active-KeepsRevoked now t p others r h = ground (arith, h)

set_revoked-KeepsRevoked : KeepsRevoked set_revoked
unfolding is_dropped
set_revoked-KeepsRevoked t p others r h = ground (arith, h)

module _ (env : Environment) where
  step-active_count :
      (t p u q : String) (c : Call) (s : Store)
      → active_count t p s.configs ≤ 1
      → active_count t p (step env u q c s).configs ≤ 1
  unfolding step create_provider activate_provider deactivate_provider rotate_credentials
  step-active_count t p u q (creates salt iv config credentials) s h =
      let n = draft_row u q (normal_config env q config) in
      let version = (stored env salt iv u q credentials s).1 in
      let drafted = inserted_draft t p s.configs n refl h in
      ground (
        arith,
        h,
        update_configs-active_count t p u q (set_version version) [] (s.configs ++ n ∷ []) drafted,
      )
  step-active_count t p u q (activates now actor_id) s h =
      ground (arith, h, update_configs-active_count t p u q (set_active now) [] s.configs)
  step-active_count t p u q (deactivates actor_id) s h =
      ground (arith, h, update_configs-active_count t p u q set_revoked [] s.configs)
  step-active_count t p u q (rotates salt iv actor_id credentials) s h = ground (arith, h)

  step-revoked :
      (t p u q : String) (c : Call) (s : Store)
      → any_of (revoked_for t p) s.configs ≡ true
      → any_of (revoked_for t p) (step env u q c s).configs ≡ true
  unfolding step create_provider activate_provider deactivate_provider rotate_credentials
  step-revoked t p u q (creates salt iv config credentials) s h =
      let n = draft_row u q (normal_config env q config) in
      let still : any_of (revoked_for t p) (s.configs ++ n ∷ []) ≡ true =
        ground (arith, h, any_of-append (revoked_for t p) s.configs (n ∷ [])) in
      let version = (stored env salt iv u q credentials s).1 in
      let kept =
        update_configs-revoked t p u q (set_version version) (set_version-KeepsRevoked version) []
          (s.configs ++ n ∷ []) still in
      ground (arith, h, kept)
  step-revoked t p u q (activates now actor_id) s h = ground (
    arith,
    h,
    update_configs-revoked t p u q (set_active now) (set_active-KeepsRevoked now) [] s.configs,
  )
  step-revoked t p u q (deactivates actor_id) s h =
      ground
        (arith, h, update_configs-revoked t p u q set_revoked set_revoked-KeepsRevoked [] s.configs)
  step-revoked t p u q (rotates salt iv actor_id credentials) s h = ground (arith, h)

  run-active_count :
      (t p : String) (calls : List (String × String × Call)) (s : Store)
      → active_count t p s.configs ≤ 1
      → active_count t p (run env s calls).configs ≤ 1
  unfolding run
  run-active_count t p [] s h = h
  run-active_count t p ((u, q, c) ∷ calls) s h =
      run-active_count t p calls (step env u q c s) (step-active_count t p u q c s h)

  -- From an empty store, after any calls, at most one configuration of each tenant's provider is active.
  pub one_active :
      (calls : List (String × String × Call)) (t p : String)
      → active_count t p (run env empty calls).configs ≤ 1
  one_active calls t p = run-active_count t p calls empty (none_yet t p)

  run-revoked :
      (t p : String) (calls : List (String × String × Call)) (s : Store)
      → any_of (revoked_for t p) s.configs ≡ true
      → any_of (revoked_for t p) (run env s calls).configs ≡ true
  unfolding run
  run-revoked t p [] s h = h
  run-revoked t p ((u, q, c) ∷ calls) s h =
      run-revoked t p calls (step env u q c s) (step-revoked t p u q c s h)

  refused_high :
      (now : ℕ) (t actor_id p : String) (s : Store) (r : Config)
      → get_provider t p s.configs ≡ some r
      → 2 ≤ rank r.status
      → activate_provider env now t actor_id p s ≡ (s, err "INVALID_STATE_FOR_ACTIVATION")
  unfolding activate_provider
  refused_high now t actor_id p s r e high = ground (arith, e, high)

  -- Once a tenant's provider has a revoked row, after any calls an activation of that provider is refused
  -- and changes nothing.
  pub never_active_again :
      (s : Store) (t p : String)
      → any_of (revoked_for t p) s.configs ≡ true
      → (calls : List (String × String × Call)) (now : ℕ) (actor_id : String)
      → activate_provider env now t actor_id p (run env s calls)
        ≡ (run env s calls, err "INVALID_STATE_FOR_ACTIVATION")
  never_active_again s t p h calls now actor_id =
      let (r, e, high) = revoked_first t p (run env s calls).configs (run-revoked t p calls s h) in
      refused_high now t actor_id p (run env s calls) r e high
