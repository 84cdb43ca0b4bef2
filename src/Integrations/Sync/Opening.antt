-- ===== src/Integrations/Sync/Opening.antt =====
-- A circuit opens at the threshold, and stays open.
use crmtsi_app.Common.{
  ℕ, ◌+◌, ◌≤◌, ◌<◌, ◌≡◌, refl, sym, ap, ◌∙◌, subst, String, true, false, ◌||◌, Option, none, some,
  List, [], ◌∷◌, Result, ok, err, str_eq, leb, arith, eq_iff, Bool-cases, inl, inr, get, put,
  get-put,
}
use crmtsi_app.Integrations.Sync.{
  Circuit, Service, new_service, Entity, Upserted, written, version_conflict, retryable, thrown,
  Answer, circuit_open, duplicate, key_of, failures_of, opened, is_known, failed, settle,
  sync_version, sync, run,
}

-- A circuit is open exactly from the threshold on, which it does not pass.
abbrev pub Counts : ℕ → Option Circuit → Type 0
Counts threshold none = Unit {0}
Counts threshold (some c) = (c.is_open ≡ leb threshold c.failures) × (c.failures ≤ threshold)

new_service-Counts : (threshold : ℕ) (i : String) → Counts threshold (get i new_service.circuits)
unfolding get
new_service-Counts threshold i = tt

-- One more failure of a circuit that is closed.
Counts-failed :
    (threshold : ℕ) (o : Option Circuit)
    → 0 < threshold
    → opened o ≡ false
    → Counts threshold o
    → Counts threshold (
        some (record { failures = failures_of o + 1; is_open = leb threshold (failures_of o + 1) }))
Counts-failed threshold none pos closed h = (refl, omega (arith, pos))
Counts-failed threshold (some c) pos closed h = (refl, ground (arith, h, closed))

-- An entry that is set, or another one.
get-put_cases :
    (P : Option Circuit → Type 0) (i key : String) (c : Circuit) (m : List (String × Circuit))
    → (key ≡ i → P (some c))
    → (str_eq key i ≡ false → P (get i m))
    → P (get i (put key c m))
get-put_cases P i key c m this other = elim (Bool-cases (str_eq key i)) [
  | inl same ↦ subst P (sym (get-put i key c m ∙ (rw same refl))) (this ((eq_iff key i).0 same))
  | inr differs ↦ subst P (sym (get-put i key c m ∙ (rw differs refl))) (other differs)
]

module _ {ℓ} {W : Type ℓ} (upsert : Entity → Option String → W → W × Upserted) (threshold : ℕ) where
  abbrev AllCount : Service → Type 0
  AllCount s = (i : String) → Counts threshold (get i s.circuits)

  settle-AllCount :
      (e : Entity) (version : ℕ) (s : Service) (answer : W × Upserted)
      → 0 < threshold
      → opened (get e.integration s.circuits) ≡ false
      → AllCount s
      → AllCount (settle upsert threshold e version s answer).0.0
  unfolding settle
  settle-AllCount e version s (w, written x) pos closed h i =
      get-put_cases (Counts threshold) i e.integration (record { failures = 0; is_open = false })
        s.circuits (λ _. (ground (arith, pos), omega arith)) (λ _. h i)
  settle-AllCount e version s (w, version_conflict message) pos closed h i = h i
  settle-AllCount e version s (w, thrown code) pos closed h i = h i
  settle-AllCount e version s (w, retryable message) pos closed h i =
      get-put_cases (Counts threshold) i e.integration
        (failed upsert threshold (failures_of (get e.integration s.circuits) + 1)) s.circuits
        (λ _. Counts-failed threshold (get e.integration s.circuits) pos closed (h e.integration))
        (λ _. h i)

  -- What a call with a version does, by the circuit and the record that it finds.
  module _ (P : (Service × W) × Result Answer → Type 0) (e : Entity) (s : Service) (w : W) where
    sync_version_intro :
        (v : Option ℕ)
        → ((code : String) → P ((s, w), err code))
        → (opened (get e.integration s.circuits) ≡ true → P ((s, w), ok circuit_open))
        → ((x : Option String) → P ((s, w), ok (duplicate x)))
        → ((version : ℕ) (answer : W × Upserted)
            → opened (get e.integration s.circuits) ≡ false
            → P (settle upsert threshold e version s answer))
        → P (sync_version upsert threshold e v (s, w))
    unfolding sync_version
    sync_version_intro none refused open_circuit known settled = refused _
    sync_version_intro (some version) refused open_circuit known settled =
        elim (Bool-cases (opened (get e.integration s.circuits))) [
          | inl is_open ↦ rw is_open (open_circuit is_open)
          | inr closed ↦ elim (Bool-cases (is_known version (get (key_of e) s.records))) [
            | inl old ↦ rw (closed, old) (known _)
            | inr new ↦ rw (closed, new) (settled version _ closed)
          ]
        ]

    sync_intro :
        ((code : String) → P ((s, w), err code))
        → (opened (get e.integration s.circuits) ≡ true → P ((s, w), ok circuit_open))
        → ((x : Option String) → P ((s, w), ok (duplicate x)))
        → ((version : ℕ) (answer : W × Upserted)
            → opened (get e.integration s.circuits) ≡ false
            → P (settle upsert threshold e version s answer))
        → P (sync upsert threshold e (s, w))
    unfolding sync
    sync_intro refused open_circuit known settled =
        elim (Bool-cases
          (str_eq e.tenant_id "" || str_eq e.integration "" || str_eq e.entity_id "")) [
            | inl absent ↦ rw absent (refused _)
            | inr given ↦ rw given (sync_version_intro e.version refused open_circuit known settled)
          ]

  sync-AllCount :
      (e : Entity) (s : Service) (w : W)
      → 0 < threshold
      → AllCount s
      → AllCount (sync upsert threshold e (s, w)).0.0
  sync-AllCount e s w pos h =
      sync_intro (λ r. AllCount r.0.0) e s w (λ _. h) (λ _. h) (λ _. h)
        (λ version answer closed. settle-AllCount e version s answer pos closed h)

  settle-circuit :
      (i : String) (e : Entity) (version : ℕ) (s : Service) (answer : W × Upserted)
      → str_eq e.integration i ≡ false
      → get i (settle upsert threshold e version s answer).0.0.circuits ≡ get i s.circuits
  unfolding settle
  settle-circuit i e version s (w, written x) other =
      get-put i e.integration (record { failures = 0; is_open = false }) s.circuits
      ∙ (rw other refl)
  settle-circuit i e version s (w, version_conflict message) other = refl
  settle-circuit i e version s (w, thrown code) other = refl
  settle-circuit i e version s (w, retryable message) other =
      get-put i e.integration
        (failed upsert threshold (failures_of (get e.integration s.circuits) + 1)) s.circuits
      ∙ (rw other refl)

  -- A call leaves an open circuit.
  sync-open :
      (i : String) (e : Entity) (s : Service) (w : W)
      → opened (get i s.circuits) ≡ true
      → get i (sync upsert threshold e (s, w)).0.0.circuits ≡ get i s.circuits
  sync-open i e s w is_open =
      sync_intro (λ r. get i r.0.0.circuits ≡ get i s.circuits) e s w (λ _. refl) (λ _. refl)
        (λ _. refl)
        (λ version answer closed.
          settle-circuit i e version s answer
            (ground (arith, closed, is_open, eq_iff e.integration i)))

  run-AllCount :
      (entities : List Entity) (s : Service) (w : W)
      → 0 < threshold
      → AllCount s
      → AllCount (run upsert threshold entities (s, w)).0
  unfolding run
  run-AllCount [] s w pos h = h
  run-AllCount (e ∷ entities) s w pos h =
      let next = (sync upsert threshold e (s, w)).0 in
      run-AllCount entities next.0 next.1 pos (sync-AllCount e s w pos h)

  run-open :
      (i : String) (entities : List Entity) (s : Service) (w : W)
      → opened (get i s.circuits) ≡ true
      → opened (get i (run upsert threshold entities (s, w)).0.circuits) ≡ true
  unfolding run
  run-open i [] s w h = h
  run-open i (e ∷ entities) s w h =
      let next = (sync upsert threshold e (s, w)).0 in
      run-open i entities next.0 next.1 (ap opened (sync-open i e s w h) ∙ h)

  open_answered :
      (e : Entity) (version : ℕ) (s : Service) (w : W)
      → e.version ≡ some version
      → (str_eq e.tenant_id "" || str_eq e.integration "" || str_eq e.entity_id "") ≡ false
      → opened (get e.integration s.circuits) ≡ true
      → sync upsert threshold e (s, w) ≡ ((s, w), ok circuit_open)
  unfolding sync sync_version
  open_answered e version s w v given is_open = rw (given, v, is_open) refl

  -- An open circuit has the failures of the threshold.
  opened-Counts :
      (o : Option Circuit) → opened o ≡ true → Counts threshold o → failures_of o ≡ threshold
  opened-Counts none is_open h = absurd (cc is_open)
  opened-Counts (some c) is_open h = ground (arith, h, is_open)

  -- With a threshold above 0, if after any calls on a new service, each made when the one before has
  -- ended, the circuit of an integration is open, its failures are as many as the threshold, and after
  -- any further calls an entity of the integration, of any tenant, with all its names and a version is
  -- answered that the circuit is open, and nothing changes.
  pub open_circuit_stays :
      (entities later : List Entity) (w : W) (e : Entity) (version : ℕ)
      → 0 < threshold
      → e.version ≡ some version
      → (str_eq e.tenant_id "" || str_eq e.integration "" || str_eq e.entity_id "") ≡ false
      → let state = run upsert threshold entities (new_service, w) in
        let circuit = get e.integration state.0.circuits in
        let last = run upsert threshold later state in
        opened circuit ≡ true
        → (failures_of circuit ≡ threshold)
          × (sync upsert threshold e last ≡ (last, ok circuit_open))
  open_circuit_stays entities later w e version pos v given is_open =
      let state = run upsert threshold entities (new_service, w) in
      let last = run upsert threshold later state in
      (
        opened-Counts (get e.integration state.0.circuits) is_open
            (run-AllCount entities new_service w pos (new_service-Counts threshold) e.integration),
        open_answered e version last.0 last.1 v given
            (run-open e.integration later state.0 state.1 is_open),
      )
