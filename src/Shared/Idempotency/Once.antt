-- ===== src/Shared/Idempotency/Once.antt =====
-- A key that was claimed stays claimed, for the same request, with the first response.
use crmtsi_app.Common.{
  ℕ, ◌≡◌, ◌≢◌, ◌⊎◌, refl, ap, ◌∙◌, String, Bool, true, false, ◌||◌, ◌&&◌, Option, none, some, List,
  [], ◌∷◌, ◌++◌, map, Result, ok, err, str_eq, str_eq_refl, if◌then◌else◌, find_first, arith,
  eq_iff, Bool-cases, inl, inr,
}
use crmtsi_app.Shared.Idempotency.{
  Record, Scope, is_for, completed, Claim, claimed, repeated, new_record, claim_at,
  claim_idempotency, resolved, resolve_idempotency, Call, claims, resolves, step, run,
}

find_first-append :
    (s : Scope) (rows more : List Record) (r : Record)
    → find_first (is_for s) rows ≡ some r
    → find_first (is_for s) (rows ++ more) ≡ some r
find_first-append s [] more r h = cc
find_first-append s (q ∷ rows) more r h = ground (arith, find_first-append s rows more r)

resolved-is_for :
    (s t : Scope) (response : ℕ × String) (r : Record)
    → is_for s (resolved t response r) ≡ is_for s r
unfolding resolved
resolved-is_for s t response r = ground arith

find_first-resolved :
    (s t : Scope) (response : ℕ × String) (rows : List Record) (r : Record)
    → find_first (is_for s) rows ≡ some r
    → find_first (is_for s) (map (resolved t response) rows) ≡ some (resolved t response r)
find_first-resolved s t response [] r h = cc
find_first-resolved s t response (q ∷ rows) r h =
    ground (arith, resolved-is_for s t response q, find_first-resolved s t response rows r)

claim_at-rows :
    (t : Scope) (hash : String) (o : Option Record) (rows : List Record)
    → ((claim_at t hash o rows).0 ≡ rows)
      ⊎ ((claim_at t hash o rows).0 ≡ rows ++ new_record t hash ∷ [])
unfolding claim_at
claim_at-rows t hash none rows = inr refl
claim_at-rows t hash (some q) rows = inl (ground arith)

-- A claim leaves the records as they are, or adds one at the end.
claim-rows :
    (t : Scope) (hash : String) (rows : List Record)
    → ((claim_idempotency t hash rows).0 ≡ rows)
      ⊎ ((claim_idempotency t hash rows).0 ≡ rows ++ new_record t hash ∷ [])
unfolding claim_idempotency
claim-rows t hash rows = ground (arith, claim_at-rows t hash (find_first (is_for t) rows) rows)

is_for-new_record : (s : Scope) (hash : String) → is_for s (new_record s hash) ≡ true
is_for-new_record s hash =
    ground (arith, str_eq_refl s.tenant_id, str_eq_refl s.key, str_eq_refl s.operation)

find_first-concat :
    (s : Scope) (rows : List Record) (r : Record)
    → find_first (is_for s) rows ≡ none
    → is_for s r ≡ true
    → find_first (is_for s) (rows ++ r ∷ []) ≡ some r
find_first-concat s [] r h k = ground arith
find_first-concat s (q ∷ rows) r h k = ground (arith, find_first-concat s rows r)

-- What a claim of a scope that has a record answers.
claim_known :
    (s : Scope) (hash : String) (rows : List Record) (q : Record)
    → (str_eq s.tenant_id "" || str_eq s.key "" || str_eq s.operation "") ≡ false
    → find_first (is_for s) rows ≡ some q
    → (claim_idempotency s hash rows).1
      ≡ (if str_eq q.request_hash hash then ok (repeated q) else err "IDEMPOTENCY_CONFLICT")
unfolding claim_idempotency claim_at
claim_known s hash rows q given f = ground (arith, given, f)

abbrev is_absent : Scope → Bool
is_absent s = str_eq s.tenant_id "" || str_eq s.key "" || str_eq s.operation ""

claim_at-claimed :
    (s : Scope) (hash : String) (rows : List Record) (o : Option Record)
    → (claim_at s hash o rows).1 ≡ ok claimed
    → (o ≡ none) × ((claim_at s hash o rows).0 ≡ rows ++ new_record s hash ∷ [])
unfolding claim_at
claim_at-claimed s hash rows none e = (refl, refl)
claim_at-claimed s hash rows (some q) e = absurd (ground (arith, e))

-- What a granted claim found and left.
claim-claimed :
    (s : Scope) (hash : String) (rows : List Record)
    → (claim_idempotency s hash rows).1 ≡ ok claimed
    → (is_absent s ≡ false)
      × (find_first (is_for s) rows ≡ none)
      × ((claim_idempotency s hash rows).0 ≡ rows ++ new_record s hash ∷ [])
unfolding claim_idempotency
claim-claimed s hash rows e = elim (Bool-cases (is_absent s)) [
  | inl absent ↦ absurd (ground (arith, e, absent))
  | inr given ↦
      let (unknown, added) =
        claim_at-claimed s hash rows (find_first (is_for s) rows) (ground (arith, e, given)) in
      (given, unknown, ground (arith, given, added))
]

abbrev same_scope : Scope → Scope → Bool
same_scope t s =
    str_eq s.tenant_id t.tenant_id && str_eq s.key t.key && str_eq s.operation t.operation

-- The first response that calls give for a scope.
unfoldable pub first_response : Scope → List Call → Option (ℕ × String)
first_response s [] = none
first_response s (claims t hash ∷ calls) = first_response s calls
first_response s (resolves t response ∷ calls) =
    let rest = first_response s calls in if same_scope t s then some response else rest

-- The record of a granted claim, before and after its response.
abbrev pub answered : Scope → String → Option (ℕ × String) → Record
answered s hash none = new_record s hash
answered s hash (some response) = record (new_record s hash) {
  status = completed;
  response = some response;
}

abbrev or_first : Option (ℕ × String) → Option (ℕ × String) → Option (ℕ × String)
or_first none o = o
or_first (some r) o = some r

step_resolves :
    (s t : Scope) (hash : String) (response : ℕ × String) (o : Option (ℕ × String))
    → resolved t response (answered s hash o)
      ≡ answered s hash (or_first o (if same_scope t s then some response else none))
unfolding resolved
step_resolves s t hash response none = elim (Bool-cases (same_scope t s)) [
  | inl same ↦ rw same refl
  | inr other ↦ rw other refl
]
step_resolves s t hash response (some r) = elim (Bool-cases (same_scope t s)) [
  | inl same ↦ rw same refl
  | inr other ↦ rw other refl
]

step-claims :
    (s t : Scope) (hash : String) (rows : List Record) (r : Record)
    → find_first (is_for s) rows ≡ some r
    → find_first (is_for s) (step (claims t hash) rows) ≡ some r
unfolding step
step-claims s t hash rows r f = elim (claim-rows t hash rows) [
  | inl same ↦ ap (find_first (is_for s)) same ∙ f
  | inr more ↦
      ap (find_first (is_for s)) more ∙ find_first-append s rows (new_record t hash ∷ []) r f
]

or_first_assoc :
    (s t : Scope) (response : ℕ × String) (o : Option (ℕ × String)) (calls : List Call)
    → or_first
        (or_first o (if same_scope t s then some response else none))
        (first_response s calls)
      ≡ or_first o (first_response s (resolves t response ∷ calls))
unfolding first_response
or_first_assoc s t response (some r) calls = refl
or_first_assoc s t response none calls = elim (Bool-cases (same_scope t s)) [
  | inl same ↦ rw same refl
  | inr other ↦ rw other refl
]

-- Whatever calls follow, the record of the scope has the first response that they give.
run-answered :
    (s : Scope) (hash : String) (calls : List Call) (rows : List Record) (o : Option (ℕ × String))
    → find_first (is_for s) rows ≡ some (answered s hash o)
    → find_first (is_for s) (run rows calls)
      ≡ some (answered s hash (or_first o (first_response s calls)))
unfolding run first_response
run-answered s hash [] rows none f = f
run-answered s hash [] rows (some r) f = f
run-answered s hash (claims t other ∷ calls) rows o f =
    run-answered s hash calls (step (claims t other) rows) o
      (step-claims s t other rows (answered s hash o) f)
run-answered s hash (resolves t response ∷ calls) rows o f =
    run-answered s hash calls (step (resolves t response) rows)
      (or_first o (if same_scope t s then some response else none))
      (unfold step resolve_idempotency in
        (find_first-resolved s t response rows (answered s hash o) f
          ∙ ap some (step_resolves s t hash response o)))
    ∙ ap (λ p. some (answered s hash p)) (or_first_assoc s t response o calls)

answered-request :
    (s : Scope) (hash : String) (o : Option (ℕ × String)) → (answered s hash o).request_hash ≡ hash
answered-request s hash none = refl
answered-request s hash (some r) = refl

known_answer :
    (q : Record) (hash again : String)
    → q.request_hash ≡ hash
    → let answer =
        ◌≡◌ {A = Result Claim}
          (if str_eq q.request_hash again then ok (repeated q) else err "IDEMPOTENCY_CONFLICT") in
      ((again ≡ hash) × answer (ok (repeated q)))
      ⊎ ((again ≢ hash) × answer (err "IDEMPOTENCY_CONFLICT"))
known_answer q hash again e = ground (arith, e, eq_iff q.request_hash again)

-- A claim that was granted is granted once: after any calls, a claim of the same scope that makes the
-- same request is answered by the record of the first one, with the first response that the calls
-- gave for the scope, or still in progress where they gave none, and a claim that makes another
-- request is refused.
pub claim_idempotency_once :
    (s : Scope) (hash again : String) (rows : List Record) (calls : List Call)
    → (claim_idempotency s hash rows).1 ≡ ok claimed
    → let answer = (claim_idempotency s again (run (claim_idempotency s hash rows).0 calls)).1 in
      ((again ≡ hash) × (answer ≡ ok (repeated (answered s hash (first_response s calls)))))
      ⊎ ((again ≢ hash) × (answer ≡ err "IDEMPOTENCY_CONFLICT"))
claim_idempotency_once s hash again rows calls granted =
    let (given, unknown, added) = claim-claimed s hash rows granted in
    let q = answered s hash (first_response s calls) in
    let found = run-answered s hash calls (claim_idempotency s hash rows).0 none (
      ap (find_first (is_for s)) added
      ∙ find_first-concat s rows (new_record s hash) unknown (is_for-new_record s hash)) in
    let told = claim_known s again (run (claim_idempotency s hash rows).0 calls) q given found in
    elim (known_answer q hash again (answered-request s hash (first_response s calls))) [
      | inl same ↦ inl (same.0, told ∙ same.1)
      | inr differs ↦ inr (differs.0, told ∙ differs.1)
    ]
