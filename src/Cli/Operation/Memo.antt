-- ===== src/Cli/Operation/Memo.antt =====
-- The operation runner against a table of answers: what it does is what looking up the scope in the
-- table does, and only a scope that is not there has its effect performed.
use crmtsi_app.Common.{
  ℕ, ◌≡◌, refl, ap, ◌∙◌, String, Bool, true, false, ◌&&◌, ◌||◌, Option, none, some, List, [], ◌∷◌,
  ◌++◌, map, Result, ok, err, str_eq, str_eq_refl, if◌then◌else◌, find_first, arith, Bool-cases,
  Option-cases, inl, inr,
}
use crmtsi_app.Shared.Idempotency.{
  Record, Scope, completed, Claim, claimed, repeated, is_for, new_record, resolved,
  claim_idempotency, resolve_idempotency,
}
use mathlib.Core.List.{map-append}
use crmtsi_app.Cli.Operation.{
  Context, scope_of, lacks_context, Outcome, Db, Effect, with_transaction, finish, after_claim, run,
  run_all,
}

-- An answer that was given: to whom, for which request.
pub record Entry : Type 0 where
  pub scope : Scope
  pub request_hash : String
  pub result : String

abbrev pub same_scope : Scope → Scope → Bool
same_scope s t =
    str_eq t.tenant_id s.tenant_id && str_eq t.key s.key && str_eq t.operation s.operation

unfoldable pub recall : Scope → List Entry → Option Entry
recall s entries = find_first (λ e. same_scope s e.scope) entries

pub record Memo {ℓ} (W : Type ℓ) : Type ℓ where
  pub entries : List Entry
  pub inside : W
  pub outside : W

abbrev pub entry_of : Context → String → Entry
entry_of c result = record { scope = scope_of c; request_hash = c.request_hash; result = result }

abbrev pub replayed_answer : Entry → Outcome
replayed_answer e = record { replayed = true; response = some (200, e.result) }

abbrev pub row_of : Entry → Record
row_of e = record {
  tenant_id = e.scope.tenant_id;
  key = e.scope.key;
  operation = e.scope.operation;
  request_hash = e.request_hash;
  status = completed;
  response = some (200, e.result);
}

module _ {ℓ} {W : Type ℓ} where
  -- An effect that threw leaves what it wrote past the transaction; one that answered is learnt.
  unfoldable pub learn : Context → Memo W → (W × W) × Result String → Memo W × Result Outcome
  learn c m ((w, o), err code) = (record m { outside = o }, err code)
  learn c m ((w, o), ok result) = (
    record { entries = m.entries ++ entry_of c result ∷ []; inside = w; outside = o },
    ok (record { replayed = false; response = some (200, result) }),
  )

  unfoldable pub answer_known : Context → Memo W → Entry → Memo W × Result Outcome
  answer_known c m e = (
    m,
    if str_eq e.request_hash c.request_hash
        then ok (replayed_answer e)
        else err "IDEMPOTENCY_CONFLICT",
  )

  unfoldable pub consult : Context → Effect W → Memo W → Option Entry → Memo W × Result Outcome
  unfolding learn answer_known
  consult c effect m (some e) = answer_known c m e
  consult c effect m none = learn c m (effect (m.inside, m.outside))

  -- What an operation does, said of the table.
  unfoldable pub memo_run : Context → Effect W → Memo W → Memo W × Result Outcome
  unfolding consult recall
  memo_run c effect m =
      if lacks_context c
      then (m, err "OPERATION_CONTEXT_REQUIRED")
      else consult c effect m (recall (scope_of c) m.entries)

  unfoldable pub memo_run_all : List (Context × Effect W) → Memo W → Memo W × List (Result Outcome)
  unfolding memo_run
  memo_run_all [] m = (m, [])
  memo_run_all ((c, effect) ∷ more) m =
      let (after, r) = memo_run c effect m in
      let (last, rs) = memo_run_all more after in (last, r ∷ rs)

  abbrev pub db_of : Memo W → Db W
  db_of m = record { records = map row_of m.entries; inside = m.inside; outside = m.outside }

abbrev row_at : Option Entry → Option Record
row_at none = none
row_at (some e) = some (row_of e)

find_first-row_of :
    (s : Scope) (entries : List Entry)
    → find_first (is_for s) (map row_of entries) ≡ row_at (recall s entries)
unfolding recall
find_first-row_of s [] = refl
find_first-row_of s (e ∷ entries) = ground (arith, find_first-row_of s entries)

resolved-row_of :
    (s : Scope) (response : ℕ × String) (e : Entry) → resolved s response (row_of e) ≡ row_of e
unfolding resolved
resolved-row_of s response e = ground arith

map-resolved :
    (s : Scope) (response : ℕ × String) (entries : List Entry)
    → map (resolved s response) (map row_of entries) ≡ map row_of entries
map-resolved s response [] = refl
map-resolved s response (e ∷ entries) =
    ground (arith, resolved-row_of s response e, map-resolved s response entries)

resolved-new_record :
    (c : Context) (result : String)
    → resolved (scope_of c) (200, result) (new_record (scope_of c) c.request_hash)
      ≡ row_of (entry_of c result)
unfolding resolved
resolved-new_record c result =
    ground (arith, str_eq_refl c.tenant_id, str_eq_refl c.key, str_eq_refl c.operation)

-- What resolving makes of the records with the new one.
resolve-learnt :
    (c : Context) (result : String) (entries : List Entry)
    → resolve_idempotency
        (scope_of c)
        (200, result)
        (map row_of entries ++ new_record (scope_of c) c.request_hash ∷ [])
      ≡ map row_of (entries ++ entry_of c result ∷ [])
unfolding resolve_idempotency
resolve-learnt c result entries =
    rw
      (
        map-append (resolved (scope_of c) (200, result)) (map row_of entries)
            (new_record (scope_of c) c.request_hash ∷ []),
        map-append row_of entries (entry_of c result ∷ []),
        map-resolved (scope_of c) (200, result) entries,
        resolved-new_record c result,
      )
      refl

lacks_scope :
    (c : Context)
    → lacks_context c ≡ false
    → (str_eq c.tenant_id "" || str_eq c.key "" || str_eq c.operation "") ≡ false
lacks_scope c given = ground (arith, given)

-- What a claim answers where the records are those of a table.
claim-unknown :
    (c : Context) (entries : List Entry)
    → lacks_context c ≡ false
    → recall (scope_of c) entries ≡ none
    → claim_idempotency (scope_of c) c.request_hash (map row_of entries)
      ≡ (map row_of entries ++ new_record (scope_of c) c.request_hash ∷ [], ok claimed)
unfolding claim_idempotency
claim-unknown c entries given unknown =
    rw (lacks_scope c given, find_first-row_of (scope_of c) entries, unknown) refl

claim-known :
    (c : Context) (entries : List Entry) (e : Entry)
    → lacks_context c ≡ false
    → recall (scope_of c) entries ≡ some e
    → claim_idempotency (scope_of c) c.request_hash (map row_of entries) ≡ (
        if str_eq e.request_hash c.request_hash
        then (map row_of entries, ok (repeated (row_of e)))
        else (map row_of entries, err "IDEMPOTENCY_CONFLICT"))
unfolding claim_idempotency
claim-known c entries e given known =
    rw (lacks_scope c given, find_first-row_of (scope_of c) entries, known) refl

module _ {ℓ} {W : Type ℓ} where
  abbrev as_db : Memo W × Result Outcome → Db W × Result Outcome
  as_db (m, r) = (db_of m, r)

  finish-learn :
      (c : Context) (m : Memo W) (answer : (W × W) × Result String)
      → with_transaction
          (λ now.
            finish c (map row_of m.entries ++ new_record (scope_of c) c.request_hash ∷ []) answer)
          (db_of m)
        ≡ as_db (learn c m answer)
  unfolding with_transaction finish learn
  finish-learn c m ((w, o), err code) = refl
  finish-learn c m ((w, o), ok result) = rw (resolve-learnt c result m.entries) refl

  -- The parts of an operation with its context, once the claim has answered.
  run-claim :
      (c : Context) (effect : Effect W) (db : Db W) (answer : List Record × Result Claim)
      → lacks_context c ≡ false
      → claim_idempotency (scope_of c) c.request_hash db.records ≡ answer
      → run c effect db ≡ with_transaction (λ now. after_claim c effect now answer) db
  unfolding run with_transaction
  run-claim c effect db answer given claim =
      begun ∙ ap (λ a. with_transaction (λ now. after_claim c effect now a) db) claim
    where
      begun :
          run c effect db
          ≡ with_transaction
              (λ now.
                after_claim c effect now (claim_idempotency (scope_of c) c.request_hash db.records))
              db
      begun = rw given refl

  known-answer :
      (c : Context) (effect : Effect W) (m : Memo W) (e : Entry)
      → lacks_context c ≡ false
      → recall (scope_of c) m.entries ≡ some e
      → run c effect (db_of m) ≡ as_db (answer_known c m e)
  known-answer c effect m e given known = elim (Bool-cases (str_eq e.request_hash c.request_hash)) [
    | inl same ↦
        run-claim c effect (db_of m) (map row_of m.entries, ok (repeated (row_of e))) given
          (claim-known c m.entries e given known ∙ (rw same refl))
        ∙ (unfold with_transaction after_claim answer_known in rw same refl)
    | inr differs ↦
        run-claim c effect (db_of m) (map row_of m.entries, err "IDEMPOTENCY_CONFLICT") given
          (claim-known c m.entries e given known ∙ (rw differs refl))
        ∙ (unfold with_transaction after_claim answer_known in rw differs refl)
  ]

  unknown-answer :
      (c : Context) (effect : Effect W) (m : Memo W)
      → lacks_context c ≡ false
      → recall (scope_of c) m.entries ≡ none
      → run c effect (db_of m) ≡ as_db (learn c m (effect (m.inside, m.outside)))
  unfolding with_transaction
  unknown-answer c effect m given unknown =
      run-claim c effect (db_of m)
        (map row_of m.entries ++ new_record (scope_of c) c.request_hash ∷ [], ok claimed) given
        (claim-unknown c m.entries given unknown)
      ∙ (unfold after_claim in finish-learn c m (effect (m.inside, m.outside)))

  pub run-memo_run :
      (c : Context) (effect : Effect W) (m : Memo W)
      → run c effect (db_of m) ≡ as_db (memo_run c effect m)
  run-memo_run c effect m = elim (Bool-cases (lacks_context c)) [
    | inl lacking ↦ unfold run memo_run in rw lacking refl
    | inr given ↦ elim (Option-cases (recall (scope_of c) m.entries)) [
      | inl unknown ↦
          unknown-answer c effect m given unknown
          ∙ (unfold memo_run consult in rw (given, unknown) refl)
      | inr (e, known) ↦
          known-answer c effect m e given known
          ∙ (unfold memo_run consult in rw (given, known) refl)
    ]
  ]

  -- From records that are those of a table, any operations with any effects answer one after the
  -- other what the table answers, and leave the records of the table that it leaves.
  pub run_all-memo_run_all :
      (operations : List (Context × Effect W)) (m : Memo W)
      → let (last, answers) = memo_run_all operations m in
        run_all operations (db_of m) ≡ (db_of last, answers)
  unfolding run_all memo_run_all
  run_all-memo_run_all [] m = refl
  run_all-memo_run_all ((c, effect) ∷ more) m =
      rw (run-memo_run c effect m, run_all-memo_run_all more (memo_run c effect m).0) refl
