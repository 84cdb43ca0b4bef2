-- ===== src/Cli/Operation/Once.antt =====
-- An operation that was answered is not performed again.
use crmtsi_app.Common.{
  ◌≡◌, refl, sym, ap, ◌∙◌, subst, String, true, false, Option, none, some, List, [], ◌∷◌, ◌++◌,
  Result, ok, err, str_eq_refl, arith, eq_iff, Bool-cases, Option-cases, inl, inr,
}
use crmtsi_app.Cli.Operation.{Context, scope_of, lacks_context, Outcome, Db, Effect, run, run_all}
use crmtsi_app.Shared.Idempotency.{Scope}
use crmtsi_app.Cli.Operation.Memo.{
  Entry, entry_of, recall, Memo, learn, answer_known, consult, memo_run, memo_run_all, db_of,
  run-memo_run, run_all-memo_run_all,
}

recall-append :
    (s : Scope) (entries more : List Entry) (e : Entry)
    → recall s entries ≡ some e
    → recall s (entries ++ more) ≡ some e
unfolding recall
recall-append s [] more e h = cc
recall-append s (x ∷ entries) more e h = ground (arith, recall-append s entries more e)

recall-concat :
    (c : Context) (result : String) (entries : List Entry)
    → recall (scope_of c) entries ≡ none
    → recall (scope_of c) (entries ++ entry_of c result ∷ []) ≡ some (entry_of c result)
unfolding recall
recall-concat c result [] h =
    ground (arith, str_eq_refl c.tenant_id, str_eq_refl c.key, str_eq_refl c.operation)
recall-concat c result (x ∷ entries) h = ground (arith, recall-concat c result entries)

abbrev empty_memo {ℓ} : {W : Type ℓ} → W → W → Memo W
empty_memo w o = record { entries = []; inside = w; outside = o }

-- No record, and the data that there are.
abbrev pub start {ℓ} : {W : Type ℓ} → W → W → Db W
start w o = record { records = []; inside = w; outside = o }

-- The entry by which an outcome is repeated.
pub record Repeats (c : Context) (outcome : Outcome) (entries : List Entry) : Type 0 where
  pub entry : Entry
  pub known : recall (scope_of c) entries ≡ some entry
  pub request : entry.request_hash ≡ c.request_hash
  pub response : outcome.response ≡ some (200, entry.result)

module _ {ℓ} {W : Type ℓ} where
  learn-recall :
      (s : Scope) (e : Entry) (c : Context) (m : Memo W) (answer : (W × W) × Result String)
      → recall s m.entries ≡ some e
      → recall s (learn c m answer).0.entries ≡ some e
  unfolding learn
  learn-recall s e c m ((w, o), err code) h = h
  learn-recall s e c m ((w, o), ok result) h =
      recall-append s m.entries (entry_of c result ∷ []) e h

  consult-recall :
      (s : Scope) (e : Entry) (c : Context) (effect : Effect W) (m : Memo W) (o : Option Entry)
      → recall s m.entries ≡ some e
      → recall s (consult c effect m o).0.entries ≡ some e
  unfolding consult answer_known
  consult-recall s e c effect m none h = learn-recall s e c m (effect (m.inside, m.outside)) h
  consult-recall s e c effect m (some k) h = h

  memo_run-recall :
      (s : Scope) (e : Entry) (c : Context) (effect : Effect W) (m : Memo W)
      → recall s m.entries ≡ some e
      → recall s (memo_run c effect m).0.entries ≡ some e
  unfolding memo_run
  memo_run-recall s e c effect m h = elim (Bool-cases (lacks_context c)) [
    | inl lacking ↦ rw lacking h
    | inr given ↦ rw given (consult-recall s e c effect m (recall (scope_of c) m.entries) h)
  ]

  memo_run_all-recall :
      (s : Scope) (e : Entry) (operations : List (Context × Effect W)) (m : Memo W)
      → recall s m.entries ≡ some e
      → recall s (memo_run_all operations m).0.entries ≡ some e
  unfolding memo_run_all
  memo_run_all-recall s e [] m h = h
  memo_run_all-recall s e ((c, effect) ∷ more) m h =
      memo_run_all-recall s e more (memo_run c effect m).0 (memo_run-recall s e c effect m h)

  learn-Repeats :
      (c : Context) (m : Memo W) (answer : (W × W) × Result String) (outcome : Outcome)
      → recall (scope_of c) m.entries ≡ none
      → (learn c m answer).1 ≡ ok outcome
      → Repeats c outcome (learn c m answer).0.entries
  unfolding learn
  learn-Repeats c m ((w, o), err code) outcome unknown h = absurd (cc h)
  learn-Repeats c m ((w, o), ok result) outcome unknown h = record {
    entry = entry_of c result;
    known = recall-concat c result m.entries unknown;
    request = refl;
    response = ground (arith, h);
  }

  answer_known-Repeats :
      (c : Context) (m : Memo W) (e : Entry) (outcome : Outcome)
      → recall (scope_of c) m.entries ≡ some e
      → (answer_known c m e).1 ≡ ok outcome
      → Repeats c outcome m.entries
  unfolding answer_known
  answer_known-Repeats c m e outcome known h = record {
    entry = e;
    known = known;
    request = ground (arith, h, eq_iff e.request_hash c.request_hash);
    response = ground (arith, h);
  }

  memo_run-Repeats :
      (c : Context) (effect : Effect W) (m : Memo W) (outcome : Outcome)
      → (memo_run c effect m).1 ≡ ok outcome
      → (lacks_context c ≡ false) × Repeats c outcome (memo_run c effect m).0.entries
  memo_run-Repeats c effect m outcome h = elim (Bool-cases (lacks_context c)) [
    | inl lacking ↦ absurd (unfold memo_run in ground (arith, h, lacking))
    | inr given ↦ (
      given,
      elim (Option-cases (recall (scope_of c) m.entries)) [
        | inl unknown ↦
            let same : memo_run c effect m ≡ learn c m (effect (m.inside, m.outside)) =
              unfold memo_run consult in rw (given, unknown) refl in
            subst (λ (r : Memo W × Result Outcome). Repeats c outcome r.0.entries) (sym same)
              (learn-Repeats c m (effect (m.inside, m.outside)) outcome unknown
                (ap (λ (r : Memo W × Result Outcome). r.1) (sym same) ∙ h))
        | inr (e, known) ↦
            let same : memo_run c effect m ≡ answer_known c m e =
              unfold memo_run consult in rw (given, known) refl in
            subst (λ (r : Memo W × Result Outcome). Repeats c outcome r.0.entries) (sym same)
              (unfold answer_known in
                answer_known-Repeats c m e outcome known
                  (ap (λ (r : Memo W × Result Outcome). r.1) (sym same) ∙ h))
      ],
    )
  ]

  -- What the table answers to an outcome's repetition.
  memo_run-repeated :
      (c : Context) (effect : Effect W) (m : Memo W) (outcome : Outcome)
      → lacks_context c ≡ false
      → Repeats c outcome m.entries
      → memo_run c effect m ≡ (m, ok (record { replayed = true; response = outcome.response }))
  unfolding memo_run consult answer_known
  memo_run-repeated c effect m outcome given r =
      rw (given, r.known, (eq_iff r.entry.request_hash c.request_hash).1 r.request, r.response) refl

  run-of_memo :
      (operations : List (Context × Effect W)) (m : Memo W)
      → (run_all operations (db_of m)).0 ≡ db_of (memo_run_all operations m).0
  run-of_memo operations m =
      ap (λ (r : Db W × List (Result Outcome)). r.0) (run_all-memo_run_all operations m)

  once_from :
      (later : List (Context × Effect W)) (c : Context) (effect again : Effect W) (m : Memo W)
      (outcome : Outcome)
      → (run c effect (db_of m)).1 ≡ ok outcome
      → let db = (run_all later (run c effect (db_of m)).0).0 in
        run c again db ≡ (db, ok (record { replayed = true; response = outcome.response }))
  once_from later c effect again m outcome h =
      let first = memo_run c effect m in
      let answered =
        memo_run-Repeats c effect m outcome
          (ap (λ (r : Db W × Result Outcome). r.1) (sym (run-memo_run c effect m)) ∙ h) in
      let last = (memo_run_all later first.0).0 in
      let reached : (run_all later (run c effect (db_of m)).0).0 ≡ db_of last =
        ap (λ (r : Db W × Result Outcome). (run_all later r.0).0) (run-memo_run c effect m)
        ∙ run-of_memo later first.0 in
      let kept : Repeats c outcome last.entries = record {
        entry = answered.1.entry;
        known = memo_run_all-recall (scope_of c) answered.1.entry later first.0 answered.1.known;
        request = answered.1.request;
        response = answered.1.response;
      } in
      subst
        (λ (db : Db W).
          run c again db ≡ (db, ok (record { replayed = true; response = outcome.response })))
        (sym reached)
        (run-memo_run c again last
          ∙ ap (λ (r : Memo W × Result Outcome). (db_of r.0, r.1))
              (memo_run-repeated c again last outcome answered.0 kept))

  -- From no records, after any operations: where an operation is answered, then after any further
  -- operations the same operation, with the same key and request and whatever its effect would do,
  -- changes nothing and is answered by the status and the result that were answered first.
  pub run_once :
      (before later : List (Context × Effect W)) (inside outside : W) (c : Context)
      (effect again : Effect W) (outcome : Outcome)
      → let (after, answer) = run c effect (run_all before (start inside outside)).0 in
        answer ≡ ok outcome
        → let db = (run_all later after).0 in
          run c again db ≡ (db, ok (record { replayed = true; response = outcome.response }))
  run_once before later inside outside c effect again outcome =
      subst
        (λ (db : Db W).
          (run c effect db).1 ≡ ok outcome
          → let last = (run_all later (run c effect db).0).0 in
            run c again last ≡ (last, ok (record { replayed = true; response = outcome.response })))
        (sym (run-of_memo before (empty_memo inside outside)))
        (once_from later c effect again (memo_run_all before (empty_memo inside outside)).0 outcome)
