-- ===== src/Ai/Tools/Started.antt =====
-- What a run that starts a tool has passed, and that none starts after the operation has a result.
use crmtsi_app.Common.{
  ℕ, ◌≡◌, ◌≢◌, refl, sym, ap, ◌∙◌, subst, String, true, Option, none, some, List, [], ◌∷◌, Result,
  ok, err, str_eq, str_eq_refl, Bool-cases, Option-cases, Result-cases, inl, inr, get, put, get-put,
}
use crmtsi_app.Ai.Tools.{
  Context, Definition, Input, PreviewRequest, Registered, Response, Operation, Service, key_of,
  preview_guard, show_at, show_preview, preview, RunRequest, starts, owns, is_confirmed, begin_at,
  begin_execute, finish_execute, outcome_of, Call, previews, finishes, step, run,
}

-- What a run that starts a tool has passed.
pub record Passed (c : Context) (q : RunRequest) (s : Service) (r : Registered) : Type 0 where
  pub shown : get q.preview_id s.previews ≡ some r
  pub owned : owns c r ≡ true
  pub fresh : get r.operation_key s.operations ≡ none
  pub confirmed : is_confirmed q r ≡ true

begin_at-starts :
    (q : RunRequest) (p r : Registered) (o : Option Operation)
    → begin_at q p o ≡ ok (starts r)
    → (p ≡ r) × (o ≡ none) × (is_confirmed q p ≡ true)
begin_at-starts q p r (some o) h = absurd (cc h)
begin_at-starts q p r none h = elim (Bool-cases (is_confirmed q p)) [
  | inl confirmed ↦ (cc (rw confirmed at h), refl, confirmed)
  | inr unconfirmed ↦ absurd (cc (rw unconfirmed at h))
]

pub begin_execute-Passed :
    (c : Context) (q : RunRequest) (s : Service) (r : Registered)
    → begin_execute c q s ≡ ok (starts r)
    → Passed c q s r
unfolding begin_execute
begin_execute-Passed c q s r h = elim (Option-cases (get q.preview_id s.previews)) [
  | inl absent ↦ absurd (cc (rw absent at h))
  | inr (p, shown) ↦ elim (Bool-cases (owns c p)) [
    | inr foreign ↦ absurd (cc (rw (shown, foreign) at h))
    | inl owned ↦ elim (Result-cases (key_of c q.idempotency_key)) [
      | inl (e, keyless) ↦ absurd (cc (rw (shown, owned, keyless) at h))
      | inr (key, keyed) ↦ elim (Bool-cases (str_eq key p.operation_key)) [
        | inr other ↦ absurd (cc (rw (shown, owned, keyed, other) at h))
        | inl same ↦
            let (this, fresh, confirmed) =
              begin_at-starts q p r (get p.operation_key s.operations)
                (rw (shown, owned, keyed, same) at h) in
            subst (Passed c q s) this
              (record { shown = shown; owned = owned; fresh = fresh; confirmed = confirmed })
      ]
    ]
  ]
]

-- An operation that has a result.
abbrev HasResult : String → Service → Type 0
HasResult key s = (o : Operation) × (get key s.operations ≡ some o)

put-HasResult :
    (k key : String) (o : Operation) (m : List (String × Operation))
    → ((p : Operation) × (get k m ≡ some p))
    → (p : Operation) × (get k (put key o m) ≡ some p)
put-HasResult k key o m (p, h) = elim (Bool-cases (str_eq key k)) [
  | inl same ↦ (o, get-put k key o m ∙ (rw same refl))
  | inr other ↦ (p, get-put k key o m ∙ (rw other h))
]

show_at-operations :
    (c : Context) (q : PreviewRequest) (now : ℕ) (s : Service) (d : Definition) (input : Input)
    (key : String) (o : Option Operation)
    → (show_at c q now s d input key o).0.operations ≡ s.operations
unfolding show_at
show_at-operations c q now s d input key none = refl
show_at-operations c q now s d input key (some o) = refl

show_preview-operations :
    (c : Context) (q : PreviewRequest) (now : ℕ) (s : Service)
    (g : Result (Definition × Input × String))
    → (show_preview c q now s g).0.operations ≡ s.operations
unfolding show_preview
show_preview-operations c q now s (err e) = refl
show_preview-operations c q now s (ok (d, input, key)) =
    show_at-operations c q now s d input key (get key s.operations)

module _ (tools : List (String × Definition)) where
  step-HasResult :
      (key : String) (call : Call) (s : Service)
      → HasResult key s
      → HasResult key (step tools call s)
  unfolding step preview finish_execute
  step-HasResult key (previews c q now) s h =
      subst (λ (m : List (String × Operation)). (o : Operation) × (get key m ≡ some o))
        (sym (show_preview-operations c q now s (preview_guard tools c q))) h
  step-HasResult key (finishes c r response now) s h =
      put-HasResult key r.operation_key
        (record { preview = r.preview; outcome = outcome_of c r response now }) s.operations h

  run-HasResult :
      (key : String) (calls : List Call) (s : Service)
      → HasResult key s
      → HasResult key (run tools calls s)
  unfolding run
  run-HasResult key [] s h = h
  run-HasResult key (call ∷ calls) s h =
      run-HasResult key calls (step tools call s) (step-HasResult key call s h)

  -- Once a run has finished, with whatever outcome, then after any further calls no run starts a tool
  -- under the same operation key.
  pub never_started_again :
      (calls : List Call) (s : Service) (c other : Context) (r again : Registered)
      (response : Response) (now : ℕ) (q : RunRequest)
      → begin_execute other q (run tools calls (finish_execute c r response now s))
        ≡ ok (starts again)
      → again.operation_key ≢ r.operation_key
  unfolding finish_execute
  never_started_again calls s c other r again response now q h same =
      let later = run tools calls (finish_execute c r response now s) in
      let done : Operation = record {
        preview = r.preview;
        outcome = outcome_of c r response now;
      } in
      let (o, kept) = run-HasResult r.operation_key calls (finish_execute c r response now s) (
        done,
        get-put r.operation_key r.operation_key done s.operations
            ∙ (rw (str_eq_refl r.operation_key) refl),
      ) in
      let passed = begin_execute-Passed other q later again h in
      cc (sym passed.fresh ∙ ap (λ (k : String). get k later.operations) same ∙ kept)
