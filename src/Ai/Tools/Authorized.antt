-- ===== src/Ai/Tools/Authorized.antt =====
-- Which runs start a tool.
use Prim.Native.String
use crmtsi_app.Common.{
  ℕ, ◌≡◌, ◌⊎◌, refl, sym, ap, ◌∙◌, subst, String, true, false, Option, none, some, List, [], ◌∷◌,
  Result, ok, err, arith, eq_iff, Bool-cases, Option-cases, Result-cases, inl, inr, All, get,
  All-put, All-get,
}
use crmtsi_app.Ai.Tools.{
  Context, Definition, Input, PreviewRequest, Registered, Operation, Service, new_service,
  has_capability, key_of, preview_id, confirmation_of, registered_of, validate_input, preview_guard,
  show_at, show_preview, preview, RunRequest, starts, begin_execute, finish_execute, Call, previews,
  finishes, step, run,
}
use crmtsi_app.Ai.Tools.Started.{begin_execute-Passed}

module _ (tools : List (String × Definition)) where
  -- What every registered preview is, under its identity.
  record IsShown (entry : String × Registered) : Type 0 where
    pub tool : get entry.1.preview.tool tools ≡ some entry.1.definition
    pub capable : has_capability entry.1.context entry.1.definition.capability ≡ true
    pub required : entry.1.preview.requires_confirmation ≡ entry.1.definition.irreversible
    pub identity : entry.1.preview.confirmation ≡ confirmation_of entry.1.definition entry.0

  abbrev AllShown : Service → Type 0
  AllShown s = All IsShown s.previews

  preview_guard-ok :
      (c : Context) (q : PreviewRequest) (d : Definition) (input : Input) (key : String)
      → preview_guard tools c q ≡ ok (d, input, key)
      → (get q.tool tools ≡ some d) × (has_capability c d.capability ≡ true)
  unfolding preview_guard
  preview_guard-ok c q d input key h = elim (Option-cases (get q.tool tools)) [
    | inl unlisted ↦ absurd (cc (rw unlisted at h))
    | inr (e, listed) ↦ elim (Bool-cases (has_capability c e.capability)) [
      | inr forbidden ↦ absurd (cc (rw (listed, forbidden) at h))
      | inl capable ↦ elim (Result-cases (validate_input e q.input)) [
        | inl (code, invalid) ↦ absurd (cc (rw (listed, capable, invalid) at h))
        | inr (i, valid) ↦ elim (Result-cases (key_of c q.idempotency_key)) [
          | inl (code, keyless) ↦ absurd (cc (rw (listed, capable, valid, keyless) at h))
          | inr (k, keyed) ↦
              let same : e ≡ d = ground (arith, rw (listed, capable, valid, keyed) at h) in
              (
                listed ∙ ap (λ (x : Definition). some x) same,
                subst (λ (x : Definition). has_capability c x.capability ≡ true) same capable,
              )
        ]
      ]
    ]
  ]

  registered-IsShown :
      (c : Context) (q : PreviewRequest) (d : Definition) (input : Input) (key : String) (now : ℕ)
      (j : String)
      → get q.tool tools ≡ some d
      → has_capability c d.capability ≡ true
      → j ≡ preview_id c q.tool key
      → IsShown (j, registered_of c q d input key now)
  registered-IsShown c q d input key now j listed capable same = record {
    tool = listed;
    capable = capable;
    required = refl;
    identity = ap (confirmation_of d) (sym same);
  }

  show_at-AllShown :
      (c : Context) (q : PreviewRequest) (now : ℕ) (s : Service) (d : Definition) (input : Input)
      (key : String) (o : Option Operation)
      → get q.tool tools ≡ some d
      → has_capability c d.capability ≡ true
      → AllShown s
      → AllShown (show_at c q now s d input key o).0
  unfolding show_at
  show_at-AllShown c q now s d input key (some o) listed capable h = h
  show_at-AllShown c q now s d input key none listed capable h =
      let id = preview_id c q.tool key in
      All-put IsShown id (registered_of c q d input key now) s.previews
        (registered-IsShown c q d input key now id listed capable refl)
        (λ j b e. registered-IsShown c q d input key now j listed capable ((eq_iff j id).0 e)) h

  show_preview-AllShown :
      (c : Context) (q : PreviewRequest) (now : ℕ) (s : Service)
      (g : Result (Definition × Input × String))
      → preview_guard tools c q ≡ g
      → AllShown s
      → AllShown (show_preview c q now s g).0
  unfolding show_preview
  show_preview-AllShown c q now s (err e) same h = h
  show_preview-AllShown c q now s (ok (d, input, key)) same h =
      let (listed, capable) = preview_guard-ok c q d input key same in
      show_at-AllShown c q now s d input key (get key s.operations) listed capable h

  step-AllShown : (call : Call) (s : Service) → AllShown s → AllShown (step tools call s)
  unfolding step preview finish_execute
  step-AllShown (previews c q now) s h =
      show_preview-AllShown c q now s (preview_guard tools c q) refl h
  step-AllShown (finishes c r response now) s h = h

  run-AllShown : (calls : List Call) (s : Service) → AllShown s → AllShown (run tools calls s)
  unfolding run
  run-AllShown [] s h = h
  run-AllShown (call ∷ calls) s h = run-AllShown calls (step tools call s) (step-AllShown call s h)

  -- What is known of a run that starts a tool.
  pub record IsAuthorized (c : Context) (q : RunRequest) (r : Registered) : Type 0 where
    pub listed : get r.preview.tool tools ≡ some r.definition
    pub capable : has_capability r.context r.definition.capability ≡ true
    pub same_tenant : r.context.tenant_id ≡ c.tenant_id
    pub same_actor : r.context.actor_id ≡ c.actor_id
    pub confirmed :
        (r.definition.irreversible ≡ false) ⊎ (q.confirmation ≡ String.◌++◌ "confirm:" q.preview_id)

  -- After any calls on a new service, a run that starts a tool is that of a listed tool which its actor,
  -- in its tenant, was capable of when it was previewed, and if the tool is irreversible the run gives
  -- the confirmation of the preview that it names.
  pub starts-IsAuthorized :
      (calls : List Call) (c : Context) (q : RunRequest) (r : Registered)
      → begin_execute c q (run tools calls new_service) ≡ ok (starts r)
      → IsAuthorized c q r
  starts-IsAuthorized calls c q r h =
      let s = run tools calls new_service in
      let passed = begin_execute-Passed c q s r h in
      let (id, same, shown) =
        All-get IsShown q.preview_id r s.previews (run-AllShown calls new_service tt)
          passed.shown in
      record {
        listed = shown.tool;
        capable = shown.capable;
        same_tenant = ground (arith, passed.owned, eq_iff r.context.tenant_id c.tenant_id);
        same_actor = ground (arith, passed.owned, eq_iff r.context.actor_id c.actor_id);
        confirmed = elim (Bool-cases r.definition.irreversible) [
          | inr reversible ↦ inl reversible
          | inl irreversible ↦ inr (
              (eq_iff q.confirmation r.preview.confirmation).0
                (ground (arith, passed.confirmed, shown.required, irreversible))
              ∙ shown.identity
              ∙ ap (confirmation_of r.definition) same
              ∙ (rw irreversible refl))
        ];
      }
