-- ===== src/Automation/Editor/History.antt =====
-- Published versions are numbered in their order, and stay.
use crmtsi_app.Common.{
  ℕ, zero, suc, ◌+◌, ◌≡◌, refl, sym, subst, ◌∙◌, ◌⊎◌, inl, inr, String, false, Option, some, List,
  [], ◌∷◌, ◌++◌, str_eq, eq_iff, get_elem?, length, arith, Bool-cases, Result-cases, ok, Text, All,
}
use crmtsi_app.Automation.Schema.{RawGraph, Graph}
use crmtsi_app.Automation.Graph.{Validation}
use crmtsi_app.Automation.Editor.{
  Entry, Version, Editor, Call, creates, saves, publishes, restores, lookup, put, get_draft,
  checked, found, accepted, new_draft, saved, push_published, published_version, push_restored,
  restored_version, create_draft, save_draft, publish, restore, step, run,
}

put_same : (id : String) (e : Entry) (editor : Editor) → lookup id (put id e editor) ≡ some e
unfolding put
put_same id e [] = ground (arith, eq_iff id id)
put_same id e ((key, old) ∷ editor) = ground (arith, put_same id e editor)

put_other :
    (id x : String) (e : Entry) (editor : Editor)
    → str_eq id x ≡ false
    → lookup x (put id e editor) ≡ lookup x editor
unfolding put
put_other id x e [] d = ground (arith, d)
put_other id x e ((key, old) ∷ editor) d =
    ground (arith, d, eq_iff key id, eq_iff key x, eq_iff id x, put_other id x e editor d)

-- A history that is as it was, or has one more version, with the next number.
abbrev Extends : List Version → List Version → Type 0
Extends vs ws = (ws ≡ vs) ⊎ ((v : Version) × (ws ≡ vs ++ v ∷ []) × (v.version ≡ length vs + 1))

draft_entry :
    (t id : String) (editor : Editor) (e : Entry)
    → get_draft t id editor ≡ ok e
    → lookup id editor ≡ some e
unfolding get_draft
draft_entry t id editor e h = ground (arith, h)

elem-append {ℓ} :
    {A : Type ℓ} (xs ys : List A) (i : ℕ) {a : A}
    → get_elem? xs i ≡ some a
    → get_elem? (xs ++ ys) i ≡ some a
elem-append [] ys i h = cc
elem-append (x ∷ xs) ys zero h = h
elem-append (x ∷ xs) ys (suc i) {a} h = elem-append xs ys i {a = a} h

abbrev pub Spares : String → Call → Type 0
Spares x (creates id trimmed raw) = str_eq id x ≡ false
Spares x _ = Unit

module _ (validate : String → RawGraph → Option Validation)
    (validate_stored : String → Graph → Option Validation) (hash : Graph → Text) where
  checked_entry :
      (t id : String) (n : ℕ) (k : Entry → Option Validation) (editor : Editor) (e : Entry)
      (g : Graph)
      → checked validate validate_stored hash t id n k editor ≡ ok (e, g)
      → lookup id editor ≡ some e
  unfolding get_draft
  checked_entry t id n k editor e g h = ground (arith, h)

  found_entry :
      (t id : String) (n : ℕ) (editor : Editor) (e : Entry) (v : Version)
      → found validate validate_stored hash t id n editor ≡ ok (e, v)
      → lookup id editor ≡ some e
  unfolding get_draft
  found_entry t id n editor e v h = ground (arith, h)

  -- What a call that does not create the draft leaves of its entry.
  abbrev Keeps : String → Entry → Editor → Type 0
  Keeps x e editor = (f : Entry) × (lookup x editor ≡ some f) × Extends e.history f.history

  put-Keeps :
      (id x : String) (e new o : Entry) (editor : Editor)
      → lookup id editor ≡ some o
      → Extends o.history new.history
      → lookup x editor ≡ some e
      → Keeps x e (put id new editor)
  put-Keeps id x e new o editor at grown h = elim (Bool-cases (str_eq id x)) [
    | inr d ↦ (e, put_other id x new editor d ∙ h, inl refl)
    | inl d ↦
        let same : id ≡ x = (eq_iff id x).0 d in
        let entries : o ≡ e = ground (arith, at, h, same) in
        (
          new,
          subst (λ k. lookup k (put id new editor) ≡ some new) same (put_same id new editor),
          subst (λ k. Extends k.history new.history) entries grown,
        )
  ]

  step-Keeps :
      (t x : String) (c : Call) (e : Entry) (editor : Editor)
      → Spares x c
      → lookup x editor ≡ some e
      → Keeps x e (step validate validate_stored hash t c editor)
  unfolding step create_draft save_draft publish restore
  step-Keeps t x (creates id trimmed raw) e editor spares h =
      elim (Result-cases (accepted (validate t raw))) [
        | inl (code, r) ↦ (e, ground (arith, r, h), inl refl)
        | inr (g, r) ↦
            let entry : Entry = record {
              current = new_draft validate validate_stored hash id t trimmed g;
              history = [];
            } in
            (e, ground (arith, r, h, put_other id x entry editor spares), inl refl)
      ]
  step-Keeps t x (saves id n name raw) e editor spares h =
      elim (Result-cases
        (checked validate validate_stored hash t id n (λ _. validate t raw) editor)) [
          | inl (code, r) ↦ (e, ground (arith, r, h), inl refl)
          | inr ((o, g), r) ↦
              let entry : Entry = record o {
                current = saved validate validate_stored hash name g o.current;
              } in
              subst (Keeps x e) (sym (ground (arith, r))) (
                put-Keeps id x e entry o editor
                  (checked_entry t id n (λ _. validate t raw) editor o g r) (inl refl) h)
        ]
  step-Keeps t x (publishes now id n) e editor spares h =
      elim (Result-cases (
        checked validate validate_stored hash t id n (λ o. validate_stored t o.current.graph)
          editor)) [
            | inl (code, r) ↦ (e, ground (arith, r, h), inl refl)
            | inr ((o, g), r) ↦
                let entry = push_published validate validate_stored hash now o in
                subst (Keeps x e) (sym (ground (arith, r))) (
                  put-Keeps id x e entry o editor
                    (checked_entry t id n (λ o. validate_stored t o.current.graph) editor o g r)
                    (inr (published_version validate validate_stored hash now o, refl, refl)) h)
          ]
  step-Keeps t x (restores now id version) e editor spares h =
      elim (Result-cases (found validate validate_stored hash t id version editor)) [
        | inl (code, r) ↦ (e, ground (arith, r, h), inl refl)
        | inr ((o, v), r) ↦
            let entry = push_restored validate validate_stored hash now id t v o in
            subst (Keeps x e) (sym (ground (arith, r))) (
              put-Keeps id x e entry o editor (found_entry t id version editor o v r)
                (inr (restored_version validate validate_stored hash now id t v o, refl, refl)) h)
      ]

  stays_at :
      (vs ws : List Version) (i : ℕ) (v : Version)
      → Extends vs ws
      → get_elem? vs i ≡ some v
      → get_elem? ws i ≡ some v
  stays_at vs ws i v (inl same) h = subst (λ l. get_elem? l i ≡ some v) (sym same) h
  stays_at vs ws i v (inr (n, longer, _)) h =
      subst (λ l. get_elem? l i ≡ some v) (sym longer) (elem-append vs (n ∷ []) i h)

  -- A version that was published at a place of a draft's history stands there unchanged after any calls,
  -- of any tenants, that do not create a draft of the same id.
  pub published_stays :
      (x : String) (calls : List (String × Call)) (editor : Editor) (e : Entry) (i : ℕ)
      (v : Version)
      → All (λ c. Spares x c.1) calls
      → lookup x editor ≡ some e
      → get_elem? e.history i ≡ some v
      → (f : Entry) × (lookup x (run validate validate_stored hash editor calls) ≡ some f)
        × (get_elem? f.history i ≡ some v)
  unfolding run
  published_stays x [] editor e i v a h at = (e, h, at)
  published_stays x ((t, c) ∷ calls) editor e i v a h at =
      let (f, there, grown) = step-Keeps t x c e editor a.0 h in
      published_stays x calls (step validate validate_stored hash t c editor) f i v a.1 there
        (stays_at e.history f.history i v grown at)
