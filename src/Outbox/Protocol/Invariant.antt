-- ===== src/Outbox/Protocol/Invariant.antt =====
-- What holds of every row and every held job, however the workers interleave.
use crmtsi_app.Common.{
  Text, ℕ, ◌≤◌, ◌<◌, String, true, ◌≡◌, refl, some, List, arith, In, eq_iff, subst, here, there,
  Bool-cases, inl, inr, ◌∷◌, str_eq,
}
use crmtsi_app.Outbox.{
  NewJob, new_row, Job, sql_eq, expire, lease_row, sent_row, failed_row, is_due, leased,
}
use crmtsi_app.Outbox.Protocol.{System}

-- The token of a row is one that was made, and what a holder of it knows of the row is true.
pub record RowOk (held : List Job) (used : List String) (r : Job) : Type 0 where
  pub within : r.attempts ≤ r.max_attempts
  pub known : (t : String) → r.lease_token ≡ some t → In t used
  pub current :
      (h : Job)
      → In h held
      → r.id ≡ h.id
      → sql_eq r.lease_token h.lease_token ≡ true
      → (r.attempts ≡ h.attempts) × (r.max_attempts ≡ h.max_attempts)

pub record HeldOk (used : List String) (h : Job) : Type 0 where
  pub tries_left : h.attempts < h.max_attempts
  pub token : String
  pub has_token : h.lease_token ≡ some token
  pub made : In token used

pub record Inv (jobs held : List Job) (used : List String) : Type 0 where
  pub row : (r : Job) → In r jobs → RowOk held used r
  pub holder : (h : Job) → In h held → HeldOk used h
  -- An id has one row, and a token one holder.
  pub by_id : (a b : Job) → In a jobs → In b jobs → a.id ≡ b.id → a ≡ b
  pub by_token : (a b : Job) → In a held → In b held → a.lease_token ≡ b.lease_token → a ≡ b

module _ (held : List Job) (used : List String) (r : Job) (ok_r : RowOk held used r) where
  pub sent_row-RowOk :
      (job : Job) (message_id : String) → RowOk held used (sent_row job message_id r)
  unfolding sent_row
  sent_row-RowOk job message_id = record {
    within = ground (arith, ok_r.within);
    known = λ t e. ground (arith, ok_r.known t);
    current = λ h m e q. ground (arith, ok_r.current h m);
  }

  pub failed_row-RowOk :
      (job : Job) (attempts retry_at : ℕ) (reason : Text)
      → In job held
      → attempts < job.max_attempts
      → RowOk held used (failed_row job attempts retry_at reason r)
  unfolding failed_row
  failed_row-RowOk job attempts retry_at reason m lt = record {
    within = ground (arith, ok_r.within, ok_r.current job m, eq_iff r.id job.id);
    known = λ t e. ground (arith, ok_r.known t);
    current = λ h m e q. ground (arith, ok_r.current h m);
  }

  pub expire-RowOk : (now : ℕ) → RowOk held used (expire now r)
  unfolding expire
  expire-RowOk now = record {
    within = ground (arith, ok_r.within);
    known = λ t e. ground (arith, ok_r.known t);
    current = λ h m e q. ground (arith, ok_r.current h m);
  }

-- A claim gives the row and its new holder one fresh token.
module _ (held : List Job) (used : List String) (now : ℕ) (worker token : String) (j : Job)
    (fresh : ¬ In token used) where
  leased-current :
      (r : Job)
      → ((h : Job) → In h held → HeldOk used h)
      → RowOk held used r
      → (r.id ≡ j.id → (r.attempts ≡ j.attempts) × (r.max_attempts ≡ j.max_attempts))
      → (h : Job) → In h (leased now worker token j ∷ held)
      → (lease_row now worker token j.id r).id ≡ h.id
      → sql_eq (lease_row now worker token j.id r).lease_token h.lease_token ≡ true
      → ((lease_row now worker token j.id r).attempts ≡ h.attempts)
        × ((lease_row now worker token j.id r).max_attempts ≡ h.max_attempts)
  unfolding lease_row
  leased-current r holders k same h here e q = ground (arith, same, eq_iff r.id j.id)
  leased-current r holders k same h (there m) e q = elim (Bool-cases (str_eq r.id j.id)) [
    | inl hit ↦ absurd (fresh (stale (holders h m) (ground (arith, hit))))
    | inr miss ↦ ground (arith, miss, k.current h m)
  ]
    where
      stale : HeldOk used h → sql_eq (some token) h.lease_token ≡ true → In token used
      stale v p = subst (λ t. In t used) (ground (arith, v.has_token, eq_iff token v.token)) v.made

  pub lease_row-RowOk :
      (r : Job)
      → ((h : Job) → In h held → HeldOk used h)
      → RowOk held used r
      → (r.id ≡ j.id → (r.attempts ≡ j.attempts) × (r.max_attempts ≡ j.max_attempts))
      → RowOk (leased now worker token j ∷ held) (token ∷ used) (lease_row now worker token j.id r)
  unfolding lease_row
  lease_row-RowOk r holders k same = record {
    within = ground (arith, k.within);
    known = λ t e. elim (Bool-cases (str_eq r.id j.id)) [
      | inl hit ↦ subst (λ u. In u (token ∷ used)) (ground (arith, hit)) here
      | inr miss ↦ there (k.known t (ground (arith, miss)))
    ];
    current = leased-current r holders k same;
  }

  pub leased-HeldOk : is_due now j ≡ true → HeldOk (token ∷ used) (leased now worker token j)
  leased-HeldOk due = record {
    tries_left = ground arith;
    token = token;
    has_token = refl;
    made = here;
  }

pub HeldOk-mono :
    (used : List String) (token : String) (h : Job) → HeldOk used h → HeldOk (token ∷ used) h
HeldOk-mono used token h k = record {
  tries_left = k.tries_left;
  token = k.token;
  has_token = k.has_token;
  made = there k.made;
}

pub RowOk-mono :
    (held : List Job) (used : List String) (token : String) (r : Job)
    → RowOk held used r
    → RowOk held (token ∷ used) r
RowOk-mono held used token r k = record {
  within = k.within;
  known = λ t e. there (k.known t e);
  current = k.current;
}

pub new_row-RowOk :
    (held : List Job) (used : List String) (now : ℕ) (n : NewJob) → RowOk held used (new_row now n)
new_row-RowOk held used now n = record {
  within = omega arith;
  known = λ t e. cc;
  current = λ h m e q. cc;
}

abbrev pub IsSound : System → Type 0
IsSound s = Inv s.db.jobs s.held s.used
