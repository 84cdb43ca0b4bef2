-- ===== src/Outbox/Protocol/Safety.antt =====
-- Every interleaving of the workers keeps the invariant; settled rows stay as they are, and a row
-- has at most one worker that can still report on it.
use crmtsi_app.Common.{
  Text, ℕ, ◌≤◌, ◌<◌, ◌+◌, String, Bool, true, false, ◌≡◌, refl, sym, ap, ◌∙◌, inl, inr, Option,
  none, some, List, [], ◌∷◌, ◌++◌, map, ok, Result, arith, eq_iff, In, here, there, In-map_inv,
  In-append_inv, any_of-false, subst, str_eq, any_of,
}
use crmtsi_app.Outbox.{
  Db, postpone, Job, Thrown, NewJob, new_row, has_lease, sql_eq, expire, lease_row, leased,
  sent_row, failed_row, mark_delivered, enqueue, classify_failure, next_retry_at,
}
use crmtsi_app.Outbox.Enqueue.{Enqueued, found, added, enqueue-Enqueued}
use crmtsi_app.Outbox.Claim.{Claims, nothing, claimed, IsNext, IsOpen-is_due, claim_next_job-Claims}
use crmtsi_app.Outbox.Retry.{Fails, refused, alive, mark_failed-Fails}
use crmtsi_app.Outbox.Protocol.{
  System, hold, Step, claims, delivers, fails, enqueues, Reach, start, next,
}
use crmtsi_app.Outbox.Protocol.Invariant.{
  RowOk, HeldOk, Inv, IsSound, sent_row-RowOk, failed_row-RowOk, expire-RowOk, lease_row-RowOk,
  leased-HeldOk, HeldOk-mono, RowOk-mono, new_row-RowOk,
}

abbrev UniqueIds : List Job → Type 0
UniqueIds jobs = (a b : Job) → In a jobs → In b jobs → a.id ≡ b.id → a ≡ b

map-UniqueIds :
    (g : Job → Job) (jobs : List Job)
    → ((r : Job) → (g r).id ≡ r.id)
    → UniqueIds jobs
    → UniqueIds (map g jobs)
map-UniqueIds g jobs same u a b m k e =
    let (a', at_a, ea) = In-map_inv g jobs m in
    let (b', at_b, eb) = In-map_inv g jobs k in cc (u a' b' at_a at_b (cc (same a', same b')))

expire-id : (now : ℕ) (r : Job) → (expire now r).id ≡ r.id
unfolding expire
expire-id now r = ground arith

expire-attempts :
    (now : ℕ) (r : Job)
    → ((expire now r).attempts ≡ r.attempts) × ((expire now r).max_attempts ≡ r.max_attempts)
unfolding expire
expire-attempts now r = ground arith

lease_row-id :
    (now : ℕ) (worker token id : String) (r : Job) → (lease_row now worker token id r).id ≡ r.id
unfolding lease_row
lease_row-id now worker token id r = ground arith

sent_row-id : (job : Job) (message_id : String) (r : Job) → (sent_row job message_id r).id ≡ r.id
unfolding sent_row
sent_row-id job message_id r = ground arith

failed_row-id :
    (job : Job) (n at : ℕ) (reason : Text) (r : Job) → (failed_row job n at reason r).id ≡ r.id
unfolding failed_row
failed_row-id job n at reason r = ground arith

-- A map over the rows keeps the invariant, if it does so at each row.
module _ (held : List Job) (used : List String) (jobs : List Job) (v : Inv jobs held used) where
  rows-Inv :
      (g : Job → Job)
      → ((r : Job) → (g r).id ≡ r.id)
      → ((r : Job) → RowOk held used r → RowOk held used (g r))
      → Inv (map g jobs) held used
  rows-Inv g same keep = record {
    row = λ r m.
        let (a, at, e) = In-map_inv g jobs m in
        subst (RowOk held used) (sym e) (keep a (v.row a at));
    holder = v.holder;
    by_id = map-UniqueIds g jobs same v.by_id;
    by_token = v.by_token;
  }

  deliver-Inv :
      (job : Job) (message_id : String) → Inv (map (sent_row job message_id) jobs) held used
  deliver-Inv job message_id =
      rows-Inv (sent_row job message_id) (sent_row-id job message_id)
        (λ r k. sent_row-RowOk held used r k job message_id)

  retry-Inv :
      (job : Job) (at : ℕ) (reason : Text)
      → In job held
      → job.attempts + 1 < job.max_attempts
      → Inv (map (failed_row job (job.attempts + 1) at reason) jobs) held used
  retry-Inv job at reason m lt =
      rows-Inv (failed_row job (job.attempts + 1) at reason)
        (failed_row-id job (job.attempts + 1) at reason)
        (λ r k. failed_row-RowOk held used r k job (job.attempts + 1) at reason m lt)

  sweep-Inv : (now : ℕ) → Inv (map (expire now) jobs) held used
  sweep-Inv now = rows-Inv (expire now) (expire-id now) (λ r k. expire-RowOk held used r k now)

  token-Inv : (token : String) → Inv jobs held (token ∷ used)
  token-Inv token = record {
    row = λ r m. RowOk-mono held used token r (v.row r m);
    holder = λ h m. HeldOk-mono used token h (v.holder h m);
    by_id = v.by_id;
    by_token = v.by_token;
  }

  add-Inv :
      (now : ℕ) (n : NewJob)
      → any_of (λ j. str_eq j.id n.id) jobs ≡ false
      → Inv (jobs ++ new_row now n ∷ []) held used
  add-Inv now n absent = record {
    row = λ r m. elim (In-append_inv jobs (new_row now n ∷ []) m) [
      | inl old ↦ v.row r old
      | inr new ↦ subst (RowOk held used) (sym (only new)) (new_row-RowOk held used now n)
    ];
    holder = v.holder;
    by_id = λ a b m k e. elim (In-append_inv jobs (new_row now n ∷ []) m) [
      | inl old_a ↦ elim (In-append_inv jobs (new_row now n ∷ []) k) [
        | inl old_b ↦ v.by_id a b old_a old_b e
        | inr new_b ↦ absurd (clash a old_a (e ∙ ap (λ r. r.id) (only new_b)))
      ]
      | inr new_a ↦ elim (In-append_inv jobs (new_row now n ∷ []) k) [
        | inl old_b ↦ absurd (clash b old_b (sym e ∙ ap (λ r. r.id) (only new_a)))
        | inr new_b ↦ only new_a ∙ sym (only new_b)
      ]
    ];
    by_token = v.by_token;
  }
    where
      only : {r : Job} → In r (new_row now n ∷ []) → r ≡ new_row now n
      only here = refl
      only (there m) = elim m [ ]

      clash : (r : Job) → In r jobs → r.id ≡ n.id → ⊥
      clash r m e =
          ground (arith, any_of-false (λ j. str_eq j.id n.id) jobs absent m, eq_iff r.id n.id)

-- The job that is claimed has a fresh token, so no other held job has it.
module _ (held : List Job) (used : List String) (jobs : List Job) (v : Inv jobs held used) (now : ℕ)
    (worker token : String) (fresh : ¬ In token used) where
  held_token-ne : (h : Job) → In h held → h.lease_token ≡ some token → ⊥
  held_token-ne h m e =
      let k = v.holder h m in fresh (subst (λ t. In t used) (ground (arith, k.has_token)) k.made)

  by_token-cons :
      (j a b : Job)
      → In a (leased now worker token j ∷ held)
      → In b (leased now worker token j ∷ held)
      → a.lease_token ≡ b.lease_token
      → a ≡ b
  by_token-cons j a b here here e = refl
  by_token-cons j a b here (there k) e = absurd (held_token-ne b k (sym e))
  by_token-cons j a b (there m) here e = absurd (held_token-ne a m e)
  by_token-cons j a b (there m) (there k) e = v.by_token a b m k e

  lease-Inv :
      (locked : String → Bool) (j : Job)
      → IsNext now locked jobs j
      → Inv
          (map (lease_row now worker token j.id) (map (expire now) jobs))
          (leased now worker token j ∷ held)
          (token ∷ used)
  lease-Inv locked j n = record {
    row = λ r m. row r (In-map_inv (lease_row now worker token j.id) (map (expire now) jobs) m);
    holder = holder;
    by_id =
        map-UniqueIds (lease_row now worker token j.id) (map (expire now) jobs)
          (lease_row-id now worker token j.id) swept.by_id;
    by_token = by_token-cons j;
  }
    where
      swept : Inv (map (expire now) jobs) held used
      swept = sweep-Inv held used jobs v now

      same_row :
          (r : Job)
          → In r (map (expire now) jobs)
          → r.id ≡ j.id
          → (r.attempts ≡ j.attempts) × (r.max_attempts ≡ j.max_attempts)
      same_row r m e =
          let (a, at, image) = In-map_inv (expire now) jobs m in
          let same : a ≡ j = v.by_id a j at n.listed (cc (expire-id now a, image, e)) in
          let (fst_same, snd_same) = expire-attempts now a in
          (cc (fst_same, image, same), cc (snd_same, image, same))

      row :
          (r : Job)
          → ((a : Job) × In a (map (expire now) jobs) × (r ≡ lease_row now worker token j.id a))
          → RowOk (leased now worker token j ∷ held) (token ∷ used) r
      row r (a, m, e) = subst (RowOk (leased now worker token j ∷ held) (token ∷ used)) (sym e) (
          lease_row-RowOk held used now worker token j fresh a v.holder (swept.row a m)
            (same_row a m))

      holder : (h : Job) → In h (leased now worker token j ∷ held) → HeldOk (token ∷ used) h
      holder h here =
          leased-HeldOk held used now worker token j fresh (IsOpen-is_due now locked j n.ready)
      holder h (there m) = HeldOk-mono used token h (v.holder h m)

claim-Inv :
    (held : List Job) (used : List String) (jobs : List Job) (now : ℕ) (worker token : String)
    (locked : String → Bool)
    → Inv jobs held used
    → ¬ In token used
    → (r : List Job × Option Job) → Claims now worker token locked jobs r
    → Inv r.0 (hold r.1 held) (token ∷ used)
claim-Inv held used jobs now worker token locked v fresh r (nothing _) =
    token-Inv held used (map (expire now) jobs) (sweep-Inv held used jobs v now) token
claim-Inv held used jobs now worker token locked v fresh r (claimed j n) =
    lease-Inv held used jobs v now worker token fresh locked j n

mark_failed-Inv :
    (s : System) (job : Job) (error : Option Thrown) (now : ℕ)
    → IsSound s
    → In job s.held
    → (c : Db × Result Bool) → Fails s.db job error now c
    → Inv c.0.jobs s.held s.used
unfolding postpone
mark_failed-Inv s job error now v m c (refused _) = v
mark_failed-Inv s job error now v m c (alive _ lt) =
    retry-Inv s.held s.used s.db.jobs v job (next_retry_at (job.attempts + 1) now)
      (classify_failure error).reason m lt

enqueue-Inv :
    (held : List Job) (used : List String) (now : ℕ) (n : NewJob) (jobs jobs' : List Job)
    (row : Job)
    → Inv jobs held used
    → enqueue now n jobs ≡ ok (jobs', row)
    → Inv jobs' held used
enqueue-Inv held used now n jobs jobs' row v e = by_case _ (enqueue-Enqueued now n jobs e)
  where
    by_case : (r : List Job × Job) → Enqueued now n jobs r → Inv r.0 held used
    by_case r (found row f) = v
    by_case r (added f free) = add-Inv held used jobs v now n free

pub Step-IsSound : {s t : System} → IsSound s → Step s t → IsSound t
Step-IsSound {s} v (claims now worker token locked fresh) =
    claim-Inv s.held s.used s.db.jobs now worker token locked v fresh _
      (claim_next_job-Claims now worker token locked s.db.jobs)
Step-IsSound {s} v (delivers job message_id m) =
    unfold mark_delivered in deliver-Inv s.held s.used s.db.jobs v job message_id
Step-IsSound {s} v (fails job error now m) =
    mark_failed-Inv s job error now v m _ (mark_failed-Fails s.db job error now)
Step-IsSound {s} v (enqueues now n jobs row e) =
    enqueue-Inv s.held s.used now n s.db.jobs jobs row v e

pub Reach-IsSound : {s t : System} → IsSound s → Reach s t → IsSound t
Reach-IsSound v start = v
Reach-IsSound v (next r st) = Step-IsSound (Reach-IsSound v r) st

-- However claims, reports and enqueues interleave from a sound state, every row of a reachable
-- state has at most `max_attempts` attempts.
pub attempts_bounded :
    {s t : System} (r : Job) → IsSound s → Reach s t → In r t.db.jobs → r.attempts ≤ r.max_attempts
attempts_bounded r v reach m = ((Reach-IsSound v reach).row r m).within

eq_of_sql_eq : (a b : Option String) → sql_eq a b ≡ true → a ≡ b
eq_of_sql_eq (some s) (some t) h = ap some ((eq_iff s t).0 h)
eq_of_sql_eq (some s) none h = cc
eq_of_sql_eq none b h = cc

same_token :
    (r h k : Job) → has_lease h r ≡ true → has_lease k r ≡ true → h.lease_token ≡ k.lease_token
same_token r h k p q =
    sym (eq_of_sql_eq r.lease_token h.lease_token (ground (arith, p)))
    ∙ eq_of_sql_eq r.lease_token k.lease_token (ground (arith, q))

-- In a reachable state two held jobs that both pass the lease test on one row are the same job: a
-- row has at most one worker whose report can still change it.
pub lease_exclusive :
    {s t : System}
    → IsSound s
    → Reach s t
    → (r h k : Job) → In h t.held
    → In k t.held
    → has_lease h r ≡ true
    → has_lease k r ≡ true
    → h ≡ k
lease_exclusive v reach r h k at_h at_k p q =
    (Reach-IsSound v reach).by_token h k at_h at_k (same_token r h k p q)
