-- ===== src/Outbox/Enqueue.antt =====
-- enqueue of outbox.js: an insert that is idempotent in the job's key.
use crmtsi_app.Common.{
  ℕ, String, true, false, ◌≡◌, refl, ◌≢◌, ◌⊎◌, inl, inr, Option, none, some, List, [], ◌∷◌, ◌++◌,
  ok, arith, eq_iff, any_of, find_first, Bool-cases, str_eq, str_eq_refl, sym, subst,
}
use crmtsi_app.Outbox.{Job, NewJob, new_row, same_key, insert_job, enqueue}

-- What a successful call did: it found the row of the key, or it added one under a new id.
pub data Enqueued (now : ℕ) (n : NewJob) (jobs : List Job) : List Job × Job → Type 0 where
  found :
      (row : Job)
      → find_first (same_key n.idempotency_key) jobs ≡ some row
      → Enqueued now n jobs (jobs, row)
  added :
      find_first (same_key n.idempotency_key) jobs ≡ none
      → any_of (λ j. str_eq j.id n.id) jobs ≡ false
      → Enqueued now n jobs (jobs ++ new_row now n ∷ [], new_row now n)

insert_job-Enqueued :
    (now : ℕ) (n : NewJob) (jobs : List Job) (o : Option Job)
    → find_first (same_key n.idempotency_key) jobs ≡ o
    → {r : List Job × Job} → insert_job now n o jobs ≡ ok r
    → Enqueued now n jobs r
unfolding insert_job
insert_job-Enqueued now n jobs (some row) f {r} e = subst (Enqueued now n jobs) (cc) (found row f)
insert_job-Enqueued now n jobs none f {r} e =
    elim (Bool-cases (any_of (λ j. str_eq j.id n.id) jobs)) [
      | inl taken ↦ absurd (ground (arith, taken))
      | inr free ↦ subst (Enqueued now n jobs) (ground (arith, free)) (added f free)
    ]

pub enqueue-Enqueued :
    (now : ℕ) (n : NewJob) (jobs : List Job) {r : List Job × Job}
    → enqueue now n jobs ≡ ok r
    → Enqueued now n jobs r
unfolding enqueue
enqueue-Enqueued now n jobs {r} e =
    insert_job-Enqueued now n jobs (find_first (same_key n.idempotency_key) jobs) refl
      (ground arith)

find_first-concat :
    (key : String) (jobs : List Job) (row : Job)
    → find_first (same_key key) jobs ≡ none
    → same_key key row ≡ true
    → find_first (same_key key) (jobs ++ row ∷ []) ≡ some row
find_first-concat key [] row h k = ground arith
find_first-concat key (j ∷ js) row h k = ground (arith, find_first-concat key js row)

Enqueued-find :
    (now : ℕ) (n : NewJob) (jobs : List Job) (r : List Job × Job)
    → Enqueued now n jobs r
    → find_first (same_key n.idempotency_key) r.0 ≡ some r.1
Enqueued-find now n jobs r (found row f) = f
Enqueued-find now n jobs r (added f free) =
    find_first-concat n.idempotency_key jobs (new_row now n) f (str_eq_refl n.idempotency_key)

-- After a successful call, a call with the same key and a supported kind and a tenant, whatever
-- else it asks for, answers the row of the first call and leaves the rows as they are.
pub enqueue_idempotent :
    (now later : ℕ) (n m : NewJob) (jobs jobs' : List Job) (row : Job)
    → enqueue now n jobs ≡ ok (jobs', row)
    → m.idempotency_key ≡ n.idempotency_key
    → (m.kind ≡ "text") ⊎ (m.kind ≡ "template")
    → m.tenant_id ≢ ""
    → enqueue later m jobs' ≡ ok (jobs', row)
unfolding enqueue insert_job
enqueue_idempotent now later n m jobs jobs' row e same kind tenant =
    let hit : find_first (same_key m.idempotency_key) jobs' ≡ some row =
      subst (λ k. find_first (same_key k) jobs' ≡ some row) (sym same)
        (Enqueued-find now n jobs (jobs', row) (enqueue-Enqueued now n jobs e)) in
    ground (arith, hit, eq_iff "text" m.kind, eq_iff "template" m.kind, eq_iff m.tenant_id "")
