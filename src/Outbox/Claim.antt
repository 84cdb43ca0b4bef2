-- ===== src/Outbox/Claim.antt =====
-- claimNextJob of outbox.js: which job a worker is given.
use crmtsi_app.Common.{
  ℕ, ◌≤◌, ◌<◌, ◌≡◌, refl, String, Bool, true, false, not, ◌&&◌, ◌⊎◌, inl, inr, Option, none, some,
  List, [], ◌∷◌, map, arith, Bool-cases, All, In, here, there, All-impl,
}
use crmtsi_app.Outbox.{
  Job, Status, pending, failed, is_ready, is_due, before, earlier, next_job, leased, lease_row,
  expire, finish_claim, claim_next_job,
}

-- A job that may be claimed.
abbrev pub IsOpen : ℕ → (String → Bool) → Job → Type 0
IsOpen now locked k =
    ((k.status ≡ pending) ⊎ (k.status ≡ failed))
    × (k.available_at ≤ now)
    × (k.attempts < k.max_attempts)
    × (locked k.id ≡ false)

-- The order of the claims.
abbrev pub IsBefore : Job → Job → Type 0
IsBefore a b =
    (a.available_at < b.available_at)
    ⊎ ((a.available_at ≡ b.available_at) × (a.created_at < b.created_at))

-- `j` may be claimed, and no job that may be claimed comes before it.
pub record IsNext (now : ℕ) (locked : String → Bool) (jobs : List Job) (j : Job) : Type 0 where
  pub listed : In j jobs
  pub ready : IsOpen now locked j
  pub first : All (λ k. IsOpen now locked k → ¬ IsBefore k j) jobs

is_ready-status : (s : Status) → is_ready s ≡ true → (s ≡ pending) ⊎ (s ≡ failed)
is_ready-status pending h = inl refl
is_ready-status failed h = inr refl
is_ready-status _ h = cc

status-is_ready : (s : Status) → (s ≡ pending) ⊎ (s ≡ failed) → is_ready s ≡ true
status-is_ready s (inl e) = cc
status-is_ready s (inr e) = cc

pub IsOpen-is_due :
    (now : ℕ) (locked : String → Bool) (k : Job) → IsOpen now locked k → is_due now k ≡ true
IsOpen-is_due now locked k o = ground (arith, o, status-is_ready k.status o.0)

is_due-IsOpen :
    (now : ℕ) (locked : String → Bool) (k : Job)
    → is_due now k ≡ true
    → locked k.id ≡ false
    → IsOpen now locked k
is_due-IsOpen now locked k d free =
    (is_ready-status k.status (ground arith), ground arith, ground arith, free)

IsBefore-irrefl : (a : Job) → ¬ IsBefore a a
IsBefore-irrefl a h = ground arith

before_negtrans : (a b c : Job) → ¬ IsBefore a b → before b c ≡ false → ¬ IsBefore a c
before_negtrans a b c h k l = ground arith

before_asym : (a b : Job) → before a b ≡ true → ¬ IsBefore b a
before_asym a b h l = ground arith

module _ (now : ℕ) (locked : String → Bool) where
  -- The selection of `next_job` at a list whose tail is decided.
  abbrev Selected : List Job → Option Job → Type 0
  Selected jobs none = All (λ k. ¬ IsOpen now locked k) jobs
  Selected jobs (some j) = IsNext now locked jobs j

  earlier-Selected :
      (x : Job) (js : List Job) (best : Option Job)
      → IsOpen now locked x
      → Selected js best
      → Selected (x ∷ js) (earlier x best)
  earlier-Selected x js none h s = record {
    listed = here;
    ready = h;
    first = ((λ _. IsBefore-irrefl x), All-impl _ _ (λ k closed o. absurd (closed o)) js s);
  }
  earlier-Selected x js (some k) h s = elim (Bool-cases (before k x)) [
    | inl e ↦ rw e (record {
      listed = there s.listed;
      ready = s.ready;
      first = ((λ _. before_asym k x e), s.first);
    })
    | inr e ↦ rw e (record {
      listed = here;
      ready = h;
      first = (
        (λ _. IsBefore-irrefl x),
        All-impl _ _ (λ m f o. before_negtrans m k x (f o) e) js s.first,
      );
    })
  ]

  skip-Selected :
      (x : Job) (js : List Job) (best : Option Job)
      → ¬ IsOpen now locked x
      → Selected js best
      → Selected (x ∷ js) best
  skip-Selected x js none h s = (h, s)
  skip-Selected x js (some k) h s = record {
    listed = there s.listed;
    ready = s.ready;
    first = ((λ o. absurd (h o)), s.first);
  }

  next_job-Selected : (jobs : List Job) → Selected jobs (next_job now locked jobs)
  unfolding next_job
  next_job-Selected [] = tt
  next_job-Selected (x ∷ js) = elim (Bool-cases (is_due now x && not (locked x.id))) [
    | inl e ↦ rw e (
        earlier-Selected x js (next_job now locked js)
          (is_due-IsOpen now locked x (ground arith) (ground arith)) (next_job-Selected js))
    | inr e ↦ rw e (
        skip-Selected x js (next_job now locked js)
          (λ o. ground (arith, e, o, IsOpen-is_due now locked x o)) (next_job-Selected js))
  ]

-- What a claim answers, and what it leaves in the table: the answered job is the next one, now
-- processing under the new lease; every other row is only swept for expired leases.
pub data Claims (now : ℕ) (worker token : String) (locked : String → Bool) (jobs : List Job)
    : List Job × Option Job → Type 0 where
  nothing :
      All (λ k. ¬ IsOpen now locked k) jobs
      → Claims now worker token locked jobs (map (expire now) jobs, none)
  claimed :
      (j : Job)
      → IsNext now locked jobs j
      → Claims now worker token locked jobs (
        map (lease_row now worker token j.id) (map (expire now) jobs),
        some (leased now worker token j),
      )

-- A claim answers a job exactly if some job is ready, due, within its attempts and not locked; it
-- is then the first such job by (available_at, created_at), and the rows change as `Claims` says.
pub claim_next_job-Claims :
    (now : ℕ) (worker token : String) (locked : String → Bool) (jobs : List Job)
    → Claims now worker token locked jobs (claim_next_job now worker token locked jobs)
unfolding claim_next_job
claim_next_job-Claims now worker token locked jobs =
    by_selection (next_job now locked jobs) (next_job-Selected now locked jobs)
  where
    by_selection :
        (o : Option Job)
        → Selected now locked jobs o
        → Claims now worker token locked jobs
            (finish_claim now worker token (map (expire now) jobs) o)
    by_selection none s = nothing s
    by_selection (some j) s = claimed j s
