-- ===== src/Outbox/Protocol/Settled.antt =====
-- A row that is sent, dead or of unknown outcome is never touched again.
use crmtsi_app.Common.{
  Text, ℕ, ◌+◌, String, Bool, true, ◌≡◌, subst, Option, List, map, arith, eq_iff, In, In-map,
  In-append_left, Result, str_eq, Bool-cases, inl, inr,
}
use crmtsi_app.Outbox.{
  postpone, Job, Thrown, Db, NewJob, expire, lease_row, sent_row, failed_row, mark_delivered,
  classify_failure, next_retry_at,
}
use crmtsi_app.Outbox.Claim.{Claims, nothing, claimed, IsNext, IsOpen-is_due, claim_next_job-Claims}
use crmtsi_app.Outbox.Enqueue.{Enqueued, found, added, enqueue-Enqueued}
use crmtsi_app.Outbox.Retry.{Fails, refused, alive, mark_failed-Fails}
use crmtsi_app.Outbox.Protocol.{
  System, Step, claims, delivers, fails, enqueues, Reach, start, next, is_settled,
}
use crmtsi_app.Outbox.Protocol.Invariant.{IsSound}
use crmtsi_app.Outbox.Protocol.Safety.{Reach-IsSound}

-- A map that leaves a row as it is leaves it in the table.
kept : (g : Job → Job) (jobs : List Job) (r : Job) → g r ≡ r → In r jobs → In r (map g jobs)
kept g jobs r e m = subst (λ q. In q (map g jobs)) e (In-map g m)

module _ (r : Job) (settled : is_settled r.status ≡ true) where
  expire_settled : (now : ℕ) → expire now r ≡ r
  unfolding expire
  expire_settled now = ground (arith, settled)

  sent_settled : (job : Job) (message_id : String) → sent_row job message_id r ≡ r
  unfolding sent_row
  sent_settled job message_id = ground (arith, settled)

  failed_settled :
      (job : Job) (attempts at : ℕ) (reason : Text) → failed_row job attempts at reason r ≡ r
  unfolding failed_row
  failed_settled job attempts at reason = ground (arith, settled)

  lease_settled :
      (now : ℕ) (worker token : String) (locked : String → Bool) (jobs : List Job) (j : Job)
      → IsNext now locked jobs j
      → (r.id ≡ j.id → r ≡ j)
      → lease_row now worker token j.id r ≡ r
  unfolding lease_row
  lease_settled now worker token locked jobs j n same = elim (Bool-cases (str_eq r.id j.id)) [
    | inl hit ↦
        let clash : r ≡ j = same ((eq_iff r.id j.id).0 hit) in
        absurd (ground (arith, IsOpen-is_due now locked j n.ready, settled, clash))
    | inr miss ↦ rw miss
  ]

  claim_settled :
      (now : ℕ) (worker token : String) (locked : String → Bool) (jobs : List Job)
      → ((j : Job) → In j jobs → r.id ≡ j.id → r ≡ j)
      → In r jobs
      → (c : List Job × Option Job) → Claims now worker token locked jobs c
      → In r c.0
  claim_settled now worker token locked jobs same m c (nothing _) =
      kept (expire now) jobs r (expire_settled now) m
  claim_settled now worker token locked jobs same m c (claimed j n) =
      kept (lease_row now worker token j.id) (map (expire now) jobs) r
        (lease_settled now worker token locked jobs j n (same j n.listed))
        (kept (expire now) jobs r (expire_settled now) m)

  mark_failed_settled :
      (db : Db) (job : Job) (error : Option Thrown) (now : ℕ)
      → In r db.jobs
      → (c : Db × Result Bool) → Fails db job error now c
      → In r c.0.jobs
  unfolding postpone
  mark_failed_settled db job error now m c (refused _) = m
  mark_failed_settled db job error now m c (alive _ _) =
      let at = next_retry_at (job.attempts + 1) now in
      let reason = (classify_failure error).reason in
      kept (failed_row job (job.attempts + 1) at reason) db.jobs r
        (failed_settled job (job.attempts + 1) at reason) m

  enqueue_settled :
      (now : ℕ) (n : NewJob) (jobs : List Job) (c : List Job × Job)
      → Enqueued now n jobs c
      → In r jobs
      → In r c.0
  enqueue_settled now n jobs c (found row f) m = m
  enqueue_settled now n jobs c (added f free) m = In-append_left _ m

  Step-settled : {s t : System} → IsSound s → Step s t → In r s.db.jobs → In r t.db.jobs
  Step-settled {s} v (claims now worker token locked fresh) m =
      claim_settled now worker token locked s.db.jobs (λ j at e. v.by_id r j m at e) m _
        (claim_next_job-Claims now worker token locked s.db.jobs)
  Step-settled {s} v (delivers job message_id _) m =
      unfold mark_delivered in
      kept (sent_row job message_id) s.db.jobs r (sent_settled job message_id) m
  Step-settled {s} v (fails job error now _) m =
      mark_failed_settled s.db job error now m _ (mark_failed-Fails s.db job error now)
  Step-settled {s} v (enqueues now n jobs row e) m =
      enqueue_settled now n s.db.jobs _ (enqueue-Enqueued now n s.db.jobs e) m

-- A row that is sent, dead-lettered or of unknown outcome stays exactly as it is in every later
-- state, whatever claims and late reports follow: it is never sent again.
pub settled_frozen :
    {s t : System} (r : Job)
    → IsSound s
    → is_settled r.status ≡ true
    → In r s.db.jobs
    → Reach s t
    → In r t.db.jobs
settled_frozen r v settled m start = m
settled_frozen r v settled m (next reach st) =
    Step-settled r settled (Reach-IsSound v reach) st (settled_frozen r v settled m reach)
