-- ===== src/Outbox/Worker/Rounds.antt =====
-- What a round of the worker answers and leaves, with any steps of other workers between its claim and its
-- report.
use crmtsi_app.Common.{
  ℕ, String, Bool, ◌≡◌, refl, Option, none, some, List, ◌∷◌, map, In, here, there, ok, All,
}
use crmtsi_app.Outbox.{Job, Db, expire, leased, mark_delivered, mark_failed, claim_next_job}
use crmtsi_app.Outbox.Claim.{Claims, nothing, claimed, IsOpen, IsNext, claim_next_job-Claims}
use crmtsi_app.Outbox.Protocol.{System, hold, claims, delivers, fails, enqueues, Reach, start, next}
use crmtsi_app.Outbox.Worker.{
  ChannelRow, Config, Adapter, Delivery, delivered, thrown, Answer, send, report, work, process_one,
}
use crmtsi_app.Outbox.Worker.Report.{Reported, report-Reported}

hold-In : (j : Job) (o : Option Job) {held : List Job} → In j held → In j (hold o held)
hold-In j none m = m
hold-In j (some k) m = there m

-- What a worker holds it holds for good.
Reach-held : {s t : System} (j : Job) → Reach s t → In j s.held → In j t.held
Reach-held j start m = m
Reach-held j (next {t} r (claims now worker token locked fresh)) m =
    hold-In j (claim_next_job now worker token locked t.db.jobs).1 (Reach-held j r m)
Reach-held j (next r (delivers job message_id h)) m = Reach-held j r m
Reach-held j (next r (fails job e now h)) m = Reach-held j r m
Reach-held j (next r (enqueues now n jobs new h)) m = Reach-held j r m

Reach-trans : {s t u : System} → Reach s t → Reach t u → Reach s u
Reach-trans r start = r
Reach-trans r (next q st) = next (Reach-trans r q) st

-- A report is a step of the protocol.
report-Reach :
    (s : System) (job : Job) (later : ℕ) (d : Delivery)
    → In job s.held
    → (t : System) × Reach s t × (t.db ≡ (report s.db job later d).0)
unfolding report
report-Reach s job later (delivered message_id) m = (
  record s { db = (mark_delivered s.db job message_id).0 },
  next start (delivers job message_id m),
  refl,
)
report-Reach s job later (thrown e) m =
    (record s { db = (mark_failed s.db job e later).0 }, next start (fails job e later m), refl)

-- The system after a claim with this answer.
abbrev pub given : System → String → List Job × Option Job → System
given s token c = record {
  db = record s.db { jobs = c.0 };
  held = hold c.1 s.held;
  used = token ∷ s.used;
}

pub data Leaves (now later : ℕ) (worker token : String) (locked : String → Bool)
    (sends : Job → Delivery) (before between : Db) : Db × Answer → Type 0 where
  idle :
      All (λ k. ¬ IsOpen now locked k) before.jobs
      → Leaves now later worker token locked sends before between
          (record before { jobs = map (expire now) before.jobs }, ok none)
  worked :
      (j : Job)
      → IsNext now locked before.jobs j
      → {out : Db × Answer}
      → Reported (leased now worker token j) between later (sends (leased now worker token j)) out
      → Leaves now later worker token locked sends before between out

module _ (find_channel : String → String → Option ChannelRow) (decrypt : String → Option Config)
    (adapters : String → Option Adapter) where
  abbrev IsRound :
      (now later : ℕ) (worker token : String) (locked : String → Bool) (s between : System)
      → Db × Answer
      → Type 0
  IsRound now later worker token locked s between out =
      Leaves now later worker token locked (send find_channel decrypt adapters) s.db between.db out
      × ((after : System) × Reach s after × (after.db ≡ out.0))

  work-IsRound :
      (s between : System) (worker token : String) (locked : String → Bool) (now later : ℕ)
      (c : List Job × Option Job)
      → Claims now worker token locked s.db.jobs c
      → Reach s (given s token c)
      → Reach (given s token c) between
      → IsRound now later worker token locked s between (
          work find_channel decrypt adapters
            (λ _. between.db)
            (record s.db { jobs = c.0 })
            later
            c.1)
  unfolding work
  work-IsRound s between worker token locked now later c (nothing closed) first then_more =
      (idle closed, (given s token c, first, refl))
  work-IsRound s between worker token locked now later c (claimed j n) first then_more =
      let job = leased now worker token j in
      let d = send find_channel decrypt adapters job in
      let (after, last, same) = report-Reach between job later d (Reach-held job then_more here) in
      (
        worked j n (report-Reported between.db job later d),
        (after, Reach-trans first (Reach-trans then_more last), same),
      )

  -- A round with a new token, between whose claim and report any steps of the protocol are done, also
  -- claims and reports of others. With no job that may be claimed it only sweeps the expired leases.
  -- Otherwise it works on the next job, and answers by what the adapter did. If the job was delivered it
  -- answers that it is sent, and the rows under its lease then are, with the message's identity; where
  -- the lease was lost, nothing changes. If the adapter failed for now and an attempt is left it answers
  -- that the job is tried again, and the rows under its lease wait, with the attempt counted, for the
  -- delay of that many attempts; any other failure throws and changes nothing. All other rows are left
  -- as they were at the report, and what the round leaves is a state that the protocol reaches.
  pub process_one-Leaves :
      (s between : System) (worker token : String) (locked : String → Bool) (now later : ℕ)
      → ¬ In token s.used
      → Reach (given s token (claim_next_job now worker token locked s.db.jobs)) between
      → let out =
          process_one find_channel decrypt adapters
            (λ _. between.db)
            s.db
            worker
            locked
            now
            later
            token in
        Leaves now later worker token locked
          (send find_channel decrypt adapters)
          s.db
          between.db
          out
        × ((after : System) × Reach s after × (after.db ≡ out.0))
  unfolding process_one
  process_one-Leaves s between worker token locked now later fresh steps =
      work-IsRound s between worker token locked now later
        (claim_next_job now worker token locked s.db.jobs)
        (claim_next_job-Claims now worker token locked s.db.jobs)
        (next start (claims now worker token locked fresh)) steps
