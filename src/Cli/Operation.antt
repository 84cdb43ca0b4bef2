-- ===== src/Cli/Operation.antt =====
-- modules/cli/operation-runner.js and modules/shared/transaction.js: an operation of the command line
-- runs its effect in a transaction, under an idempotency key.
mod Examples
pub mod Memo
pub mod Once
use crmtsi_app.Common.{
  ℕ, String, Bool, true, false, ◌||◌, Option, none, some, List, [], ◌∷◌, Result, ok, err, str_eq,
  if◌then◌else◌,
}
use crmtsi_app.Shared.Idempotency.{
  Record, Scope, Status, processing, completed, failed, Claim, claimed, repeated, claim_idempotency,
  resolve_idempotency,
}

-- Absent texts are empty. The request is its fingerprint.
pub record Context : Type 0 where
  pub tenant_id : String
  pub actor_id : String
  pub key : String
  pub operation : String
  pub request_hash : String

abbrev pub scope_of : Context → Scope
scope_of c = record { tenant_id = c.tenant_id; key = c.key; operation = c.operation }

abbrev pub lacks_context : Context → Bool
lacks_context c =
    str_eq c.tenant_id "" || str_eq c.actor_id "" || str_eq c.key "" || str_eq c.operation ""

-- The status and the body of a response; a record that is not resolved has neither.
pub record Outcome : Type 0 where
  pub replayed : Bool
  pub response : Option (ℕ × String)

abbrev pub answer_repeated : Record → Status → Result Outcome
answer_repeated r completed = ok (record { replayed = true; response = r.response })
answer_repeated r processing = err "OPERATION_IN_PROGRESS"
answer_repeated r failed = err "OPERATION_PREVIOUSLY_FAILED"

-- The rows of `operational_idempotency_keys`, what else is written through the client of the transaction,
-- and what is written past it, through the pool.
pub record Db {ℓ} (W : Type ℓ) : Type ℓ where
  pub records : List Record
  pub inside : W
  pub outside : W

-- What the command does, until it throws or answers.
abbrev pub Effect {ℓ} : Type ℓ → Type ℓ
Effect W = W × W → (W × W) × Result String

module _ {ℓ} {W : Type ℓ} where
  -- A transaction that throws is rolled back, which undoes nothing that was written past it.
  unfoldable pub with_transaction : (Db W → Db W × Result Outcome) → Db W → Db W × Result Outcome
  with_transaction callback db =
      let (after, r) = callback db in
      elim r [ err code ↦ (record db { outside = after.outside }, err code) | ok a ↦ (after, ok a) ]

  -- After the effect: its result is stored.
  unfoldable pub finish : Context → List Record → (W × W) × Result String → Db W × Result Outcome
  finish c records ((w, o), err code) =
      (record { records = records; inside = w; outside = o }, err code)
  finish c records ((w, o), ok result) = (
    record {
      records = resolve_idempotency (scope_of c) (200, result) records;
      inside = w;
      outside = o;
    },
    ok (record { replayed = false; response = some (200, result) }),
  )

  unfoldable pub after_claim :
      Context → Effect W → Db W → List Record × Result Claim → Db W × Result Outcome
  unfolding finish
  after_claim c effect db (records, err code) = (record db { records = records }, err code)
  after_claim c effect db (records, ok (repeated r)) =
      (record db { records = records }, answer_repeated r r.status)
  after_claim c effect db (records, ok claimed) = finish c records (effect (db.inside, db.outside))

  -- `run(context, effect)`
  unfoldable pub run : Context → Effect W → Db W → Db W × Result Outcome
  unfolding with_transaction after_claim
  run c effect db =
      if lacks_context c
      then (db, err "OPERATION_CONTEXT_REQUIRED")
      else with_transaction
          (λ now.
            after_claim c effect now (claim_idempotency (scope_of c) c.request_hash now.records))
          db

  -- Operations one after the other, with what each answers.
  unfoldable pub run_all : List (Context × Effect W) → Db W → Db W × List (Result Outcome)
  unfolding run
  run_all [] db = (db, [])
  run_all ((c, effect) ∷ more) db =
      let (after, r) = run c effect db in let (last, rs) = run_all more after in (last, r ∷ rs)
