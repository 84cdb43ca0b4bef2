-- ===== src/Cli/Operation/Examples.antt =====
-- Operations at concrete inputs.
use crmtsi_app.Common.{ℕ, ◌+◌, ◌≡◌, refl, true, false, some, [], ◌∷◌, ok, err}
use crmtsi_app.Shared.Idempotency.{claim_idempotency, resolve_idempotency}
use crmtsi_app.Cli.Operation.{Context, Effect, run, run_all}
use crmtsi_app.Cli.Operation.Memo.{Memo, memo_run_all, db_of, run_all-memo_run_all}
use crmtsi_app.Cli.Operation.Once.{start, run_once}

abbrev reset : Context
reset = record {
  tenant_id = "t1";
  actor_id = "crm-cli";
  key = "k1";
  operation = "admin:reset-password";
  request_hash = "h1";
}

abbrev drain : Context
drain = record {
  tenant_id = "t1";
  actor_id = "crm-cli";
  key = "k2";
  operation = "queues:drain";
  request_hash = "h2";
}

-- Each of the parts of the data is a count of what was written to it.
abbrev writes : Effect ℕ
writes (w, o) = ((w + 1, o), ok "done")

abbrev throws : Effect ℕ
throws (w, o) = ((w + 1, o + 1), err "NOT_FOUND")

-- What was written past the transaction of a failed operation stays.
thrown :
    run drain throws (start 3 3)
    ≡ (record { records = []; inside = 3; outside = 4 }, err "NOT_FOUND")
unfolding run claim_idempotency
thrown = refl

conflicting :
    (run_all ((reset, writes) ∷ (record reset { request_hash = "h3" }, writes) ∷ []) (start 0 0)).1
    ≡ ok (record { replayed = false; response = some (200, "done") })
      ∷ err "IDEMPOTENCY_CONFLICT"
      ∷ []
unfolding run_all claim_idempotency resolve_idempotency
conflicting = refl

abbrev table : Memo ℕ
table = record { entries = []; inside = 0; outside = 0 }

run_all-memo_run_all_example : run_all ((drain, throws) ∷ (drain, writes) ∷ []) (db_of table) ≡ (
  db_of (memo_run_all ((drain, throws) ∷ (drain, writes) ∷ []) table).0,
  (memo_run_all ((drain, throws) ∷ (drain, writes) ∷ []) table).1,
)
run_all-memo_run_all_example = run_all-memo_run_all ((drain, throws) ∷ (drain, writes) ∷ []) table

run_once_example :
    let db =
      (run_all
        ((drain, writes) ∷ [])
        (run reset writes (run_all ((drain, throws) ∷ []) (start 0 0)).0).0).0 in
    run reset throws db ≡ (db, ok (record { replayed = true; response = some (200, "done") }))
unfolding run_all run claim_idempotency
run_once_example =
    run_once ((drain, throws) ∷ []) ((drain, writes) ∷ []) 0 0 reset writes throws
      (record { replayed = false; response = some (200, "done") }) refl
