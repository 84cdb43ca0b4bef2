-- ===== src/Shared/Idempotency.antt =====
-- modules/shared/idempotency-service.js: an operation with a key runs once, and its repeats get the
-- stored response. A text is empty where it is absent.
mod Examples
pub mod Once
use crmtsi_app.Common.{
  ℕ, String, Bool, true, false, not, ◌&&◌, ◌||◌, Option, none, some, List, [], ◌∷◌, ◌++◌, map,
  Result, ok, err, str_eq, if◌then◌else◌, find_first,
}

-- The statuses that the table admits.
pub data Status : Type 0 where
  processing completed failed : Status

-- The request is what `requestFingerprint` makes of it.
pub record Record : Type 0 where
  pub tenant_id : String
  pub key : String
  pub operation : String
  pub request_hash : String
  pub status : Status
  pub response : Option (ℕ × String)

pub record Scope : Type 0 where
  pub tenant_id : String
  pub key : String
  pub operation : String

abbrev pub is_for : Scope → Record → Bool
is_for s r = str_eq r.tenant_id s.tenant_id && str_eq r.key s.key && str_eq r.operation s.operation

abbrev pub is_processing : Status → Bool
is_processing processing = true
is_processing _ = false

pub data Claim : Type 0 where
  claimed : Claim
  repeated : Record → Claim

abbrev pub new_record : Scope → String → Record
new_record s request_hash = record {
  tenant_id = s.tenant_id;
  key = s.key;
  operation = s.operation;
  request_hash = request_hash;
  status = processing;
  response = none;
}

-- The insert, or the row that is in its way.
claim_at : Scope → String → Option Record → List Record → List Record × Result Claim
claim_at s request_hash none rows = (rows ++ new_record s request_hash ∷ [], ok claimed)
claim_at s request_hash (some r) rows =
    if str_eq r.request_hash request_hash
    then (rows, ok (repeated r))
    else (rows, err "IDEMPOTENCY_CONFLICT")

unfoldable pub claim_idempotency : Scope → String → List Record → List Record × Result Claim
unfolding claim_at
claim_idempotency s request_hash rows =
    if str_eq s.tenant_id "" || str_eq s.key "" || str_eq s.operation ""
    then (rows, err "tenantId, key and operation are required")
    else claim_at s request_hash (find_first (is_for s) rows) rows

unfoldable pub resolved : Scope → ℕ × String → Record → Record
resolved s response r =
    if is_for s r && is_processing r.status
    then record r { status = completed; response = some response }
    else r

unfoldable pub resolve_idempotency : Scope → ℕ × String → List Record → List Record
unfolding resolved
resolve_idempotency s response rows = map (resolved s response) rows

pub data Call : Type 0 where
  claims : Scope → String → Call
  resolves : Scope → ℕ × String → Call

pub step : Call → List Record → List Record
unfolding claim_idempotency resolve_idempotency
step (claims s request_hash) rows = (claim_idempotency s request_hash rows).0
step (resolves s response) rows = resolve_idempotency s response rows

pub run : List Record → List Call → List Record
run rows [] = rows
run rows (c ∷ calls) = run (step c rows) calls
