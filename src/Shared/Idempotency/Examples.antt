-- ===== src/Shared/Idempotency/Examples.antt =====
-- A request that is made three times, once with another body.
use crmtsi_app.Common.{◌≡◌, ◌≢◌, ◌⊎◌, refl, String, some, List, [], ◌∷◌, ok, err}
use crmtsi_app.Shared.Idempotency.{
  Record, completed, Scope, new_record, repeated, claim_idempotency, claim_at, Call, claims,
  resolves, run,
}
use crmtsi_app.Shared.Idempotency.Once.{first_response, claim_idempotency_once}

abbrev scope : Scope
scope = record { tenant_id = "t"; key = "k"; operation = "privacy.request" }

abbrev body : String
body = "request"

abbrev calls : List Call
calls = resolves scope (202, "{}") ∷ claims scope "other" ∷ []

abbrev completed_record : Record
completed_record = record (new_record scope body) {
  status = completed;
  response = some (202, "{}");
}

claim_idempotency_once_example :
    ((body ≡ body)
      × ((claim_idempotency scope body (run (claim_idempotency scope body []).0 calls)).1
          ≡ ok (repeated completed_record)))
    ⊎ ((body ≢ body)
        × ((claim_idempotency scope body (run (claim_idempotency scope body []).0 calls)).1
            ≡ err "IDEMPOTENCY_CONFLICT"))
unfolding claim_idempotency claim_at first_response
claim_idempotency_once_example = claim_idempotency_once scope body body [] calls refl
