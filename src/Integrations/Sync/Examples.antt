-- ===== src/Integrations/Sync/Examples.antt =====
-- An adapter that always fails, under a threshold of two.
use crmtsi_app.Common.{ℕ, ◌+◌, ◌≡◌, refl, String, [], ◌∷◌, Option, some, ok, arith, get, put}
use crmtsi_app.Integrations.Sync.{
  new_service, Entity, Upserted, retryable, written, circuit_open, failures_of, sync, run,
}
use crmtsi_app.Integrations.Sync.Opening.{open_circuit_stays}

abbrev fails : Entity → Option String → ℕ → ℕ × Upserted
fails e x calls = (calls + 1, retryable "later")

abbrev writes : Entity → Option String → ℕ → ℕ × Upserted
writes e x calls = (calls + 1, written "x1")

abbrev entity : String → Entity
entity tenant_id = record {
  tenant_id = tenant_id;
  integration = "erp";
  entity_id = "7";
  version = some 1;
  payload = "{}";
}

-- The failures of one tenant close the integration to another.
shared :
    (sync fails 2 (entity "u") (run fails 2 (entity "t" ∷ entity "t" ∷ []) (new_service, 0))).1
    ≡ ok circuit_open
unfolding sync run get put
shared = refl

once : (run writes 2 (entity "t" ∷ entity "t" ∷ []) (new_service, 0)).1 ≡ 1
unfolding run get put
once = refl

open_circuit_stays_example :
    let state = run fails 2 (entity "t" ∷ entity "t" ∷ []) (new_service, 0) in
    let last = run fails 2 (entity "t" ∷ []) state in
    (failures_of (get "erp" state.0.circuits) ≡ 2)
    × (sync fails 2 (entity "u") last ≡ (last, ok circuit_open))
unfolding run get put
open_circuit_stays_example =
    open_circuit_stays fails 2 (entity "t" ∷ entity "t" ∷ []) (entity "t" ∷ []) 0 (entity "u") 1
      (omega arith) refl refl refl
