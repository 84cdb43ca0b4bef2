-- ===== src/Integrations/Sync.antt =====
-- modules/integrations/sync-service.js: the versions of entities that are written to an integration, and
-- the circuit that opens when its writes fail. A call ends before the next one begins.
mod Examples
pub mod Opening
use Prim.Native.String
use crmtsi_app.Common.{
  ℕ, ◌+◌, String, Bool, true, false, not, ◌&&◌, ◌||◌, Option, none, some, List, [], ◌∷◌, Result, ok,
  err, str_eq, leb, ltb, ◌==◌, if◌then◌else◌, get, put,
}

pub data Status : Type 0 where
  synced conflict retryable_failure : Status

pub record SyncRecord : Type 0 where
  pub version : ℕ
  pub status : Status
  pub external_version : Option String

pub record Circuit : Type 0 where
  pub failures : ℕ
  pub is_open : Bool

pub record Service : Type 0 where
  pub records : List (String × SyncRecord)
  pub circuits : List (String × Circuit)

abbrev pub new_service : Service
new_service = record { records = []; circuits = [] }

-- Absent texts are empty, and a version that is no integer is `none`.
pub record Entity : Type 0 where
  pub tenant_id : String
  pub integration : String
  pub entity_id : String
  pub version : Option ℕ
  pub payload : String

-- What the adapter's `upsert` answers, a text that is not empty, or throws, with the default message
-- where it has none.
pub data Upserted : Type 0 where
  written : (external_version : String) → Upserted
  version_conflict retryable : (message : String) → Upserted
  thrown : (code : String) → Upserted

pub data Answer : Type 0 where
  circuit_open : Answer
  duplicate written_as : Option String → Answer
  conflicting failing : (reason : String) → Answer

abbrev pub key_of : Entity → String
key_of e =
    String.◌++◌ e.tenant_id
      (String.◌++◌ ":" (String.◌++◌ e.integration (String.◌++◌ ":" e.entity_id)))

abbrev external_of : Option SyncRecord → Option String
external_of none = none
external_of (some r) = r.external_version

abbrev pub failures_of : Option Circuit → ℕ
failures_of none = 0
failures_of (some c) = c.failures

abbrev pub opened : Option Circuit → Bool
opened none = false
opened (some c) = c.is_open

abbrev is_synced : Status → Bool
is_synced synced = true
is_synced _ = false

-- The record of a version that was written already.
abbrev pub is_known : ℕ → Option SyncRecord → Bool
is_known version none = false
is_known version (some r) = r.version == version && is_synced r.status

-- `upsert` changes the other system, whose state is `W`.
module _ {ℓ} {W : Type ℓ} (upsert : Entity → Option String → W → W × Upserted)
    (failure_threshold : ℕ) where
  abbrev pub failed : ℕ → Circuit
  failed failures = record { failures = failures; is_open = leb failure_threshold failures }

  -- What is kept of an answer of the adapter.
  unfoldable pub settle : Entity → ℕ → Service → W × Upserted → (Service × W) × Result Answer
  settle e version s (w, written x) = (
    (
      record {
        records =
            put (key_of e)
              (record { version = version; status = synced; external_version = some x }) s.records;
        circuits = put e.integration (record { failures = 0; is_open = false }) s.circuits;
      },
      w,
    ),
    ok (written_as (some x)),
  )
  settle e version s (w, version_conflict message) = (
    (
      record s {
        records =
            put (key_of e)
              (record {
                version = version;
                status = conflict;
                external_version = external_of (get (key_of e) s.records);
              })
              s.records;
      },
      w,
    ),
    ok (conflicting message),
  )
  settle e version s (w, thrown code) = ((s, w), err code)
  settle e version s (w, retryable message) = (
    (
      record {
        records =
            put (key_of e)
              (record {
                version = version;
                status = retryable_failure;
                external_version = external_of (get (key_of e) s.records);
              })
              s.records;
        circuits =
            put e.integration (failed (failures_of (get e.integration s.circuits) + 1)) s.circuits;
      },
      w,
    ),
    ok (failing message),
  )

  unfoldable pub sync_version : Entity → Option ℕ → Service × W → (Service × W) × Result Answer
  unfolding settle
  sync_version e none (s, w) =
      ((s, w), err "tenantId, integration, entityId, and integer version are required")
  sync_version e (some version) (s, w) =
      let current = get (key_of e) s.records in
      if opened (get e.integration s.circuits)
      then ((s, w), ok circuit_open)
      else if is_known version current
      then ((s, w), ok (duplicate (external_of current)))
      else settle e version s (upsert e (external_of current) w)

  unfoldable pub sync : Entity → Service × W → (Service × W) × Result Answer
  unfolding sync_version
  sync e state =
      if str_eq e.tenant_id "" || str_eq e.integration "" || str_eq e.entity_id ""
      then (state, err "tenantId, integration, entityId, and integer version are required")
      else sync_version e e.version state

  unfoldable pub run : List Entity → Service × W → Service × W
  unfolding sync
  run [] state = state
  run (e ∷ entities) state = run entities (sync e state).0

-- The integrations with failures, before they are sorted by name.
pub record Reconciliation : Type 0 where
  pub integration : String
  pub failures : ℕ
  pub circuit_open : Bool

unfoldable pub reconciliation : List (String × Circuit) → List Reconciliation
reconciliation [] = []
reconciliation ((i, c) ∷ circuits) =
    let rest = reconciliation circuits in
    if ltb 0 c.failures
    then record { integration = i; failures = c.failures; circuit_open = c.is_open } ∷ rest
    else rest
