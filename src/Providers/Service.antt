-- ===== src/Providers/Service.antt =====
-- The rows of provider_configs as modules/providers/provider-service.js reads and updates them, with
-- their trigger guard_provider_status_transition (domain-schema.js).
pub mod Calls
pub mod OneActive
use crmtsi_app.Common.{
  ℕ, String, Bool, true, false, not, ◌&&◌, ◌||◌, Option, none, some, List, [], ◌∷◌, ◌++◌, str_eq,
  if◌then◌else◌, ltb, any_of, Object,
}

pub data Status : Type 0 where
  draft active rotating revoked : Status

pub record Config : Type 0 where
  pub tenant_id : String
  pub provider : String
  pub config : Object
  pub credentials_version : ℕ
  pub status : Status
  pub activated_at : Option ℕ

-- The descending order of the texts of the statuses.
abbrev pub rank : Status → ℕ
rank rotating = 3
rank revoked = 2
rank draft = 1
rank active = 0

abbrev pub is_active : Status → Bool
is_active active = true
is_active _ = false

abbrev pub is_draft : Status → Bool
is_draft draft = true
is_draft _ = false

abbrev pub is_revoked : Status → Bool
is_revoked revoked = true
is_revoked _ = false

abbrev pub of_provider : (tenant_id provider : String) → Config → Bool
of_provider tenant_id provider r = str_eq r.tenant_id tenant_id && str_eq r.provider provider

-- The first row by the order.
pub first_of : Config → Option Config → Config
first_of r none = r
first_of r (some q) = if ltb (rank r.status) (rank q.status) then q else r

-- `order by status desc limit 1`
pub get_provider : (tenant_id provider : String) → List Config → Option Config
unfolding first_of
get_provider tenant_id provider [] = none
get_provider tenant_id provider (r ∷ rows) =
    let rest = get_provider tenant_id provider rows in
    if of_provider tenant_id provider r then some (first_of r rest) else rest

-- The trigger: whether the update of a row to `n` is dropped, where `others` are the other rows.
pub is_dropped : (old n : Config) → (others : List Config) → Bool
is_dropped old n others =
    (is_revoked old.status && is_active n.status)
    || (is_active n.status
        && any_of (λ q. of_provider n.tenant_id n.provider q && is_active q.status) others)

abbrev guarded : (Config → Config) → List Config → Config → Config
guarded f others r = if is_dropped r (f r) others then r else f r

-- `update provider_configs … where tenant_id and provider`: the rows one after the other, each trigger
-- seeing the rows that were updated before, which are in `past`.
pub update_configs :
    (tenant_id provider : String) → (Config → Config) → (past rows : List Config) → List Config
unfolding is_dropped
update_configs tenant_id provider f past [] = past
update_configs tenant_id provider f past (r ∷ rows) =
    let changed = guarded f (past ++ rows) r in
    let chosen = if of_provider tenant_id provider r then changed else r in
    update_configs tenant_id provider f (past ++ chosen ∷ []) rows
