-- ===== src/Access/Roles/Policy.antt =====
-- evaluatePolicy and requireScope: no access without a grant, and none across tenants.
use crmtsi_app.Common.{◌≡◌, ◌≢◌, ◌↔◌, ◌⊎◌, String, true, ok, has, arith, eq_iff}
use crmtsi_app.Access.Roles.{Context, evaluate_policy, require_scope}

-- The scope is granted exactly to a context with a tenant and an actor that has the capability, or
-- all of them, for a resource of no tenant or of the context's own.
pub require_scope_iff :
    (c : Context) (capability resource : String)
    → (require_scope c capability resource ≡ ok true) ↔ (
        (c.tenant_id ≢ "")
        × (c.actor_id ≢ "")
        × ((has c.granted "*" ≡ true) ⊎ (has c.granted capability ≡ true))
        × ((resource ≡ "") ⊎ (resource ≡ c.tenant_id)))
unfolding require_scope evaluate_policy
require_scope_iff c capability resource = ground (
  arith,
  eq_iff c.tenant_id "",
  eq_iff c.actor_id "",
  eq_iff resource "",
  eq_iff c.tenant_id resource,
)
