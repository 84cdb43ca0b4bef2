-- ===== src/Access/Roles.antt =====
-- rbac.js, effectiveRole and ensureAuthorized of authorization.js, and
-- modules/identity/authorization-service.js.
pub mod Effective
pub mod Policy
mod Examples
use crmtsi_app.Common.{
  String, Bool, true, false, not, ◌&&◌, ◌||◌, List, [], ◌∷◌, ◌++◌, Option, none, some, Result, ok,
  err, str_eq, has, if◌then◌else◌,
}

abbrev pub capabilities : List String
capabilities =
    "conversation:read" ∷ "conversation:write" ∷ "contact:read" ∷ "contact:write" ∷ "channel:read"
    ∷ "dashboard:read" ∷ "queue:read" ∷ "queue:manage" ∷ "team:read" ∷ "team:manage"
    ∷ "template:read" ∷ "template:manage" ∷ "settings:read" ∷ "settings:write" ∷ "secret:read"
    ∷ "secret:rotate" ∷ "audit:read" ∷ "users:manage" ∷ "routing:manage" ∷ "sla:manage"
    ∷ "automation:manage" ∷ "automation:simulate" ∷ "automation:publish" ∷ "automation:restore"
    ∷ "campaign:manage" ∷ "campaign:preview" ∷ "campaign:publish" ∷ "campaign:restore"
    ∷ "privacy:read" ∷ "privacy:manage" ∷ "realtime:read" ∷ []

abbrev pub role_capabilities : List (String × List String)
role_capabilities =
    (
      "viewer",
      "conversation:read" ∷ "contact:read" ∷ "queue:read" ∷ "team:read" ∷ "template:read"
          ∷ "settings:read" ∷ "dashboard:read" ∷ "realtime:read" ∷ [],
    )
    ∷ (
      "agent",
      "conversation:read" ∷ "conversation:write" ∷ "contact:read" ∷ "contact:write" ∷ "queue:read"
          ∷ "team:read" ∷ "template:read" ∷ "dashboard:read" ∷ "realtime:read" ∷ [],
    )
    ∷ (
      "manager",
      "conversation:read" ∷ "conversation:write" ∷ "contact:read" ∷ "contact:write" ∷ "channel:read"
          ∷ "queue:read" ∷ "queue:manage" ∷ "team:read" ∷ "team:manage" ∷ "template:read"
          ∷ "template:manage" ∷ "routing:manage" ∷ "sla:manage" ∷ "automation:manage"
          ∷ "automation:simulate" ∷ "campaign:manage" ∷ "campaign:preview" ∷ "realtime:read" ∷ [],
    )
    ∷ ("admin", capabilities)
    ∷ []

-- The capabilities of a role; a name that is no role has none.
pub of_role : List (String × List String) → String → List String
of_role [] role = []
of_role ((r, cs) ∷ roles) role = if str_eq r role then cs else of_role roles role

pub is_role : List (String × List String) → String → Bool
is_role [] role = false
is_role ((r, cs) ∷ roles) role = str_eq r role || is_role roles role

pub can : String → String → Bool
unfolding of_role
can role capability = has capabilities capability && has (of_role role_capabilities role) capability

-- `new Set(roles)`, in the order of insertion.
pub add_all : List String → List String → List String
add_all seen [] = seen
add_all seen (r ∷ roles) = add_all (if has seen r then seen else seen ++ r ∷ []) roles

abbrev single : List String → Option String
single (r ∷ []) = if is_role role_capabilities r then some r else none
single _ = none

-- `legacy` is empty where no role is given.
pub effective_role : String → List String → Option String
effective_role legacy [] = if is_role role_capabilities legacy then some legacy else none
effective_role legacy (r ∷ roles) = single (add_all [] (r ∷ roles))

-- The user is its id, empty where there is none, and its role.
pub ensure_authorized : (id role capability : String) → Result (Unit {0})
ensure_authorized id role capability =
    if str_eq id "" || not (can role capability) then err "forbidden" else ok tt

-- A context of modules/identity/authorization-service.js; a text is empty where it is absent.
pub record Context : Type 0 where
  pub tenant_id : String
  pub actor_id : String
  pub granted : List String

pub has_capability : Context → String → Bool
has_capability c capability = has c.granted "*" || has c.granted capability

-- `resource` is the tenant of the resource, empty where there is no resource or it has none.
pub evaluate_policy : Context → (capability resource : String) → Bool
unfolding has_capability
evaluate_policy c capability resource =
    if str_eq c.tenant_id "" || str_eq c.actor_id "" || not (has_capability c capability)
    then false
    else if not (str_eq resource "") && not (str_eq c.tenant_id resource)
    then false
    else true

pub require_scope : Context → (capability resource : String) → Result Bool
require_scope c capability resource =
    if evaluate_policy c capability resource then ok true else err "FORBIDDEN"
