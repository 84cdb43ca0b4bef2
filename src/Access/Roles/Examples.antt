-- ===== src/Access/Roles/Examples.antt =====
-- Roles and contexts.
use crmtsi_app.Common.{◌≡◌, refl, String, false, [], ◌∷◌, none}
use crmtsi_app.Access.Roles.{Context, can, of_role, effective_role, add_all}

abbrev user : String
user = "u1"

abbrev other : String
other = "u"

mixed_roles : effective_role "admin" ("agent" ∷ "manager" ∷ []) ≡ none
unfolding effective_role add_all
mixed_roles = refl

viewer_cannot_write : can "viewer" "conversation:write" ≡ false
unfolding can of_role
viewer_cannot_write = refl

abbrev context : Context
context = record { tenant_id = "t"; actor_id = "a"; granted = "privacy:read" ∷ [] }
