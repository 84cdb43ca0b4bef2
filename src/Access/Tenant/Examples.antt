-- ===== src/Access/Tenant/Examples.antt =====
-- A member of one tenant, who names it with capitals and blanks.
use crmtsi_app.Common.{◌≡◌, refl, some, codes, Text}
use crmtsi_app.Access.Tenant.{normalize_tenant_id}

abbrev tenant : Text
tenant = codes "0a1b2c3d-1111-4aaa-8bbb-0123456789ab"

abbrev named : Text
named = codes " 0A1B2C3D-1111-4aaa-8bbb-0123456789AB  "

normalized : normalize_tenant_id named ≡ some tenant
unfolding normalize_tenant_id
normalized = refl
