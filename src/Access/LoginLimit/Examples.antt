-- ===== src/Access/LoginLimit/Examples.antt =====
-- A limiter of two failures a minute.
use crmtsi_app.Common.{◌≡◌, refl, [], ◌∷◌}
use crmtsi_app.Access.LoginLimit.{Attempts, get, set, record_failure, entry}

abbrev first : Attempts
first = ("10.0.0.1", record { count = 1; started_at = 100 }) ∷ []

starts_so : record_failure 60000 100 "10.0.0.1" [] ≡ first
unfolding record_failure entry get set
starts_so = refl
