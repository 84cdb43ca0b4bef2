-- ===== src/Providers/Normalize/Examples.antt =====
-- A configuration that is normalized.
use crmtsi_app.Common.{◌≡◌, refl, [], ◌∷◌, codes, string}
use crmtsi_app.Providers.Normalize.{normalize_provider_config, trim, trim_end, trim_start}

trims :
    normalize_provider_config
      (λ s. s)
      "meta"
      (("graphVersion", string (codes " v19.0 "))
        ∷ ("extra", string (codes "x"))
        ∷ ("phoneNumberId", string (codes "1 2\n"))
        ∷ [])
    ≡ ("graphVersion", string (codes "v19.0")) ∷ ("phoneNumberId", string (codes "1 2")) ∷ []
unfolding normalize_provider_config trim trim_end trim_start
trims = refl
