-- ===== src/Setup/Validation/Examples.antt =====
-- Drafts that are refused and taken.
use crmtsi_app.Common.{◌≡◌, refl, some, [], ◌∷◌, err, codes, string, other}
use crmtsi_app.Setup.Validation.{
  Draft, validate_provider_config, redact_config, sanitize_error, message_of, redact_field,
  check_fields,
}

abbrev draft : Draft
draft = record {
  provider = string (codes "meta");
  config = some (
      ("graphVersion", string (codes "v19.0"))
      ∷ ("phoneNumberId", string (codes "123"))
      ∷ ("accessToken", string (codes "token"))
      ∷ []);
}

redacts-token :
    (redact_config draft).config
    ≡ some (
        ("graphVersion", string (codes "v19.0"))
        ∷ ("phoneNumberId", string (codes "123"))
        ∷ ("accessToken", string (codes "[REDACTED]"))
        ∷ [])
unfolding redact_config redact_field
redacts-token = refl

refuses-name :
    validate_provider_config (some (record draft { provider = other }))
    ≡ err "PROVIDER_NOT_ALLOWLISTED"
unfolding validate_provider_config check_fields
refuses-name = refl

hides-unknown : sanitize_error "relation does not exist" ≡ "Invalid provider configuration"
unfolding sanitize_error message_of
hides-unknown = refl
