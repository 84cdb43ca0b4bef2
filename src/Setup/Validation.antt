-- ===== src/Setup/Validation.antt =====
-- modules/setup/setup-validation.js: which provider configuration a draft may hold, what of it is
-- shown, and the messages for its errors.
mod Examples
use crmtsi_app.Common.{
  ℕ, String, Bool, true, false, not, ◌&&◌, Option, none, some, List, [], ◌∷◌, map, Result, ok, err,
  ◌>>◌, ◌>>=◌, require, str_eq, has, if◌then◌else◌, Text, codes, text_eq, Value, undefined, string,
  Object, field_of, is_truthy,
}
use crmtsi_app.Providers.Schema.{config_schema, check_required, check_rules}
use crmtsi_app.Providers.Endpoint.{Url, check_parsed, text_of}

-- The body of a draft; `config` is absent or an object.
pub record Draft : Type 0 where
  pub provider : Value
  pub config : Option Object

-- `config.config?.[field]` reads an absent object as one without fields.
abbrev pub fields : Option Object → Object
fields none = []
fields (some o) = o

-- `ALLOWED_PROVIDERS.includes`, with the name that was found.
abbrev pub allowed : Value → Option String
allowed (string t) =
    if text_eq t (codes "waha")
    then some "waha"
    else if text_eq t (codes "meta")
    then some "meta"
    else none
allowed _ = none

abbrev is_absent : Value → Bool
is_absent v = not (is_truthy v)

unfoldable pub check_fields : Option String → Option Object → Result (Unit {0})
check_fields none config = err "PROVIDER_NOT_ALLOWLISTED"
check_fields (some name) config = do
  check_required is_absent (config_schema name) (fields config)
  check_rules (config_schema name) (fields config)

unfoldable pub validate_provider_config : Option Draft → Result (Unit {0})
unfolding check_fields
validate_provider_config none = err "PROVIDER_REQUIRED"
validate_provider_config (some d) = do
  require (is_truthy d.provider) "PROVIDER_REQUIRED"
  check_fields (allowed d.provider) d.config

abbrev waha : Option Object → Draft
waha config = record { provider = string (codes "waha"); config = config }

-- `parse_url` is the constructor `URL` (`none` where it throws).
pub validate_waha_config : (parse_url : Text → Option Url) → Option Object → Result (Unit {0})
unfolding validate_provider_config
validate_waha_config parse_url config = do
  validate_provider_config (some (waha config))
  check_parsed (parse_url (text_of (field_of (fields config) "baseUrl")))

abbrev pub secret_fields : List String
secret_fields =
    "accessToken" ∷ "appSecret" ∷ "verifyToken" ∷ "apiKey" ∷ "webhookSecret" ∷ "webhookToken"
    ∷ "password" ∷ "secret" ∷ "privateKey" ∷ []

abbrev redacted : Value
redacted = string (codes "[REDACTED]")

pub redact_field : String × Value → String × Value
redact_field (name, undefined) = (name, undefined)
redact_field (name, v) = (name, if has secret_fields name then redacted else v)

abbrev redact_object : Option Object → Option Object
redact_object none = none
redact_object (some o) = some (map redact_field o)

pub redact_config : Draft → Draft
unfolding redact_field
redact_config d = record d { config = redact_object d.config }

abbrev safe_errors : List (String × String)
safe_errors =
    ("SSRF_BLOCKED_METADATA", "Invalid provider configuration: metadata endpoint not allowed")
    ∷ ("SSRF_BLOCKED_PRIVATE_IP", "Invalid provider configuration: private IP not allowed")
    ∷ ("SSRF_BLOCKED_PROTOCOL", "Invalid provider configuration: protocol not allowed")
    ∷ ("SSRF_BLOCKED_INTERNAL_PORT", "Invalid provider configuration: internal port not allowed")
    ∷ ("INVALID_URL", "Invalid provider configuration: malformed URL")
    ∷ ("MISSING_REQUIRED_FIELD_BASEURL", "Missing required field: baseUrl")
    ∷ ("MISSING_REQUIRED_FIELD_SESSIONNAME", "Missing required field: sessionName")
    ∷ ("MISSING_REQUIRED_FIELD_GRAPHVERSION", "Missing required field: graphVersion")
    ∷ ("MISSING_REQUIRED_FIELD_PHONENUMBERID", "Missing required field: phoneNumberId")
    ∷ ("PROVIDER_NOT_ALLOWLISTED", "Provider not allowlisted")
    ∷ ("INVALID_FORMAT_BASEURL", "Invalid format for baseUrl")
    ∷ ("INVALID_FORMAT_GRAPHVERSION", "Invalid format for graphVersion")
    ∷ ("INVALID_FORMAT_PHONENUMBERID", "Invalid format for phoneNumberId")
    ∷ []

message_of : List (String × String) → String → String
message_of [] error = "Invalid provider configuration"
message_of ((code, message) ∷ rest) error =
    if str_eq code error then message else message_of rest error

pub sanitize_error : String → String
unfolding message_of
sanitize_error error = message_of safe_errors error
