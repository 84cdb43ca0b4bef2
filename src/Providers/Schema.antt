-- ===== src/Providers/Schema.antt =====
-- modules/providers/provider-registry.js: the fields that a provider needs, and their formats.
use Prim.Native.String
use crmtsi_app.Common.{
  ℕ, String, Bool, true, false, not, ◌&&◌, ◌||◌, Option, none, some, List, [], ◌∷◌, Result, ok, err,
  ◌>>◌, require, ltb, ◌==◌, str_eq, if◌then◌else◌, has, Text, codes, length, Value, undefined, null,
  string, Object, field_of, starts_with, is_digit,
}

-- The rules of a field, with its upper case; 0 stands for a length that is not limited. Every field
-- is a text.
pub record Rule : Type 0 where
  pub field : String
  pub upper : String
  pub pattern : Text → Bool
  pub min_length : ℕ
  pub max_length : ℕ

abbrev anything : Text → Bool
anything t = true

-- `^https?://`
abbrev pub is_http : Text → Bool
is_http t = starts_with (codes "http://") t || starts_with (codes "https://") t

-- `\d*$` and `\d+$`
unfoldable pub all_digits : Text → Bool
all_digits [] = true
all_digits (c ∷ t) = is_digit c && all_digits t

abbrev pub is_number : Text → Bool
is_number [] = false
is_number (c ∷ t) = all_digits (c ∷ t)

-- `\d*\.\d+$`
unfoldable pub is_decimal : Text → Bool
is_decimal [] = false
is_decimal (c ∷ t) = (is_digit c && is_decimal t) || (c == b'.' && is_number t)

-- `^v\d+\.\d+$`
unfoldable pub is_graph_version : Text → Bool
unfolding is_decimal all_digits
is_graph_version (c ∷ d ∷ t) = c == b'v' && is_digit d && is_decimal t
is_graph_version _ = false

abbrev free_text : String → String → Rule
free_text field upper = record {
  field = field;
  upper = upper;
  pattern = anything;
  min_length = 1;
  max_length = 0;
}

abbrev pub Schema : Type 0
Schema = List Rule

abbrev pub config_schema : String → Schema
config_schema provider =
    if str_eq provider "waha"
    then record (free_text "baseUrl" "BASEURL") { pattern = is_http; min_length = 0 }
      ∷ record (free_text "sessionName" "SESSIONNAME") { max_length = 100 }
      ∷ []
    else record (free_text "graphVersion" "GRAPHVERSION") {
      pattern = is_graph_version;
      min_length = 0;
    }
      ∷ record (free_text "phoneNumberId" "PHONENUMBERID") { pattern = is_number; min_length = 0 }
      ∷ []

abbrev pub credentials_schema : String → Schema
credentials_schema provider =
    if str_eq provider "waha"
    then free_text "apiKey" "APIKEY" ∷ free_text "webhookToken" "WEBHOOKTOKEN" ∷ []
    else free_text "accessToken" "ACCESSTOKEN"
      ∷ free_text "appSecret" "APPSECRET"
      ∷ free_text "verifyToken" "VERIFYTOKEN"
      ∷ []

abbrev pub allowed_providers : List String
allowed_providers = "waha" ∷ "meta" ∷ []

abbrev error_for : String → Rule → String
error_for kind r = String.◌++◌ kind r.upper

-- Absent for `validateSchema`: undefined, null or the empty text.
abbrev pub is_missing : Value → Bool
is_missing undefined = true
is_missing null = true
is_missing (string []) = true
is_missing _ = false

-- The first loop, over the required fields, which are all those of the schema; `absent` is the test.
unfoldable pub check_required : (absent : Value → Bool) → Schema → Object → Result (Unit {0})
check_required absent [] o = ok tt
check_required absent (r ∷ rules) o =
    let rest = check_required absent rules o in
    if absent (field_of o r.field) then err (error_for "MISSING_REQUIRED_FIELD_" r) else rest

unfoldable pub check_rule : Rule → Value → Result (Unit {0})
check_rule r undefined = ok tt
check_rule r (string t) = do
  require (r.pattern t) (error_for "INVALID_FORMAT_" r)
  require (not (ltb (length t) r.min_length)) (error_for "TOO_SHORT_" r)
  require (r.max_length == 0 || not (ltb r.max_length (length t))) (error_for "TOO_LONG_" r)
check_rule r _ = err (error_for "INVALID_TYPE_" r)

-- The second loop, over the properties.
unfoldable pub check_rules : Schema → Object → Result (Unit {0})
unfolding check_rule
check_rules [] o = ok tt
check_rules (r ∷ rules) o = do check_rule r (field_of o r.field); check_rules rules o

-- `none` is a value that is not an object.
pub validate_schema : Option Object → Schema → Result (Unit {0})
unfolding check_required check_rules
validate_schema none schema = err "INVALID_OBJECT"
validate_schema (some o) schema = do check_required is_missing schema o; check_rules schema o

-- The name of a provider is one of the allowed, in any mixture of cases: `lower` is its lower case.
pub validate_provider_config :
    (lower : String → String) → String → Option Object → Result (Unit {0})
validate_provider_config lower provider config = do
  require (has allowed_providers (lower provider)) "PROVIDER_NOT_ALLOWLISTED"
  validate_schema config (config_schema (lower provider))

pub validate_provider_credentials :
    (lower : String → String) → String → Option Object → Result (Unit {0})
validate_provider_credentials lower provider credentials = do
  require (has allowed_providers (lower provider)) "PROVIDER_NOT_ALLOWLISTED"
  validate_schema credentials (credentials_schema (lower provider))
