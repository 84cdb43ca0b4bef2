-- ===== src/Providers/Endpoint.antt =====
-- modules/providers/provider-validation.js: which endpoints may be called, and the connection test.
mod Examples
pub mod Addresses
use crmtsi_app.Common.{
  ℕ, String, Bool, true, false, not, ◌&&◌, ◌||◌, Option, none, some, List, [], ◌∷◌, ◌++◌, Result,
  ok, err, ◌>>◌, require, ltb, leb, ◌==◌, str_eq, if◌then◌else◌, any_of, Text, codes, decimal,
  text_eq, drop, Value, undefined, string, Object, field_of, starts_with, is_digit,
}
use crmtsi_app.Providers.Schema.{
  is_graph_version, validate_provider_config, validate_provider_credentials,
}

-- What is read of a `URL`; the port is absent where the address names none or its scheme's own.
pub record Url : Type 0 where
  pub protocol : Text
  pub hostname : Text
  pub port : Option ℕ

abbrev internal_ports : List ℕ
internal_ports =
    22 ∷ 23 ∷ 25 ∷ 53 ∷ 110 ∷ 143 ∷ 993 ∷ 995 ∷ 3306 ∷ 5432 ∷ 6379 ∷ 8086 ∷ 9200 ∷ 27017 ∷ []

abbrev blocked_hosts : List Text
blocked_hosts =
    codes "169.254.169.254"
    ∷ codes "metadata.google.internal"
    ∷ codes "metadata.azure.com"
    ∷ codes "169.254.169.254"
    ∷ []

-- `(1[6-9]|2[0-9]|3[0-1])\.`
abbrev is_private_second : Text → Bool
is_private_second (c ∷ d ∷ e ∷ _) =
    ((c == b'1' && leb b'6' d && leb d b'9')
      || (c == b'2' && is_digit d)
      || (c == b'3' && leb b'0' d && leb d b'1'))
    && e == b'.'
is_private_second _ = false

-- `^(10\.|172\.(1[6-9]|2[0-9]|3[0-1])\.|192\.168\.)`
pub is_private_ip : Text → Bool
is_private_ip host =
    starts_with (codes "10.") host
    || (starts_with (codes "172.") host && is_private_second (drop 4 host))
    || starts_with (codes "192.168.") host

abbrev is_localhost : Text → Bool
is_localhost host =
    text_eq host (codes "localhost")
    || text_eq host (codes "127.0.0.1")
    || text_eq host (codes "::1")

abbrev port_of : Url → ℕ
port_of u = elim u.port [
  | some p ↦ p
  | none ↦ if text_eq u.protocol (codes "https:") then 443 else 80
]

pub check_url : Url → Result (Unit {0})
unfolding is_private_ip
check_url u = do
  require (not (any_of (text_eq u.hostname) blocked_hosts)) "SSRF_BLOCKED_METADATA"
  require (not (is_private_ip u.hostname && not (is_localhost u.hostname)))
      "SSRF_BLOCKED_PRIVATE_IP"
  require (text_eq u.protocol (codes "http:") || text_eq u.protocol (codes "https:"))
      "SSRF_BLOCKED_PROTOCOL"
  require (not (any_of (λ p. p == port_of u) internal_ports)) "SSRF_BLOCKED_INTERNAL_PORT"
  ok tt

pub check_parsed : Option Url → Result (Unit {0})
unfolding check_url
check_parsed none = err "INVALID_URL"
check_parsed (some u) = check_url u

-- The text of a value in a template or as the argument of `URL`; only texts pass the schema.
abbrev pub text_of : Value → Text
text_of (string t) = t
text_of _ = []

-- Why a connection cannot be used: a code, or a code that ends in the HTTP status.
pub data TestError : Type 0 where
  code : String → TestError
  status_code : String → ℕ → TestError

pub data Tested : Type 0 where
  valid : Tested
  invalid : TestError → Tested

-- What comes of a request: an answer with its status, and whether its body is JSON; an abort by the
-- time limit; or any other failure.
pub data Reply : Type 0 where
  answered : ℕ → Bool → Reply
  aborted failed : Reply

pub record Request : Type 0 where
  pub url : Text
  pub bearer : Value

-- The names of the errors of a provider's test.
pub read_reply : String → String → String → Reply → Tested
read_reply failure timeout other (answered status is_json) =
    if leb 200 status && ltb status 300
    then if is_json then valid else invalid (code other)
    else invalid (status_code failure status)
read_reply failure timeout other aborted = invalid (code timeout)
read_reply failure timeout other failed = invalid (code other)

-- `\/$`
pub strip_slash : Text → Text
strip_slash [] = []
strip_slash (c ∷ []) = if c == b'/' then [] else c ∷ []
strip_slash (c ∷ d ∷ t) = c ∷ strip_slash (d ∷ t)

-- The request, whose template throws where the credentials are null.
abbrev ask : (Request → Reply) → (url : Text) → (field : String) → Option Object → Reply
ask fetch url field none = failed
ask fetch url field (some credentials) =
    fetch (record { url = url; bearer = field_of credentials field })

-- `parse_url` is the constructor `URL` (`none` where it throws), and `fetch` sends a request.
module _ (parse_url : Text → Option Url) (fetch : Request → Reply) where
  pub validate_waha_endpoint : Value → Result (Unit {0})
  unfolding check_parsed
  validate_waha_endpoint base_url = check_parsed (parse_url (text_of base_url))

  pub validate_meta_endpoint : Value → Result (Unit {0})
  validate_meta_endpoint version =
      require (is_graph_version (text_of version)) "INVALID_FORMAT_GRAPHVERSION"

  -- The credentials are what the caller passes, an object or null.
  pub test_waha_connection : (config : Object) → (credentials : Option Object) → Tested
  unfolding validate_waha_endpoint read_reply strip_slash
  test_waha_connection config credentials =
      elim (validate_waha_endpoint (field_of config "baseUrl")) [
        | err e ↦ invalid (code e)
        | ok _ ↦
            read_reply "WAHA_CONNECTION_FAILED" "WAHA_CONNECTION_TIMEOUT" "WAHA_CONNECTION_ERROR" (
              ask fetch
                (strip_slash (text_of (field_of config "baseUrl"))
                  ++ codes "/api/session/status/"
                  ++ text_of (field_of config "sessionName"))
                "apiKey" credentials)
      ]

  pub test_meta_connection : (config : Object) → (credentials : Option Object) → Tested
  unfolding validate_meta_endpoint read_reply
  test_meta_connection config credentials =
      elim (validate_meta_endpoint (field_of config "graphVersion")) [
        | err e ↦ invalid (code e)
        | ok _ ↦
            read_reply "META_CONNECTION_FAILED" "META_CONNECTION_TIMEOUT" "META_CONNECTION_ERROR" (
              ask fetch
                (codes "https://graph.facebook.com/"
                  ++ text_of (field_of config "graphVersion")
                  ++ codes "/"
                  ++ text_of (field_of config "phoneNumberId"))
                "accessToken" credentials)
      ]

  pub test_provider_connection : String → (config : Object) → (credentials : Option Object) → Tested
  unfolding test_waha_connection test_meta_connection
  test_provider_connection provider config credentials =
      if str_eq provider "waha"
      then test_waha_connection config credentials
      else if str_eq provider "meta"
      then test_meta_connection config credentials
      else invalid (code "PROVIDER_NOT_ALLOWLISTED")

  abbrev check_endpoint : String → Object → Result (Unit {0})
  check_endpoint provider config =
      if str_eq provider "waha"
      then validate_waha_endpoint (field_of config "baseUrl")
      else if str_eq provider "meta"
      then validate_meta_endpoint (field_of config "graphVersion")
      else ok tt

  -- `lower` is `toLowerCase`.
  pub validate_full_provider_setup :
      (lower : String → String) → String → (config credentials : Object) → Result (Unit {0})
  unfolding validate_waha_endpoint validate_meta_endpoint
  validate_full_provider_setup lower provider config credentials = do
    validate_provider_config lower provider (some config)
    validate_provider_credentials lower provider (some credentials)
    check_endpoint provider config

abbrev error_text : TestError → Text
error_text (code s) = codes s
error_text (status_code s n) = codes s ++ codes "_" ++ decimal n

abbrev safe_errors : List (String × String)
safe_errors =
    ("SSRF_BLOCKED_METADATA", "Invalid configuration: metadata endpoint not allowed")
    ∷ ("SSRF_BLOCKED_PRIVATE_IP", "Invalid configuration: private IP not allowed")
    ∷ ("SSRF_BLOCKED_PROTOCOL", "Invalid configuration: protocol not allowed")
    ∷ ("SSRF_BLOCKED_INTERNAL_PORT", "Invalid configuration: internal port not allowed")
    ∷ ("INVALID_URL", "Invalid configuration: malformed URL")
    ∷ ("INVALID_FORMAT_GRAPHVERSION", "Invalid format for graphVersion")
    ∷ ("MISSING_REQUIRED_FIELD_BASEURL", "Missing required field: baseUrl")
    ∷ ("MISSING_REQUIRED_FIELD_SESSIONNAME", "Missing required field: sessionName")
    ∷ ("MISSING_REQUIRED_FIELD_GRAPHVERSION", "Missing required field: graphVersion")
    ∷ ("MISSING_REQUIRED_FIELD_PHONENUMBERID", "Missing required field: phoneNumberId")
    ∷ ("MISSING_REQUIRED_FIELD_APIKEY", "Missing required field: apiKey")
    ∷ ("MISSING_REQUIRED_FIELD_WEBHOOKTOKEN", "Missing required field: webhookToken")
    ∷ ("MISSING_REQUIRED_FIELD_ACCESSTOKEN", "Missing required field: accessToken")
    ∷ ("MISSING_REQUIRED_FIELD_APPSECRET", "Missing required field: appSecret")
    ∷ ("MISSING_REQUIRED_FIELD_VERIFYTOKEN", "Missing required field: verifyToken")
    ∷ ("PROVIDER_NOT_ALLOWLISTED", "Provider not allowlisted")
    ∷ ("INVALID_FORMAT_BASEURL", "Invalid format for baseUrl")
    ∷ ("INVALID_FORMAT_PHONENUMBERID", "Invalid format for phoneNumberId")
    ∷ ("WAHA_CONNECTION_FAILED_400", "WAHA connection failed: bad request")
    ∷ ("WAHA_CONNECTION_FAILED_401", "WAHA connection failed: invalid credentials")
    ∷ ("WAHA_CONNECTION_FAILED_404", "WAHA connection failed: session not found")
    ∷ ("WAHA_CONNECTION_FAILED_500", "WAHA connection failed: server error")
    ∷ ("WAHA_CONNECTION_TIMEOUT", "WAHA connection timed out")
    ∷ ("WAHA_CONNECTION_ERROR", "WAHA connection error")
    ∷ ("META_CONNECTION_FAILED_400", "Meta connection failed: bad request")
    ∷ ("META_CONNECTION_FAILED_401", "Meta connection failed: invalid credentials")
    ∷ ("META_CONNECTION_FAILED_404", "Meta connection failed: phone number not found")
    ∷ ("META_CONNECTION_FAILED_500", "Meta connection failed: server error")
    ∷ ("META_CONNECTION_TIMEOUT", "Meta connection timed out")
    ∷ ("META_CONNECTION_ERROR", "Meta connection error")
    ∷ []

message_of : List (String × String) → Text → String
message_of [] error = "Configuration validation failed"
message_of ((name, message) ∷ rest) error =
    if text_eq (codes name) error then message else message_of rest error

pub sanitize_validation_error : TestError → String
unfolding message_of
sanitize_validation_error e = message_of safe_errors (error_text e)
