-- ===== src/Setup/Service.antt =====
-- createSetupService of modules/setup/setup-service.js: the set-up of each tenant, in the rows of
-- installation_setup. Its encryption is that of the credential service.
pub mod Calls
use Prim.Native.String
use crmtsi_app.Common.{
  ℕ, ◌+◌, String, Bool, true, false, not, ◌&&◌, ◌||◌, Option, none, some, List, [], ◌∷◌, ◌++◌, map,
  Result, ok, err, ◌>>◌, require, str_eq, if◌then◌else◌, ltb, leb, find_first, any_of, keep, Text,
  Object,
}
use crmtsi_app.Providers.Endpoint.{Url}
use crmtsi_app.Setup.{
  State, uninitialized, bootstrapped, draft, validated, activating, active, is_uninitialized,
  is_validated, has_draft, is_active,
}
use crmtsi_app.Setup.Validation.{
  Draft, fields, allowed, validate_provider_config, validate_waha_config,
}

-- A row; no attempt yet is time 0. The column's check admits exactly the states of `State`.
pub record Row : Type 0 where
  pub tenant_id : String
  pub bootstrap_hash : String
  pub bootstrap_salt : String
  pub bootstrap_expires_at : Option ℕ
  pub state : State
  pub version : ℕ
  pub draft_config : Option Draft
  pub active_config : Option Draft
  pub secrets_hash : Option String
  pub validation_attempts : ℕ
  pub last_validation_at : ℕ

pub record Limits : Type 0 where
  pub bootstrap_ttl_ms : ℕ
  pub validation_rate_limit : ℕ
  pub validation_rate_window_ms : ℕ

abbrev pub default_limits : Limits
default_limits = record {
  bootstrap_ttl_ms = 86400000;
  validation_rate_limit = 10;
  validation_rate_window_ms = 60000;
}

abbrev pub of_tenant : String → Row → Bool
of_tenant tenant_id r = str_eq r.tenant_id tenant_id

pub get_setup : String → List Row → Option Row
get_setup tenant_id rows = find_first (of_tenant tenant_id) rows

abbrev change : String → (Row → Row) → Row → Row
change tenant_id f r = if of_tenant tenant_id r then f r else r

-- `update installation_setup … where tenant_id`
pub update_row : String → (Row → Row) → List Row → List Row
update_row tenant_id f rows = map (change tenant_id f) rows

-- The transaction that the calls on an existing row share: the row is read for update, a guard that
-- throws rolls back, and the answer is computed from the row as it was read.
pub transact : String → (Row → Result (Unit {0})) → (Row → Row) → List Row → List Row × Result Row
unfolding get_setup update_row
transact tenant_id guard f rows = elim (get_setup tenant_id rows) [
  | none ↦ (rows, err "NOT_BOOTSTRAPPED")
  | some current ↦ elim (guard current) [
    | err e ↦ (rows, err e)
    | ok _ ↦ (update_row tenant_id f rows, ok current)
  ]
]

abbrev is_activating : State → Bool
is_activating activating = true
is_activating _ = false

abbrev expiry : Option ℕ → ℕ → ℕ
expiry none standard = standard
expiry (some at) standard = at

abbrev is_past : Option ℕ → ℕ → Bool
is_past none now = false
is_past (some at) now = ltb at now

abbrev is_bootstrapped : Option Row → Bool
is_bootstrapped none = false
is_bootstrapped (some r) = true

-- `sha256` is the hash, with its result in hexadecimal.
module _ (sha256 : String → String) where
  abbrev pub hash_secret : String → String → String
  hash_secret secret salt = sha256 (String.◌++◌ secret salt)

  abbrev new_row : Limits → (now : ℕ) → String → (secret salt : String) → Option ℕ → Row
  new_row limits now tenant_id secret salt expires_at = record {
    tenant_id = tenant_id;
    bootstrap_hash = hash_secret secret salt;
    bootstrap_salt = salt;
    bootstrap_expires_at = some (expiry expires_at (now + limits.bootstrap_ttl_ms));
    state = bootstrapped;
    version = 1;
    draft_config = none;
    active_config = none;
    secrets_hash = none;
    validation_attempts = 0;
    last_validation_at = 0;
  }

  -- `salt` is the random one.
  pub bootstrap :
      Limits
      → (now : ℕ) → (tenant_id secret bootstrap_secret salt : String) → Option ℕ
      → List Row
      → List Row × Result (State × ℕ)
  unfolding get_setup
  bootstrap limits now tenant_id secret bootstrap_secret salt expires_at rows =
      if is_bootstrapped (get_setup tenant_id rows)
      then (rows, err "ALREADY_BOOTSTRAPPED")
      else if str_eq secret "" || str_eq bootstrap_secret "" || not (str_eq secret bootstrap_secret)
      then (rows, err "BOOTSTRAP_SECRET_INVALID")
      else (rows ++ new_row limits now tenant_id secret salt expires_at ∷ [], ok (bootstrapped, 1))

  abbrev check_secret : (now : ℕ) → String → Option Row → Result (Unit {0})
  check_secret now secret none = err "NOT_BOOTSTRAPPED"
  check_secret now secret (some r) = do
    require (not (is_uninitialized r.state)) "NOT_BOOTSTRAPPED"
    require (not (is_past r.bootstrap_expires_at now)) "BOOTSTRAP_EXPIRED"
    require (str_eq (hash_secret secret r.bootstrap_salt) r.bootstrap_hash)
        "BOOTSTRAP_SECRET_INVALID"

  pub verify_bootstrap_secret :
      (now : ℕ) → (tenant_id secret : String) → List Row → Result (Unit {0})
  unfolding get_setup
  verify_bootstrap_secret now tenant_id secret rows =
      check_secret now secret (get_setup tenant_id rows)

  abbrev renew_secret : (secret salt : String) → Row → Row
  renew_secret secret salt r = record r {
    bootstrap_hash = hash_secret secret salt;
    bootstrap_salt = salt;
  }

  -- The update of rotateBootstrapSecret; the audit event that follows it is another statement.
  pub rotate_bootstrap_secret :
      (now : ℕ)
      → (tenant_id old_secret new_secret salt : String) → List Row
      → List Row × Result (Unit {0})
  unfolding verify_bootstrap_secret update_row
  rotate_bootstrap_secret now tenant_id old_secret new_secret salt rows =
      elim (verify_bootstrap_secret now tenant_id old_secret rows) [
        | err e ↦ (rows, err e)
        | ok _ ↦ (update_row tenant_id (renew_secret new_secret salt) rows, ok tt)
      ]

abbrev is_waha : Option String → Bool
is_waha none = false
is_waha (some name) = str_eq name "waha"

-- `parse_url` is the constructor `URL`.
module _ (parse_url : Text → Option Url) where
  abbrev check_waha : Option Draft → Result (Unit {0})
  check_waha none = ok tt
  check_waha (some d) =
      if is_waha (allowed d.provider) then validate_waha_config parse_url d.config else ok tt

  abbrev pub check_draft : Option Draft → Result (Unit {0})
  check_draft config = do validate_provider_config config; check_waha config

  abbrev draft_guard : Option Draft → Row → Result (Unit {0})
  draft_guard config r = do
    require (not (is_active r.state)) "ACTIVATION_CLOSED"
    require (not (is_activating r.state)) "ACTIVATION_IN_PROGRESS"
    check_draft config

  abbrev write_draft : Option Draft → Row → Row
  write_draft config r = record r { draft_config = config; state = draft; version = r.version + 1 }

  pub set_draft_config : String → Option Draft → List Row → List Row × Result Row
  unfolding transact
  set_draft_config tenant_id config rows =
      transact tenant_id (draft_guard config) (write_draft config) rows

abbrev is_recent : Limits → ℕ → Row → Bool
is_recent limits now r = ltb now (r.last_validation_at + limits.validation_rate_window_ms)

abbrev validation_guard : Limits → ℕ → Row → Result (Unit {0})
validation_guard limits now r = do
  require (has_draft r.state) "NO_DRAFT_TO_VALIDATE"
  require (not (is_recent limits now r && leb limits.validation_rate_limit r.validation_attempts))
      "VALIDATION_RATE_EXCEEDED"

abbrev accept : Limits → ℕ → String → Row → Row
accept limits now token r = record r {
  state = validated;
  secrets_hash = some token;
  validation_attempts = if is_recent limits now r then r.validation_attempts + 1 else 1;
  last_validation_at = now;
}

-- `token` is the random value that is stored; the answer holds another one.
pub validate_draft :
    Limits → (now : ℕ) → (tenant_id token : String) → List Row → List Row × Result Row
unfolding transact
validate_draft limits now tenant_id token rows =
    transact tenant_id (validation_guard limits now) (accept limits now token) rows

abbrev is_present : Option Draft → Bool
is_present none = false
is_present (some d) = true

abbrev activation_guard : Row → Result (Unit {0})
activation_guard r = do
  require (is_validated r.state) "INVALID_STATE_FOR_ACTIVATION"
  require (is_present r.draft_config) "NO_DRAFT_TO_VALIDATE"

abbrev begin_row : Row → Row
begin_row r = record r { state = activating }

-- The first part of `activate`, up to its commit.
pub begin_activation : String → List Row → List Row × Result Row
unfolding transact
begin_activation tenant_id rows = transact tenant_id activation_guard begin_row rows

pub record Status : Type 0 where
  pub state : State
  pub version : ℕ

abbrev pub status_of : Option Row → Status
status_of none = record { state = uninitialized; version = 0 }
status_of (some r) = record { state = r.state; version = r.version }

pub get_setup_status : String → List Row → Status
unfolding get_setup
get_setup_status tenant_id rows = status_of (get_setup tenant_id rows)

abbrev active_of : Option Row → Option Draft
active_of none = none
active_of (some r) = r.active_config

pub get_active_config : String → List Row → Option Draft
unfolding get_setup
get_active_config tenant_id rows = active_of (get_setup tenant_id rows)
