-- ===== src/Setup.antt =====
-- modules/setup/state-machine.js: the first set-up of an installation. A call answers the new state
-- and its result, since a refused call may have changed the state.
mod Examples
pub mod Invariant
pub mod RateLimit
pub mod Validation
pub mod Service
use Prim.Native.String
use crmtsi_app.Common.{
  ℕ, ◌+◌, ◌-◌, String, Bool, true, false, not, ◌&&◌, ◌||◌, Option, none, some, List, [], ◌∷◌,
  Result, ok, err, str_eq, if◌then◌else◌, has, ltb,
}

pub data State : Type 0 where
  uninitialized bootstrapped draft validated activating active : State

-- The argument of `setDraftConfig`, whose values are texts; an absent one is empty.
pub record Draft : Type 0 where
  pub provider : String
  pub config : List (String × String)

pub record Machine : Type 0 where
  pub state : State
  pub version : ℕ
  pub draft_config : Option Draft
  pub secrets_hash : Option String
  pub validation_attempts : ℕ
  pub last_validation_at : ℕ
  -- Promises of `activate` that are not settled.
  pub pending : ℕ

abbrev pub new : Machine
new = record {
  state = uninitialized;
  version = 0;
  draft_config = none;
  secrets_hash = none;
  validation_attempts = 0;
  last_validation_at = 0;
  pending = 0;
}

abbrev pub Answer : Type 0
Answer = Machine × Result (Unit {0})

abbrev pub is_uninitialized : State → Bool
is_uninitialized uninitialized = true
is_uninitialized _ = false

abbrev pub is_validated : State → Bool
is_validated validated = true
is_validated _ = false

abbrev pub is_active : State → Bool
is_active active = true
is_active _ = false

-- The states that a new draft is taken in.
abbrev pub takes_draft : State → Bool
takes_draft bootstrapped = true
takes_draft draft = true
takes_draft validated = true
takes_draft _ = false

abbrev pub has_draft : State → Bool
has_draft draft = true
has_draft validated = true
has_draft _ = false

-- `hash` is SHA-256.
pub bootstrap :
    (hash : String → String) (bootstrap_secret tenant_id secret : String) → Machine → Answer
bootstrap hash bootstrap_secret tenant_id secret m =
    if not (is_uninitialized m.state)
    then (m, err "ALREADY_BOOTSTRAPPED")
    else if not (str_eq tenant_id "")
    then (m, err "TENANT_MISMATCH")
    else if str_eq secret "" || not (str_eq (hash secret) (hash bootstrap_secret))
    then (m, err "BOOTSTRAP_SECRET_INVALID")
    else (record m { state = bootstrapped; version = 1; validation_attempts = 0 }, ok tt)

-- What the `activate` callback does: it returns, throws, or returns a promise.
pub data Callback : Type 0 where
  returns promises : Callback
  throws : String → Callback

abbrev finish : Machine → Machine
finish m = record m { state = active; draft_config = none; secrets_hash = none }

run_callback : Callback → Machine → Answer
run_callback returns m = (finish m, ok tt)
run_callback promises m = (record m { state = activating; pending = m.pending + 1 }, ok tt)
run_callback (throws e) m = (m, err e)

pub activate : Callback → Machine → Answer
unfolding run_callback
activate c m =
    if not (is_validated m.state) then (m, err "INVALID_STATE_FOR_ACTIVATION") else run_callback c m

-- The handlers of the promise.
pub settle : Bool → Machine → Machine
settle true m = record (finish m) { pending = m.pending - 1 }
settle false m = record m { state = validated; pending = m.pending - 1 }

abbrev pub value : List (String × String) → String → String
value [] field = ""
value ((k, v) ∷ c) field = if str_eq k field then v else value c field

-- The required fields of a provider, each with its upper case.
abbrev pub required_fields : String → List (String × String)
required_fields provider =
    if str_eq provider "waha"
    then ("baseUrl", "BASEURL") ∷ ("sessionName", "SESSIONNAME") ∷ []
    else ("graphVersion", "GRAPHVERSION") ∷ ("phoneNumberId", "PHONENUMBERID") ∷ []

abbrev pub allowed_providers : List String
allowed_providers = "waha" ∷ "meta" ∷ []

missing_field : List (String × String) → List (String × String) → Option String
missing_field config [] = none
missing_field config ((field, upper) ∷ fields) =
    if str_eq (value config field) "" then some upper else missing_field config fields

store_draft : Draft → Option String → Machine → Answer
store_draft d (some upper) m = (m, err (String.◌++◌ "MISSING_REQUIRED_FIELD_" upper))
store_draft d none m = (
  record m {
    draft_config = some d;
    state = draft;
    validation_attempts = 0;
    last_validation_at = 0;
  },
  ok tt,
)

pub set_draft_config : Draft → Machine → Answer
unfolding store_draft missing_field
set_draft_config d m =
    if not (takes_draft m.state)
    then (m, err (if is_active m.state then "ACTIVATION_CLOSED" else "INVALID_STATE_FOR_DRAFT"))
    else if str_eq d.provider "" || not (has allowed_providers d.provider)
    then (m, err "PROVIDER_NOT_ALLOWLISTED")
    else store_draft d (missing_field d.config (required_fields d.provider)) m

abbrev accept : ℕ → String → Machine → Answer
accept now token m =
    (record m { last_validation_at = now; secrets_hash = some token; state = validated }, ok tt)

-- An attempt less than a minute after the last accepted one is counted.
recent_validation : (rate_limit now : ℕ) → String → Machine → Answer
recent_validation rate_limit now token m =
    let counted = record m { validation_attempts = m.validation_attempts + 1 } in
    if ltb rate_limit (m.validation_attempts + 1)
    then (counted, err "VALIDATION_RATE_EXCEEDED")
    else accept now token counted

-- `token` is the random value.
pub validate_draft : (rate_limit now : ℕ) → String → Machine → Answer
unfolding recent_validation
validate_draft rate_limit now token m =
    if not (has_draft m.state)
    then (m, err "NO_DRAFT_TO_VALIDATE")
    else if ltb now (m.last_validation_at + 60000)
    then recent_validation rate_limit now token m
    else accept now token (record m { validation_attempts = 1 })

-- The calls, and the settling of a promise that is pending.
pub data Event : Type 0 where
  bootstraps : (tenant_id secret : String) → Event
  activates : Callback → Event
  drafts : Draft → Event
  validates : ℕ → String → Event
  settles : Bool → Event

module _ (hash : String → String) (bootstrap_secret : String) (rate_limit : ℕ) where
  pub step : Event → Machine → Machine
  unfolding bootstrap activate set_draft_config validate_draft settle
  step (bootstraps tenant_id secret) m = (bootstrap hash bootstrap_secret tenant_id secret m).0
  step (activates c) m = (activate c m).0
  step (drafts d) m = (set_draft_config d m).0
  step (validates now token) m = (validate_draft rate_limit now token m).0
  step (settles done) m = if ltb 0 m.pending then settle done m else m

  pub run : Machine → List Event → Machine
  run m [] = m
  run m (e ∷ es) = run (step e m) es
