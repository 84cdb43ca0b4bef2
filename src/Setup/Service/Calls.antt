-- ===== src/Setup/Service/Calls.antt =====
-- modules/setup/setup-service.js: what `activate` does after its commit, with the tables that it
-- writes, and the calls of the service one after the other.
mod Examples
pub mod Rows
pub mod Views
pub mod Moves
pub mod Over
use Prim.Native.String
use crmtsi_app.Common.{
  ℕ, ◌+◌, String, Bool, true, false, not, ◌&&◌, Option, none, some, List, [], ◌∷◌, ◌++◌, map,
  Result, ok, err, str_eq, if◌then◌else◌, find_first, any_of, Text, Object,
}
use crmtsi_app.Providers.Endpoint.{Url}
use crmtsi_app.Setup.{State, active, validated}
use crmtsi_app.Setup.Validation.{Draft, fields, allowed}
use crmtsi_app.Setup.Service.{
  Row, Limits, get_setup, update_row, bootstrap, rotate_bootstrap_secret, set_draft_config,
  validate_draft, begin_activation,
}

-- An active row of provider_configs.
pub record Setting : Type 0 where
  pub tenant_id : String
  pub provider : String
  pub config : Object
  pub ciphertext : Text
  pub version : ℕ

pub record Audit : Type 0 where
  pub tenant_id : String
  pub actor_id : String
  pub action : String
  pub resource_id : String

pub record Store : Type 0 where
  pub rows : List Row
  pub settings : List Setting
  pub audits : List Audit
  -- The activations that were begun and are not finished, each with the draft it read.
  pub in_flight : List (String × Draft)

abbrev name_of : Option String → String
name_of none = ""
name_of (some name) = name

abbrev setting_of : String → Draft → Text → Setting
setting_of tenant_id d ciphertext = record {
  tenant_id = tenant_id;
  provider = name_of (allowed d.provider);
  config = fields d.config;
  ciphertext = ciphertext;
  version = 1;
}

abbrev same_setting : Setting → Setting → Bool
same_setting n q = str_eq q.tenant_id n.tenant_id && str_eq q.provider n.provider

abbrev replace_setting : Setting → Setting → Setting
replace_setting n q =
    if same_setting n q
    then record q { config = n.config; ciphertext = n.ciphertext; version = q.version + 1 }
    else q

-- `insert … on conflict … do update`
pub upsert_setting : Setting → List Setting → List Setting
upsert_setting n settings =
    if any_of (same_setting n) settings
    then map (replace_setting n) settings
    else settings ++ n ∷ []

abbrev activated_audit : String → String → Draft → Audit
activated_audit tenant_id actor_id d = record {
  tenant_id = tenant_id;
  actor_id = actor_id;
  action = "provider.config.activated";
  resource_id = String.◌++◌ tenant_id (String.◌++◌ ":" (name_of (allowed d.provider)));
}

-- The statement after the commit that is refused.
pub data Point : Type 0 where
  at_upsert at_audit at_finish : Point

-- All succeed; or one is refused, and then the update that undoes the activation succeeds or not, or
-- the process ends before it.
pub data Outcome : Type 0 where
  completes : Outcome
  fails : Point → (error : String) → (undone : Bool) → Outcome

abbrev upserted : Outcome → Bool
upserted (fails at_upsert e undone) = false
upserted _ = true

abbrev audited : Outcome → Bool
audited (fails at_upsert e undone) = false
audited (fails at_audit e undone) = false
audited _ = true

-- `ciphertext` is the encrypted configuration.
pub persist_provider_configs :
    (tenant_id actor_id : String) → Draft → Text → Outcome → Store → Store
unfolding upsert_setting
persist_provider_configs tenant_id actor_id d ciphertext o s = record s {
  settings =
      if upserted o
      then upsert_setting (setting_of tenant_id d ciphertext) s.settings
      else s.settings;
  audits = if audited o then s.audits ++ activated_audit tenant_id actor_id d ∷ [] else s.audits;
}

abbrev pub finish_row : Row → Row
finish_row r = record r {
  state = active;
  active_config = r.draft_config;
  draft_config = none;
  secrets_hash = none;
  version = r.version + 1;
}

abbrev pub undo_row : Row → Row
undo_row r = record r { state = validated }

-- The rows of the set-up after the statements that follow the commit.
pub settle_rows : String → Outcome → List Row → List Row
settle_rows tenant_id completes rows = update_row tenant_id finish_row rows
settle_rows tenant_id (fails p e true) rows = update_row tenant_id undo_row rows
settle_rows tenant_id (fails p e false) rows = rows

pub finish_activation :
    (tenant_id actor_id : String) → Draft → Text → Outcome → Store → Store × Result State
unfolding persist_provider_configs settle_rows
finish_activation tenant_id actor_id d ciphertext o s = (
  record (persist_provider_configs tenant_id actor_id d ciphertext o s) {
    rows = settle_rows tenant_id o s.rows;
  },
  elim o [ completes ↦ ok active | fails p e undone ↦ err e ],
)

-- The calls; `settles` is the end of an activation that was begun.
pub data Call : Type 0 where
  bootstraps : (now : ℕ) → (secret bootstrap_secret salt : String) → Option ℕ → Call
  drafts : Option Draft → Call
  validates : (now : ℕ) → (token : String) → Call
  activates : Call
  settles : (actor_id : String) → (ciphertext : Text) → Outcome → Call
  rotates : (now : ℕ) → (actor_id old_secret new_secret salt : String) → (audited : Bool) → Call

abbrev pub flight_of : String → String × Draft → Bool
flight_of tenant_id f = str_eq f.0 tenant_id

-- A begun activation keeps the draft that its transaction read.
abbrev pub takes_off : String → Result Row → List (String × Draft) → List (String × Draft)
takes_off tenant_id (err e) flights = flights
takes_off tenant_id (ok r) flights = elim r.draft_config [
  | none ↦ flights
  | some d ↦ (tenant_id, d) ∷ flights
]

pub lands : String → List (String × Draft) → List (String × Draft)
lands tenant_id [] = []
lands tenant_id (f ∷ flights) =
    if flight_of tenant_id f then lands tenant_id flights else f ∷ lands tenant_id flights

abbrev rotated_audit : String → String → Audit
rotated_audit tenant_id actor_id = record {
  tenant_id = tenant_id;
  actor_id = actor_id;
  action = "bootstrap.secret.rotated";
  resource_id = tenant_id;
}

abbrev pub settle_flight :
    String → String → Text → Outcome → Option (String × Draft) → Store → Store
settle_flight tenant_id actor_id ciphertext o none s = s
settle_flight tenant_id actor_id ciphertext o (some f) s =
    record (finish_activation tenant_id actor_id f.1 ciphertext o s).0 {
      in_flight = lands tenant_id s.in_flight;
    }

module _ (sha256 : String → String) (parse_url : Text → Option Url) (limits : Limits) where
  -- A call of a tenant.
  pub step : String → Call → Store → Store
  unfolding lands bootstrap set_draft_config validate_draft begin_activation finish_activation
      rotate_bootstrap_secret
  step t (bootstraps now secret bootstrap_secret salt expires_at) s = record s {
    rows = (bootstrap sha256 limits now t secret bootstrap_secret salt expires_at s.rows).0;
  }
  step t (drafts config) s = record s { rows = (set_draft_config parse_url t config s.rows).0 }
  step t (validates now token) s = record s { rows = (validate_draft limits now t token s.rows).0 }
  step t activates s =
      let begun = begin_activation t s.rows in
      record s { rows = begun.0; in_flight = takes_off t begun.1 s.in_flight }
  step t (settles actor_id ciphertext o) s =
      settle_flight t actor_id ciphertext o (find_first (flight_of t) s.in_flight) s
  step t (rotates now actor_id old_secret new_secret salt audited) s =
      let renewed = rotate_bootstrap_secret sha256 now t old_secret new_secret salt s.rows in
      record s {
        rows = renewed.0;
        audits = elim renewed.1 [
          | err e ↦ s.audits
          | ok _ ↦ if audited then s.audits ++ rotated_audit t actor_id ∷ [] else s.audits
        ];
      }

  pub run : Store → List (String × Call) → Store
  run s [] = s
  run s ((t, c) ∷ calls) = run (step t c s) calls
