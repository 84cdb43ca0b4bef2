-- ===== src/Providers/Service/Calls.antt =====
-- createProviderService of modules/providers/provider-service.js, and its calls one after the other.
mod Examples
pub mod Revoked
use Prim.Native.String
use crmtsi_app.Common.{
  ℕ, ◌+◌, String, Bool, true, false, not, ◌&&◌, ◌||◌, Option, none, some, List, [], ◌∷◌, ◌++◌, map,
  Result, ok, err, ◌>>◌, ◌>>=◌, require, str_eq, if◌then◌else◌, has, Text, Value, other, string,
  Object,
}
use crmtsi_app.Providers.Schema.{
  allowed_providers, validate_provider_config, validate_provider_credentials,
}
use crmtsi_app.Providers.Normalize.{normalize_provider_config, normalize_provider_credentials}
use crmtsi_app.Providers.Envelope.{Bytes, Crypto}
use crmtsi_app.Providers.Credentials
use crmtsi_app.Providers.Endpoint.{
  Url, Request, Reply, Tested, valid, invalid, test_provider_connection,
  validate_full_provider_setup, sanitize_validation_error,
}
use crmtsi_app.Providers.Service.{
  Config, Status, draft, active, revoked, is_active, is_draft, get_provider, update_configs,
}

pub record Audit : Type 0 where
  pub tenant_id : String
  pub actor_id : String
  pub action : String
  pub resource_id : String

pub record Store : Type 0 where
  pub configs : List Config
  pub credentials : List Credentials.Credential
  pub audits : List Audit

abbrev audit_of : (tenant_id actor_id provider action : String) → Audit
audit_of tenant_id actor_id provider action = record {
  tenant_id = tenant_id;
  actor_id = actor_id;
  action = action;
  resource_id = String.◌++◌ tenant_id (String.◌++◌ ":" provider);
}

abbrev key_of : (tenant_id provider : String) → Credentials.Key
key_of tenant_id provider = record {
  tenant_id = tenant_id;
  provider = provider;
  credential_type = "credentials";
}

abbrev fields : Option Object → Object
fields none = []
fields (some o) = o

abbrev draft_row : (tenant_id provider : String) → Object → Config
draft_row tenant_id provider config = record {
  tenant_id = tenant_id;
  provider = provider;
  config = config;
  credentials_version = 1;
  status = draft;
  activated_at = none;
}

abbrev set_version : ℕ → Config → Config
set_version v r = record r { credentials_version = v }

abbrev set_active : (now : ℕ) → Config → Config
set_active now r = record r { status = active; activated_at = some now }

abbrev set_revoked : Config → Config
set_revoked r = record r { status = revoked }

-- What the service is made with: the ciphers and the master key, `fetch` and the constructor `URL`, the
-- lower case of a text, and JSON.stringify with the encoding of its text.
pub record Environment : Type 0 where
  pub crypto : Crypto
  pub hash : Bytes → Text
  pub master_key : Bytes
  pub fetch : Request → Reply
  pub parse_url : Text → Option Url
  pub lower : String → String
  pub stringify : Object → Bytes

-- The calls that change the store, with their random bytes and the time.
pub data Call : Type 0 where
  creates : (salt iv : Bytes) → (config credentials : Option Object) → Call
  activates : (now : ℕ) → (actor_id : String) → Call
  deactivates : (actor_id : String) → Call
  rotates : (salt iv : Bytes) → (actor_id : String) → (credentials : Option Object) → Call

module _ (env : Environment) where
  abbrev normal_config : String → Option Object → Object
  normal_config provider config = normalize_provider_config env.lower provider (fields config)

  abbrev normal_credentials : String → Option Object → Object
  normal_credentials provider credentials =
      normalize_provider_credentials env.lower provider (fields credentials)

  -- The last check is the column's own.
  abbrev create_guard : String → (config credentials : Option Object) → Result (Unit {0})
  create_guard provider config credentials = do
    validate_provider_config env.lower provider config
    validate_provider_credentials env.lower provider credentials
    validate_full_provider_setup env.parse_url env.fetch env.lower provider
        (normal_config provider config) (normal_credentials provider credentials)
    require (has allowed_providers provider) "provider_configs_provider_check"

  abbrev stored :
      (salt iv : Bytes)
      → (tenant_id provider : String) → Option Object
      → Store
      → List Credentials.Credential × ℕ
  stored salt iv tenant_id provider credentials s =
      Credentials.store_credential env.crypto env.hash env.master_key salt iv
        (key_of tenant_id provider) (env.stringify (normal_credentials provider credentials))
        s.credentials

  -- `salt` and `iv` are the random bytes of the encryption.
  pub create_provider :
      (salt iv : Bytes)
      → (tenant_id provider : String) → (config credentials : Option Object) → Store
      → Store × Result ℕ
  unfolding update_configs
  create_provider salt iv tenant_id provider config credentials s =
      elim (create_guard provider config credentials) [
        | err e ↦ (s, err e)
        | ok _ ↦
            let (kept, version) = stored salt iv tenant_id provider credentials s in
            (
              record s {
                configs = update_configs tenant_id provider (set_version version) [] (
                    s.configs ++ draft_row tenant_id provider (normal_config provider config) ∷ []);
                credentials = kept;
              },
              ok version,
            )
      ]

  -- The object that getCredential answers, as the connection test is given it.
  abbrev answered_object : Option (Bytes × ℕ) → Option Object
  answered_object none = none
  answered_object (some (plaintext, version)) =
      some (("plaintext", string plaintext) ∷ ("version", other) ∷ [])

  abbrev test_of :
      (tenant_id provider : String) → Object → List Credentials.Credential → Result Tested
  test_of tenant_id provider config credentials =
      elim (Credentials.get_credential env.crypto env.hash env.master_key
        (key_of tenant_id provider) credentials) [
          | err e ↦ err e
          | ok found ↦ ok (
              test_provider_connection env.parse_url env.fetch provider config
                (answered_object found))
        ]

  abbrev pass : Tested → Result (Unit {0})
  pass valid = ok tt
  pass (invalid e) = err (sanitize_validation_error e)

  abbrev activation_guard :
      (tenant_id provider : String)
      → List Credentials.Credential
      → Option Config
      → Result (Unit {0})
  activation_guard tenant_id provider credentials none = err "PROVIDER_NOT_FOUND"
  activation_guard tenant_id provider credentials (some r) = do
    require (not (is_active r.status)) "ALREADY_ACTIVE"
    require (is_draft r.status) "INVALID_STATE_FOR_ACTIVATION"
    test_of tenant_id provider r.config credentials >>= pass

  pub activate_provider :
      (now : ℕ) → (tenant_id actor_id provider : String) → Store → Store × Result Status
  unfolding get_provider update_configs
  activate_provider now tenant_id actor_id provider s =
      elim (activation_guard tenant_id provider s.credentials
        (get_provider tenant_id provider s.configs)) [
          | err e ↦ (s, err e)
          | ok _ ↦ (
            record s {
              configs = update_configs tenant_id provider (set_active now) [] s.configs;
              audits = s.audits ++ audit_of tenant_id actor_id provider "provider.activated" ∷ [];
            },
            ok active,
          )
        ]

  abbrev deactivation_guard : Option Config → Result (Unit {0})
  deactivation_guard none = err "PROVIDER_NOT_FOUND"
  deactivation_guard (some r) = require (is_active r.status) "NOT_ACTIVE"

  pub deactivate_provider : (tenant_id actor_id provider : String) → Store → Store × Result Status
  unfolding get_provider update_configs
  deactivate_provider tenant_id actor_id provider s =
      elim (deactivation_guard (get_provider tenant_id provider s.configs)) [
        | err e ↦ (s, err e)
        | ok _ ↦ (
          record s {
            configs = update_configs tenant_id provider set_revoked [] s.configs;
            audits = s.audits ++ audit_of tenant_id actor_id provider "provider.revoked" ∷ [];
          },
          ok revoked,
        )
      ]

  abbrev config_of : Option Config → Option Object
  config_of none = none
  config_of (some r) = some r.config

  pub get_provider_config : (tenant_id provider : String) → List Config → Option Object
  unfolding get_provider
  get_provider_config tenant_id provider rows = config_of (get_provider tenant_id provider rows)

  abbrev full_setup : String → Option Object → Object → Result (Unit {0})
  full_setup provider none credentials = validate_provider_config env.lower provider none
  full_setup provider (some config) credentials =
      validate_full_provider_setup env.parse_url env.fetch env.lower provider config credentials

  abbrev rotation_guard : (tenant_id provider : String) → Option Object → Store → Result (Unit {0})
  rotation_guard tenant_id provider credentials s = do
    validate_provider_credentials env.lower provider credentials
    full_setup provider (get_provider_config tenant_id provider s.configs)
        (normal_credentials provider credentials)

  pub rotate_credentials :
      (salt iv : Bytes)
      → (tenant_id actor_id provider : String) → Option Object
      → Store
      → Store × Result (Unit {0})
  unfolding get_provider_config
  rotate_credentials salt iv tenant_id actor_id provider credentials s =
      elim (rotation_guard tenant_id provider credentials s) [
        | err e ↦ (s, err e)
        | ok _ ↦
            let (kept, answer) =
              Credentials.rotate_credential env.crypto env.hash env.master_key salt iv
                (key_of tenant_id provider)
                (env.stringify (normal_credentials provider credentials)) s.credentials in
            elim answer [
              | err e ↦ (s, err e)
              | ok _ ↦ (
                record s {
                  credentials = kept;
                  audits =
                      s.audits
                      ++ audit_of tenant_id actor_id provider "provider.credentials_rotated" ∷ [];
                },
                ok tt,
              )
            ]
      ]

  -- The plaintext is a text, and has none of the fields of credentials.
  abbrev tested :
      (tenant_id provider : String) → Option Config → Result (Option (Bytes × ℕ)) → Result Tested
  tested tenant_id provider none found = err "PROVIDER_NOT_FOUND"
  tested tenant_id provider (some r) (err e) = err e
  tested tenant_id provider (some r) (ok none) = err "CREDENTIALS_NOT_FOUND"
  tested tenant_id provider (some r) (ok (some _)) =
      ok (test_provider_connection env.parse_url env.fetch provider r.config (some []))

  pub test_provider : (tenant_id provider : String) → Store → Result Tested
  unfolding get_provider
  test_provider tenant_id provider s =
      tested tenant_id provider (get_provider tenant_id provider s.configs) (
        Credentials.get_credential env.crypto env.hash env.master_key (key_of tenant_id provider)
          s.credentials)

  pub step : (tenant_id provider : String) → Call → Store → Store
  unfolding create_provider activate_provider deactivate_provider rotate_credentials
  step t p (creates salt iv config credentials) s =
      (create_provider salt iv t p config credentials s).0
  step t p (activates now actor_id) s = (activate_provider now t actor_id p s).0
  step t p (deactivates actor_id) s = (deactivate_provider t actor_id p s).0
  step t p (rotates salt iv actor_id credentials) s =
      (rotate_credentials salt iv t actor_id p credentials s).0

  pub run : Store → List (String × String × Call) → Store
  run s [] = s
  run s ((t, p, c) ∷ calls) = run (step t p c s) calls
