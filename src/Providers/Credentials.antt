-- ===== src/Providers/Credentials.antt =====
-- createCredentialService of modules/providers/credential-service.js. The table has at most one
-- active row for a tenant, a provider and a type; a text stands for the bytes that encode it.
mod Examples
pub mod Latest
use crmtsi_app.Common.{
  ℕ, ◌+◌, String, Bool, true, false, not, ◌&&◌, Option, none, some, List, [], ◌∷◌, ◌++◌, map,
  Result, ok, err, str_eq, if◌then◌else◌, find_first, any_of, keep, Text, codes, decimal, take,
}
use crmtsi_app.Providers.Envelope.{Bytes, Crypto, encrypt, decrypt}

pub data Status : Type 0 where
  active revoked : Status

pub record Credential : Type 0 where
  pub tenant_id : String
  pub provider : String
  pub credential_type : String
  pub ciphertext : Text
  pub credential_hash : Text
  pub version : ℕ
  pub status : Status

pub record Key : Type 0 where
  pub tenant_id : String
  pub provider : String
  pub credential_type : String

abbrev pub is_for : Key → Credential → Bool
is_for k r =
    str_eq r.tenant_id k.tenant_id
    && str_eq r.provider k.provider
    && str_eq r.credential_type k.credential_type

abbrev pub is_active : Status → Bool
is_active active = true
is_active revoked = false

abbrev pub is_current : Key → Credential → Bool
is_current k r = is_for k r && is_active r.status

abbrev renewed : Text → Text → Credential → Credential
renewed ciphertext hash r = record r {
  ciphertext = ciphertext;
  credential_hash = hash;
  version = r.version + 1;
}

pub renew_current : Key → Text → Text → Credential → Credential
renew_current k ciphertext hash r = if is_current k r then renewed ciphertext hash r else r

pub renew_all : Key → Text → Text → Credential → Credential
renew_all k ciphertext hash r = if is_for k r then renewed ciphertext hash r else r

abbrev new_credential : Key → Text → Text → Credential
new_credential k ciphertext hash = record {
  tenant_id = k.tenant_id;
  provider = k.provider;
  credential_type = k.credential_type;
  ciphertext = ciphertext;
  credential_hash = hash;
  version = 1;
  status = active;
}

-- `insert … on conflict … do update … returning version`
pub upsert : Key → Text → Text → Option Credential → List Credential → List Credential × ℕ
unfolding renew_current
upsert k ciphertext hash none rows = (rows ++ new_credential k ciphertext hash ∷ [], 1)
upsert k ciphertext hash (some r) rows = (map (renew_current k ciphertext hash) rows, r.version + 1)

abbrev revoke_row : Key → Credential → Credential
revoke_row k r = if is_for k r then record r { status = revoked } else r

pub record Metadata : Type 0 where
  pub version : ℕ
  pub credential_hash : Text
  pub status : Status

abbrev metadata : Option Credential → Option Metadata
metadata none = none
metadata (some r) =
    some (record { version = r.version; credential_hash = r.credential_hash; status = r.status })

module _ (c : Crypto) (hash : Bytes → Text) (master_key : Bytes) where
  -- `salt` and `iv` are the random bytes of `encrypt`.
  pub store_credential :
      (salt iv : Bytes) → Key → (plaintext : Bytes) → List Credential → List Credential × ℕ
  unfolding upsert
  store_credential salt iv k plaintext rows =
      upsert k (encrypt c salt iv plaintext master_key) (hash plaintext)
        (find_first (is_current k) rows) rows

  abbrev read_row : Option Credential → Result (Option (Bytes × ℕ))
  read_row none = ok none
  read_row (some r) = elim (decrypt c r.ciphertext master_key) [
    | err e ↦ err e
    | ok plaintext ↦ ok (some (plaintext, r.version))
  ]

  pub get_credential : Key → List Credential → Result (Option (Bytes × ℕ))
  get_credential k rows = read_row (find_first (is_current k) rows)

  -- The first row of any status.
  pub get_credential_metadata : Key → List Credential → Option Metadata
  get_credential_metadata k rows = metadata (find_first (is_for k) rows)

  pub rotate_credential :
      (salt iv : Bytes) → Key → (plaintext : Bytes) → List Credential → List Credential × Result ℕ
  unfolding get_credential_metadata renew_all
  rotate_credential salt iv k plaintext rows = elim (get_credential_metadata k rows) [
    | none ↦ (rows, err "CREDENTIAL_NOT_FOUND")
    | some m ↦ (
      map (renew_all k (encrypt c salt iv plaintext master_key) (hash plaintext)) rows,
      ok (m.version + 1),
    )
  ]

  pub revoke_credential : Key → List Credential → List Credential
  revoke_credential k rows = map (revoke_row k) rows

  pub list_credentials : String → List Credential → List Credential
  list_credentials tenant_id rows = keep (λ r. str_eq r.tenant_id tenant_id) rows

  abbrev hint_of : Option Metadata → Text
  hint_of none = codes "****"
  hint_of (some m) =
      codes "****-" ++ take 8 m.credential_hash ++ codes "-v" ++ decimal m.version ++ codes "-****"

  pub create_masked_hint : Key → List Credential → Text
  unfolding get_credential_metadata
  create_masked_hint k rows = hint_of (get_credential_metadata k rows)
