-- ===== src/Providers/Credentials/Examples.antt =====
-- A credential that is stored twice.
use crmtsi_app.Common.{◌≡◌, refl, some, List, [], ◌∷◌, ok, codes, Text}
use crmtsi_app.Providers.Envelope.{Bytes, Crypto}
use crmtsi_app.Providers.Envelope.RoundTrip.{IsCipher}
use crmtsi_app.Providers.Credentials.{Credential, Key, store_credential, get_credential, upsert}
use crmtsi_app.Providers.Credentials.Latest.{get_credential-store_credential}

abbrev zeros : Bytes
zeros = 0 ∷ 0 ∷ 0 ∷ 0 ∷ 0 ∷ 0 ∷ 0 ∷ 0 ∷ 0 ∷ 0 ∷ 0 ∷ 0 ∷ 0 ∷ 0 ∷ 0 ∷ 0 ∷ []

abbrev nonce : Bytes
nonce = 1 ∷ 2 ∷ 3 ∷ 4 ∷ 5 ∷ 6 ∷ 7 ∷ 8 ∷ 9 ∷ 10 ∷ 11 ∷ 12 ∷ []

abbrev open_text : Crypto
open_text = record {
  derive_key = λ password salt. password;
  seal = λ key iv plaintext. (plaintext, zeros);
  open_sealed = λ key iv tag ciphertext. some ciphertext;
  to_base64 = λ b. b;
  from_base64 = λ t. t;
}

open_text-IsCipher : IsCipher open_text
open_text-IsCipher = record {
  tag_size = λ key iv plaintext. refl;
  open-seal = λ key iv plaintext. refl;
  from-to = λ b. refl;
}

abbrev key : Key
key = record { tenant_id = "acme"; provider = "waha"; credential_type = "credentials" }

abbrev same_hash : Bytes → Text
same_hash b = b

abbrev stored : List Credential
stored = (store_credential open_text same_hash (codes "key") zeros nonce key (codes "old") []).0

second_version :
    (store_credential open_text same_hash (codes "key") zeros nonce key (codes "new") stored).1 ≡ 2
unfolding store_credential upsert
second_version = refl

get_credential-store_credential_example :
    get_credential open_text same_hash
      (codes "key")
      key
      (store_credential open_text same_hash (codes "key") zeros nonce key (codes "new") stored).0
    ≡ ok (
        some (
          codes "new",
          (store_credential open_text same_hash
              (codes "key")
              zeros
              nonce
              key
              (codes "new")
              stored).1,
        ))
get_credential-store_credential_example =
    get_credential-store_credential open_text same_hash (codes "key") open_text-IsCipher key zeros
      nonce (codes "new") stored refl refl
