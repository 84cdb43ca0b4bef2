-- ===== src/Providers/Credentials/Latest.antt =====
-- What is stored last is what is read.
use crmtsi_app.Common.{
  ◌≡◌, refl, ap, ◌∙◌, true, Option, none, some, List, [], ◌∷◌, ◌++◌, map, ok, str_eq_refl,
  find_first, arith, Text, length, Bool-cases, inl, inr,
}
use crmtsi_app.Providers.Envelope.{Bytes, Crypto, encrypt, decrypt}
use crmtsi_app.Providers.Envelope.RoundTrip.{IsCipher, decrypt-encrypt}
use crmtsi_app.Providers.Credentials.{
  Credential, Key, is_current, renewed, renew_current, new_credential, upsert, store_credential,
  get_credential, read_row,
}

new_credential-is_current : (k : Key) (t h : Text) → is_current k (new_credential k t h) ≡ true
new_credential-is_current k t h =
    ground (arith, str_eq_refl k.tenant_id, str_eq_refl k.provider, str_eq_refl k.credential_type)

find_first-new :
    (k : Key) (r : Credential) (rows : List Credential)
    → find_first (is_current k) rows ≡ none
    → is_current k r ≡ true
    → find_first (is_current k) (rows ++ r ∷ []) ≡ some r
find_first-new k r [] h e = ground arith
find_first-new k r (q ∷ rows) h e = ground (arith, find_first-new k r rows)

find_first-renewed :
    (k : Key) (t h : Text) (r : Credential) (rows : List Credential)
    → find_first (is_current k) rows ≡ some r
    → find_first (is_current k) (map (renew_current k t h) rows) ≡ some (renewed t h r)
unfolding renew_current
find_first-renewed k t h r [] e = cc
find_first-renewed k t h r (q ∷ rows) e = elim (Bool-cases (is_current k q)) [
  | inl hit ↦
      let same : q ≡ r = ground (arith, e, hit) in
      rw (hit, hit) (ap (λ x. some (renewed t h x)) same)
  | inr miss ↦
      let later : find_first (is_current k) rows ≡ some r = ground (arith, e, miss) in
      rw (miss, miss) (find_first-renewed k t h r rows later)
]

module _ (c : Crypto) (hash : Bytes → Text) (master_key : Bytes) (good : IsCipher c) where
  read_decrypted :
      (r : Credential) (plaintext : Bytes)
      → decrypt c r.ciphertext master_key ≡ ok plaintext
      → read_row c hash master_key (some r) ≡ ok (some (plaintext, r.version))
  read_decrypted r plaintext e = ground (arith, e)

  get_after_upsert :
      (k : Key) (salt iv plaintext : Bytes)
      → length salt ≡ 16
      → length iv ≡ 12
      → (o : Option Credential) (rows : List Credential) → find_first (is_current k) rows ≡ o
      → get_credential c hash master_key k
          (upsert k (encrypt c salt iv plaintext master_key) (hash plaintext) o rows).0
        ≡ ok (
            some (
              plaintext,
              (upsert k (encrypt c salt iv plaintext master_key) (hash plaintext) o rows).1,
            ))
  unfolding get_credential upsert
  get_after_upsert k salt iv plaintext s i none rows e =
      let t = encrypt c salt iv plaintext master_key in
      let r = new_credential k t (hash plaintext) in
      let current = new_credential-is_current k t (hash plaintext) in
      ap (read_row c hash master_key) (find_first-new k r rows e current)
      ∙ read_decrypted r plaintext (decrypt-encrypt c good salt iv plaintext master_key s i)
  get_after_upsert k salt iv plaintext s i (some r) rows e =
      let t = encrypt c salt iv plaintext master_key in
      ap (read_row c hash master_key) (find_first-renewed k t (hash plaintext) r rows e)
      ∙ read_decrypted (renewed t (hash plaintext) r) plaintext
          (decrypt-encrypt c good salt iv plaintext master_key s i)

  -- After a credential was stored, with a salt of 16 bytes and a nonce of 12, reading that tenant's,
  -- provider's and type's credential answers its plaintext and the version that the storing returned.
  pub get_credential-store_credential :
      (k : Key) (salt iv plaintext : Bytes) (rows : List Credential)
      → length salt ≡ 16
      → length iv ≡ 12
      → get_credential c hash master_key k
          (store_credential c hash master_key salt iv k plaintext rows).0
        ≡ ok (some (plaintext, (store_credential c hash master_key salt iv k plaintext rows).1))
  unfolding store_credential
  get_credential-store_credential k salt iv plaintext rows s i =
      get_after_upsert k salt iv plaintext s i (find_first (is_current k) rows) rows refl
