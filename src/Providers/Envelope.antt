-- ===== src/Providers/Envelope.antt =====
-- encrypt and decrypt of modules/providers/credential-service.js: salt, nonce, tag and ciphertext
-- in one text. The functions of Node's crypto and the base64 coding are fields of `Crypto`.
mod Examples
pub mod RoundTrip
use crmtsi_app.Common.{
  ℕ, ◌+◌, List, [], ◌∷◌, ◌++◌, Option, none, some, Result, ok, err, Text, length, take, drop, ltb,
  if◌then◌else◌,
}

abbrev pub Bytes : Type 0
Bytes = List ℕ

-- `derive_key` is PBKDF2 with the service's rounds and key length; `seal` answers the ciphertext and
-- the tag of AES-256-GCM, and `open_sealed` the plaintext, unless the tag is refused.
pub record Crypto : Type 0 where
  pub derive_key : Bytes → Bytes → Bytes
  pub seal : (key iv plaintext : Bytes) → Bytes × Bytes
  pub open_sealed : (key iv tag ciphertext : Bytes) → Option Bytes
  pub to_base64 : Bytes → Text
  pub from_base64 : Text → Bytes

abbrev salt_length : ℕ
salt_length = 16

abbrev iv_length : ℕ
iv_length = 12

abbrev tag_length : ℕ
tag_length = 16

abbrev opened : Option Bytes → Result Bytes
opened none = err "unable to authenticate data"
opened (some p) = ok p

module _ (c : Crypto) where
  -- `salt` and `iv` are the random bytes.
  pub encrypt : (salt iv plaintext password : Bytes) → Text
  encrypt salt iv plaintext password =
      let (ciphertext, tag) = c.seal (c.derive_key password salt) iv plaintext in
      c.to_base64 (salt ++ iv ++ tag ++ ciphertext)

  pub decrypt_bytes : (bytes password : Bytes) → Result Bytes
  decrypt_bytes bytes password =
      if ltb (length bytes) (salt_length + iv_length + tag_length)
      then err "ENVELOPE_TOO_SHORT"
      else let salt = take salt_length bytes in
        let iv = take iv_length (drop salt_length bytes) in
        let tag = take tag_length (drop (salt_length + iv_length) bytes) in
        let ciphertext = drop (salt_length + iv_length + tag_length) bytes in
        opened (c.open_sealed (c.derive_key password salt) iv tag ciphertext)

  pub decrypt : (envelope : Text) (password : Bytes) → Result Bytes
  unfolding decrypt_bytes
  decrypt envelope password = decrypt_bytes (c.from_base64 envelope) password
