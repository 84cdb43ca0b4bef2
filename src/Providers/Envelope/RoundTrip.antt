-- ===== src/Providers/Envelope/RoundTrip.antt =====
-- What was encrypted is decrypted again.
use mathlib.Core.List.{append_assoc}
use crmtsi_app.Common.{
  ℕ, zero, suc, ◌≡◌, refl, ap, ◌∙◌, [], ◌∷◌, ◌++◌, some, ok, length, length-append, take, drop, ltb,
  arith, false,
}
use crmtsi_app.Providers.Envelope.{Bytes, Crypto, encrypt, decrypt, decrypt_bytes, opened}

-- What Node documents: a tag has 16 bytes, decryption with the same key, nonce and tag undoes
-- encryption, and so does the decoding of base64.
pub record IsCipher (c : Crypto) : Type 0 where
  pub tag_size : (key iv plaintext : Bytes) → length (c.seal key iv plaintext).1 ≡ 16
  pub open-seal :
      (key iv plaintext : Bytes)
      → c.open_sealed key iv (c.seal key iv plaintext).1 (c.seal key iv plaintext).0
        ≡ some plaintext
  pub from-to : (b : Bytes) → c.from_base64 (c.to_base64 b) ≡ b

take-append : (n : ℕ) (xs ys : Bytes) → length xs ≡ n → take n (xs ++ ys) ≡ xs
take-append zero [] ys h = refl
take-append (suc n) [] ys h = absurd (omega (arith, h))
take-append zero (x ∷ xs) ys h = absurd (omega (arith, h))
take-append (suc n) (x ∷ xs) ys h = ap (◌∷◌ x) (take-append n xs ys (omega (arith, h)))

drop-append : (n : ℕ) (xs ys : Bytes) → length xs ≡ n → drop n (xs ++ ys) ≡ ys
drop-append zero [] ys h = refl
drop-append (suc n) [] ys h = absurd (omega (arith, h))
drop-append zero (x ∷ xs) ys h = absurd (omega (arith, h))
drop-append (suc n) (x ∷ xs) ys h = drop-append n xs ys (omega (arith, h))

module _ (c : Crypto) (good : IsCipher c) where
  decrypt_parts :
      (salt iv tag ciphertext password : Bytes)
      → length salt ≡ 16
      → length iv ≡ 12
      → length tag ≡ 16
      → decrypt_bytes c (salt ++ iv ++ tag ++ ciphertext) password
        ≡ opened (c.open_sealed (c.derive_key password salt) iv tag ciphertext)
  unfolding decrypt_bytes
  decrypt_parts salt iv tag ciphertext password s i t =
      let bytes = salt ++ iv ++ tag ++ ciphertext in
      let rest = iv ++ (tag ++ ciphertext) in
      let to_tag : bytes ≡ (salt ++ iv) ++ (tag ++ ciphertext) =
        append_assoc (salt ++ iv) tag ciphertext in
      let to_iv : bytes ≡ salt ++ rest = to_tag ∙ append_assoc salt iv (tag ++ ciphertext) in
      let head_size : length (salt ++ iv) ≡ 28 = omega (arith, length-append salt iv, s, i) in
      let prefix_size : length ((salt ++ iv) ++ tag) ≡ 44 =
        omega (arith, length-append (salt ++ iv) tag, head_size, t) in
      let at_salt : take 16 bytes ≡ salt = ap (take 16) to_iv ∙ take-append 16 salt rest s in
      let past_salt : drop 16 bytes ≡ rest = ap (drop 16) to_iv ∙ drop-append 16 salt rest s in
      let at_iv : take 12 (drop 16 bytes) ≡ iv =
        ap (take 12) past_salt ∙ take-append 12 iv (tag ++ ciphertext) i in
      let past_iv : drop 28 bytes ≡ tag ++ ciphertext =
        ap (drop 28) to_tag ∙ drop-append 28 (salt ++ iv) (tag ++ ciphertext) head_size in
      let at_tag : take 16 (drop 28 bytes) ≡ tag =
        ap (take 16) past_iv ∙ take-append 16 tag ciphertext t in
      let past_tag : drop 44 bytes ≡ ciphertext =
        drop-append 44 ((salt ++ iv) ++ tag) ciphertext prefix_size in
      let long : ltb (length bytes) 44 ≡ false =
        ground (arith, length-append ((salt ++ iv) ++ tag) ciphertext, prefix_size) in
      rw (long, at_salt, at_iv, at_tag, past_tag) refl

  -- With a salt of 16 bytes and a nonce of 12, the envelope of a plaintext decrypts to it under the
  -- same password.
  pub decrypt-encrypt :
      (salt iv plaintext password : Bytes)
      → length salt ≡ 16
      → length iv ≡ 12
      → decrypt c (encrypt c salt iv plaintext password) password ≡ ok plaintext
  unfolding decrypt encrypt
  decrypt-encrypt salt iv plaintext password s i =
      let key = c.derive_key password salt in
      let (ciphertext, tag) = c.seal key iv plaintext in
      ap (λ b. decrypt_bytes c b password) (good.from-to (salt ++ iv ++ tag ++ ciphertext))
      ∙ decrypt_parts salt iv tag ciphertext password s i (good.tag_size key iv plaintext)
      ∙ ap opened (good.open-seal key iv plaintext)
