-- ===== src/Providers/Envelope/Examples.antt =====
-- An envelope that is too short.
use crmtsi_app.Common.{◌≡◌, refl, some, err, codes}
use crmtsi_app.Providers.Envelope.{Crypto, decrypt, decrypt_bytes}

abbrev open_text : Crypto
open_text = record {
  derive_key = λ password salt. password;
  seal = λ key iv plaintext. (plaintext, iv);
  open_sealed = λ key iv tag ciphertext. some ciphertext;
  to_base64 = λ b. b;
  from_base64 = λ t. t;
}

refuses-short : decrypt open_text (codes "short") (codes "key") ≡ err "ENVELOPE_TOO_SHORT"
unfolding decrypt decrypt_bytes
refuses-short = refl
