-- ===== src/Providers/Service/Calls/Examples.antt =====
-- A provider that is created, activated and deactivated.
use crmtsi_app.Common.{
  ◌≡◌, ◌≤◌, refl, true, String, Option, none, some, List, [], ◌∷◌, err, any_of, Object, codes,
  string,
}
use crmtsi_app.Providers.Envelope.{Crypto}
use crmtsi_app.Providers.Endpoint.{answered}
use crmtsi_app.Providers.Service.{active, get_provider, first_of, update_configs, is_dropped}
use crmtsi_app.Providers.Service.OneActive.{active_count}
use crmtsi_app.Providers.Service.Calls.{
  Environment, Store, Call, creates, activates, deactivates, run, activate_provider,
  deactivate_provider,
}
use crmtsi_app.Providers.Service.Calls.Revoked.{empty, revoked_for, one_active, never_active_again}

abbrev open_text : Crypto
open_text = record {
  derive_key = λ password salt. password;
  seal = λ key iv plaintext. (plaintext, iv);
  open_sealed = λ key iv tag ciphertext. some ciphertext;
  to_base64 = λ b. b;
  from_base64 = λ t. t;
}

abbrev env : Environment
env = record {
  crypto = open_text;
  hash = λ b. b;
  master_key = codes "key";
  fetch = λ r. answered 200 true;
  parse_url = λ t. none;
  lower = λ s. s;
  stringify = λ o. codes "{}";
}

abbrev config : Option Object
config =
    some (("graphVersion", string (codes "v19.0")) ∷ ("phoneNumberId", string (codes "123")) ∷ [])

abbrev credentials : Option Object
credentials = some (
    ("accessToken", string (codes "a"))
    ∷ ("appSecret", string (codes "b"))
    ∷ ("verifyToken", string (codes "c"))
    ∷ [])

abbrev calls : List (String × String × Call)
calls =
    ("acme", "meta", creates [] [] config credentials)
    ∷ ("acme", "meta", activates 100 "admin")
    ∷ ("acme", "meta", deactivates "admin")
    ∷ ("acme", "meta", creates [] [] config credentials)
    ∷ []

one_active_example : active_count "acme" "meta" (run env empty calls).configs ≤ 1
one_active_example = one_active env calls "acme" "meta"

abbrev live : Store
live = record {
  configs =
      (record {
        tenant_id = "acme";
        provider = "meta";
        config = [];
        credentials_version = 1;
        status = active;
        activated_at = some 100;
      })
      ∷ [];
  credentials = [];
  audits = [];
}

abbrev closed : Store
closed = (deactivate_provider env "acme" "admin" "meta" live).0

closed-revoked : any_of (revoked_for "acme" "meta") closed.configs ≡ true
unfolding deactivate_provider get_provider first_of update_configs is_dropped
closed-revoked = refl

never_active_again_example :
    activate_provider env 300 "acme" "admin" "meta" (run env closed calls)
    ≡ (run env closed calls, err "INVALID_STATE_FOR_ACTIVATION")
never_active_again_example =
    never_active_again env closed "acme" "meta" closed-revoked calls 300 "admin"
