-- ===== src/Setup/Examples.antt =====
-- Runs of the set-up.
use crmtsi_app.Common.{
  ◌+◌, ◌*◌, ◌≤◌, ◌≡◌, ◌≢◌, refl, String, true, some, List, [], ◌∷◌, In, arith, err,
}
use crmtsi_app.Setup.{
  uninitialized, bootstrapped, validated, active, Draft, Machine, new, returns, promises, Event,
  bootstraps, activates, drafts, validates, settles, step, run, set_draft_config, validate_draft,
  missing_field,
}
use crmtsi_app.Setup.Invariant.{Inv, IsBootstrap, setup_invariant, secret_needed}
use crmtsi_app.Setup.RateLimit.{left, accepts, restarts, total, validations_limited}

-- A hash that forgets nothing.
abbrev hash : String → String
hash s = s

abbrev complete : Draft
complete = record {
  provider = "waha";
  config = ("baseUrl", "http://waha") ∷ ("sessionName", "main") ∷ [];
}

abbrev calls : List Event
calls =
    drafts complete
    ∷ bootstraps "" "secret"
    ∷ drafts (record complete { provider = "sms" })
    ∷ drafts complete
    ∷ activates returns
    ∷ validates 70000 "token"
    ∷ activates promises
    ∷ settles true
    ∷ []

missing_session :
    (set_draft_config
      (record complete { config = ("baseUrl", "http://waha") ∷ [] })
      (record new { state = bootstrapped })).1
    ≡ err "MISSING_REQUIRED_FIELD_SESSIONNAME"
unfolding set_draft_config missing_field
missing_session = refl

ends_active : (run hash "secret" 10 new calls).state ≡ active
unfolding run step
ends_active = refl

setup_invariant_example : Inv (run hash "secret" 10 new calls)
setup_invariant_example = setup_invariant hash "secret" 10 calls

abbrev more_calls : List Event
more_calls = bootstraps "" "secret" ∷ drafts complete ∷ validates 90000 "other" ∷ []

left_start : (run hash "secret" 10 new calls).state ≢ uninitialized
left_start h = ground (arith, ends_active)

secret_needed_example : (e : Event) × In e calls × IsBootstrap hash "secret" e
secret_needed_example = secret_needed hash "secret" 10 calls left_start

abbrev validated_once : Machine
validated_once = record new {
  state = validated;
  draft_config = some complete;
  validation_attempts = 1;
  last_validation_at = 100;
}

-- The limit of one is left behind by a draft between the validations.
abbrev burst : List Event
burst =
    validates 60100 "a"
    ∷ validates 60200 "b"
    ∷ drafts complete
    ∷ validates 60300 "c"
    ∷ validates 60400 "d"
    ∷ []

burst-accepts : total hash "secret" 1 (accepts hash "secret" 1) validated_once burst ≡ 2
unfolding total step validate_draft set_draft_config missing_field
burst-accepts = refl

validations_limited_example :
    total hash "secret" 1 (accepts hash "secret" 1) validated_once burst
    ≤ left 1 60000 validated_once
      + 1 * total hash "secret" 1 (restarts hash "secret" 1) validated_once burst
validations_limited_example =
    validations_limited hash "secret" 1 60000 validated_once burst (omega arith) (ground arith)
