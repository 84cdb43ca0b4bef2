-- ===== src/Setup/Service/Calls/Examples.antt =====
-- A tenant that is set up, and one whose activation is lost.
use crmtsi_app.Common.{
  ◌≡◌, refl, inr, String, false, Option, none, some, List, [], ◌∷◌, ok, Text, text_eq, codes,
  string,
}
use crmtsi_app.Providers.Endpoint.{Url}
use crmtsi_app.Setup.Validation.{Draft, validate_provider_config, check_fields}
use crmtsi_app.Providers.Schema.{
  check_required, check_rules, check_rule, is_graph_version, is_decimal, all_digits,
}
use crmtsi_app.Setup.Service.{
  default_limits, get_setup, get_setup_status, get_active_config, check_draft, bootstrap,
  set_draft_config, validate_draft, begin_activation, transact, update_row,
}
use crmtsi_app.Setup.Service.Calls.{
  Store, Call, bootstraps, drafts, validates, activates, settles, completes, fails, at_upsert, step,
  run, lands, finish_activation, settle_rows,
}
use crmtsi_app.Setup.Service.Calls.Views.{view_of}
use crmtsi_app.Setup.Service.Calls.Moves.{Moves, reached, setup-Moves, active_checked}
use crmtsi_app.Setup.Service.Calls.Over.{IsOver}

abbrev hash : String → String
hash s = s

abbrev no_url : Text → Option Url
no_url t = none

abbrev meta : Draft
meta = record {
  provider = string (codes "meta");
  config =
      some
        (("graphVersion", string (codes "v19.0")) ∷ ("phoneNumberId", string (codes "123")) ∷ []);
}

abbrev prepared : List (String × Call)
prepared =
    ("acme", bootstraps 100 "secret" "secret" "salt" none)
    ∷ ("other", bootstraps 100 "s" "t" "salt" none)
    ∷ ("acme", drafts (some meta))
    ∷ ("acme", validates 70000 "token")
    ∷ ("acme", activates)
    ∷ []

abbrev after : List (String × Call)
after =
    ("acme", bootstraps 100 "secret" "secret" "salt" none)
    ∷ ("acme", drafts (some meta))
    ∷ ("acme", validates 70000 "token")
    ∷ ("acme", activates)
    ∷ ("acme", settles "admin" (codes "sealed") (fails at_upsert "refused" false))
    ∷ []

abbrev done : List (String × Call)
done =
    ("acme", bootstraps 100 "secret" "secret" "salt" none)
    ∷ ("acme", drafts (some meta))
    ∷ ("acme", validates 70000 "token")
    ∷ ("acme", activates)
    ∷ ("acme", settles "admin" (codes "sealed") completes)
    ∷ []

active_now : get_active_config "acme" (reached hash no_url default_limits done).rows ≡ some meta
unfolding get_active_config get_setup run step bootstrap set_draft_config validate_draft
    begin_activation transact update_row lands finish_activation settle_rows
    validate_provider_config check_fields check_required check_rules check_rule is_graph_version
    is_decimal all_digits text_eq
active_now = refl

setup-Moves_example :
    Moves (get_setup_status "acme" (reached hash no_url default_limits prepared).rows) (
      get_setup_status "acme"
        (step hash no_url default_limits "acme"
          (settles "admin" (codes "sealed") completes)
          (reached hash no_url default_limits prepared)).rows)
setup-Moves_example =
    setup-Moves hash no_url default_limits prepared "acme" "acme"
      (settles "admin" (codes "sealed") completes)

active_checked_example : check_draft no_url (some meta) ≡ ok tt
active_checked_example = active_checked hash no_url default_limits done "acme" meta active_now

abbrev lost_store : Store
lost_store = reached hash no_url default_limits after

lost_store-IsOver : IsOver (view_of "acme" lost_store).row (view_of "acme" lost_store).flight
unfolding get_setup run step bootstrap set_draft_config validate_draft begin_activation transact
    update_row lands finish_activation settle_rows validate_provider_config check_fields
    check_required check_rules check_rule is_graph_version is_decimal all_digits text_eq
lost_store-IsOver = (inr refl, refl)
