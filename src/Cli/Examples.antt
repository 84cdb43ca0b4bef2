-- ===== src/Cli/Examples.antt =====
-- Command lines.
use crmtsi_app.Common.{◌≡◌, refl, true, List, [], ◌∷◌, some, ok, err, Text, text_eq, codes, All}
use crmtsi_app.Cli.{
  Global, no_options, Parsed, parse_args, loop, finish, classify, is_secret_option, has_text,
  before_equals, after_equals, store, value_error, validate_command, parse_command, confirm,
  confirm_destructive, has_pair,
}
use crmtsi_app.Cli.Arguments.{IsPlain, parse_args-IsPlain}

abbrev drain : List Text
drain = codes "queues" ∷ codes "--yes" ∷ codes "drain" ∷ []

abbrev drained : Parsed
drained = record {
  global = record no_options { yes = true };
  command = codes "queues" ∷ codes "drain" ∷ [];
}

parsed : parse_args drain ≡ ok drained
unfolding parse_args loop finish classify is_secret_option has_text before_equals after_equals
    text_eq store value_error
parsed = refl

secret_value_is_refused :
    parse_args (codes "--email" ∷ codes "--token=x" ∷ []) ≡ err "OPTION_VALUE_REQUIRED"
unfolding parse_args loop finish classify is_secret_option has_text before_equals after_equals
    text_eq store value_error
secret_value_is_refused = refl

tenant_is_asked_for : validate_command drained ≡ err "TENANT_REQUIRED"
unfolding validate_command parse_command confirm confirm_destructive has_pair text_eq
tenant_is_asked_for = refl

parse_args-IsPlain_example : All IsPlain drain
parse_args-IsPlain_example = parse_args-IsPlain drain drained parsed

abbrev covered : Global
covered = record no_options {
  yes = true;
  tenant = some (codes "t");
  idempotency_key = some (codes "k");
}
