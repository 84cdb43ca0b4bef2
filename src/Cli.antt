-- ===== src/Cli.antt =====
-- modules/cli/parser.js: the arguments of the command line. A token is a text of code units.
mod Examples
pub mod Arguments
pub mod Commands
pub mod Operation
use crmtsi_app.Common.{
  ℕ, String, Bool, true, false, not, ◌&&◌, ◌||◌, List, [], ◌∷◌, ◌++◌, Option, none, some, Result,
  ok, err, ◌>>=◌, ◌>>◌, require, ◌==◌, if◌then◌else◌, Text, text_eq, codes, length,
}

abbrev pub secret_options : List String
secret_options =
    "--password" ∷ "--secret" ∷ "--token" ∷ "--access-token" ∷ "--api-key" ∷ "--app-secret"
    ∷ "--verify-token" ∷ "--webhook-token" ∷ []

abbrev value_options : List String
value_options =
    "--tenant" ∷ "--idempotency-key" ∷ "--email" ∷ "--login" ∷ "--name" ∷ "--kind" ∷ "--target"
    ∷ "--timeout" ∷ []

abbrev commands : List (String × String)
commands =
    ("admin", "create")
    ∷ ("admin", "reset-password")
    ∷ ("health", "check")
    ∷ ("workers", "list")
    ∷ ("queues", "drain")
    ∷ ("privacy", "request")
    ∷ []

abbrev destructive : List (String × String)
destructive = ("admin", "reset-password") ∷ ("queues", "drain") ∷ ("privacy", "request") ∷ []

pub has_text : List String → Text → Bool
has_text [] t = false
has_text (s ∷ names) t = text_eq (codes s) t || has_text names t

pub has_pair : List (String × String) → Text → Text → Bool
has_pair [] s t = false
has_pair ((a, b) ∷ pairs) s t = (text_eq (codes a) s && text_eq (codes b) t) || has_pair pairs s t

-- The parts of a token around its first equals sign.
pub before_equals : Text → Text
before_equals [] = []
before_equals (c ∷ s) = if c == 61 then [] else c ∷ before_equals s

pub after_equals : Text → Option Text
after_equals [] = none
after_equals (c ∷ s) = if c == 61 then some s else after_equals s

abbrev pub starts_with_dash : Text → Bool
starts_with_dash [] = false
starts_with_dash (c ∷ _) = c == 45

abbrev is_empty : Text → Bool
is_empty [] = true
is_empty (_ ∷ _) = false

pub is_secret_option : Text → Bool
is_secret_option token = has_text secret_options (before_equals token)

pub record Global : Type 0 where
  pub help : Bool
  pub version : Bool
  pub json : Bool
  pub yes : Bool
  pub deep : Bool
  pub tenant : Option Text
  pub idempotency_key : Option Text
  pub options : List (Text × Text)

abbrev pub no_options : Global
no_options = record {
  help = false;
  version = false;
  json = false;
  yes = false;
  deep = false;
  tenant = none;
  idempotency_key = none;
  options = [];
}

pub data Token : Type 0 where
  secret word help version json yes deep unknown : Token
  -- An option, and its value where the token holds one.
  valued : Text → Option Text → Token

pub classify : Text → Token
unfolding is_secret_option
classify t =
    if is_secret_option t
    then secret
    else if not (starts_with_dash t)
    then word
    else if has_text ("--help" ∷ "-h" ∷ []) t
    then help
    else if has_text ("--version" ∷ "-V" ∷ []) t
    then version
    else if has_text ("--json" ∷ []) t
    then json
    else if has_text ("--yes" ∷ []) t
    then yes
    else if has_text ("--deep" ∷ []) t
    then deep
    else if has_text value_options (before_equals t)
    then valued (before_equals t) (after_equals t)
    else unknown

abbrev put : Text → Text → List (Text × Text) → List (Text × Text)
put k v [] = (k, v) ∷ []
put k v ((j, w) ∷ c) = if text_eq j k then (j, v) ∷ c else (j, w) ∷ put k v c

-- `option.slice(2)`; none of the other options has a dash to turn into camel case.
abbrev name_of : Text → Text
name_of (_ ∷ _ ∷ s) = s
name_of _ = []

pub store : Text → Text → Global → Global
store option value g =
    if text_eq option (codes "--tenant")
    then record g { tenant = some value }
    else if text_eq option (codes "--idempotency-key")
    then record g { idempotency_key = some value }
    else record g { options = put (name_of option) value g.options }

-- The error for a value that is missing, empty or starts with a dash.
pub value_error : Text → String
value_error option =
    if text_eq option (codes "--tenant")
    then "TENANT_REQUIRED"
    else if text_eq option (codes "--idempotency-key")
    then "IDEMPOTENCY_KEY_REQUIRED"
    else "OPTION_VALUE_REQUIRED"

-- The command is empty where the source has null.
pub record Parsed : Type 0 where
  pub global : Global
  pub command : List Text

finish : Global → List Text → Result Parsed
finish g command =
    if not g.help && not g.version && (length command == 0 || length command == 1)
    then err "COMMAND_REQUIRED"
    else ok (record { global = g; command = command })

abbrev is_value : Text → Bool
is_value v = not (is_empty v || starts_with_dash v)

-- The loop over the tokens; `waiting` is the option that takes the next token as its value.
pub loop : Global → List Text → (waiting : Option Text) → List Text → Result Parsed
unfolding finish classify store value_error
loop g command none [] = finish g command
loop g command (some option) [] = err (value_error option)
loop g command (some option) (v ∷ tokens) = do
  require (is_value v) (value_error option)
  loop (store option v g) command none tokens
loop g command none (t ∷ tokens) = elim (classify t) [
  | secret ↦ err "SECRET_IN_ARGV"
  | word ↦ loop g (command ++ t ∷ []) none tokens
  | help ↦ loop (record g { help = true }) command none tokens
  | version ↦ loop (record g { version = true }) command none tokens
  | json ↦ loop (record g { json = true }) command none tokens
  | yes ↦ loop (record g { yes = true }) command none tokens
  | deep ↦ loop (record g { deep = true }) command none tokens
  | unknown ↦ err "UNKNOWN_GLOBAL_OPTION"
  | valued option (some v) ↦ do
    require (is_value v) (value_error option)
    loop (store option v g) command none tokens
  | valued option none ↦ loop g command (some option) tokens
]

pub parse_args : List Text → Result Parsed
parse_args argv = loop no_options [] none argv

-- The names that every JavaScript object has are not families, and throw another error.
pub parse_command : List Text → Result (Text × Text)
parse_command (family ∷ action ∷ []) =
    if has_pair commands family action then ok (family, action) else err "UNKNOWN_COMMAND"
parse_command _ = err "COMMAND_REQUIRED"

-- A text that is there and not empty.
abbrev pub is_given : Option Text → Bool
is_given none = false
is_given (some t) = not (is_empty t)

confirm_destructive : Global → Result (Unit {0})
confirm_destructive g = do
  require (is_given g.idempotency_key) "IDEMPOTENCY_KEY_REQUIRED"
  require g.yes "CONFIRMATION_REQUIRED"

pub confirm : Global → Text × Text → Result (Unit {0})
unfolding confirm_destructive
confirm g (family, action) = do
  require (text_eq family (codes "health") || is_given g.tenant) "TENANT_REQUIRED"
  if has_pair destructive family action then confirm_destructive g else ok tt

pub validate_command : Parsed → Result (Unit {0})
unfolding parse_command confirm
validate_command p = elim p.command [
  | [] ↦ ok tt
  | t ∷ ts ↦ parse_command (t ∷ ts) >>= confirm p.global
]
