-- ===== src/Ai/Tools.antt =====
-- modules/ai/tool-service.js: a tool is shown in a preview before it is run under an idempotency key. A
-- text is the trimmed one, empty where it is absent or no text. A run is two steps, up to the call of
-- the tool and after its answer, since other requests may come between.
mod Examples
pub mod Started
pub mod Authorized
use Prim.Native.String
use crmtsi_app.Common.{
  ℕ, ◌+◌, String, Bool, true, false, not, ◌&&◌, ◌||◌, Option, none, some, List, [], ◌∷◌, Result, ok,
  err, ◌>>=◌, ◌>>◌, require, str_eq, has, every, if◌then◌else◌, length, ◌==◌, map, get, put,
}

pub record Context : Type 0 where
  pub tenant_id : String
  pub actor_id : String
  pub request_id : String
  pub capabilities : List String

pub record Definition : Type 0 where
  pub capability : String
  pub input_keys : List String
  pub irreversible : Bool

abbrev pub Input : Type 0
Input = List (String × String)

-- `none` is an input that is no object.
pub record PreviewRequest : Type 0 where
  pub tool : String
  pub input : Option Input
  pub idempotency_key : String

pub record Preview : Type 0 where
  pub id : String
  pub tool : String
  pub tenant_id : String
  pub actor_id : String
  pub input : Input
  pub idempotency_key : String
  pub requires_confirmation : Bool
  pub confirmation : String
  pub created_at : ℕ

pub record Registered : Type 0 where
  pub definition : Definition
  pub context : Context
  pub operation_key : String
  pub preview : Preview

-- What a tool answered: `none` is an unknown outcome.
abbrev pub Response : Type 0
Response = Option String

pub record Outcome : Type 0 where
  pub idempotency_key : String
  pub tool : String
  pub tenant_id : String
  pub response : Response
  pub completed_at : ℕ

pub record Operation : Type 0 where
  pub preview : Preview
  pub outcome : Outcome

pub record Service : Type 0 where
  pub previews : List (String × Registered)
  pub operations : List (String × Operation)

abbrev pub new_service : Service
new_service = record { previews = []; operations = [] }

abbrev pub has_capability : Context → String → Bool
has_capability c capability = has c.capabilities "*" || has c.capabilities capability

-- The texts of a list without repetition.
distinct : List String → List String
distinct [] = []
distinct (s ∷ ss) = let rest = distinct ss in if has rest s then rest else s ∷ rest

unfoldable pub validate_input : Definition → Option Input → Result Input
unfolding distinct
validate_input d none = err "AI_TOOL_INPUT_INVALID"
validate_input d (some input) = do
  require
      (length input == length (distinct d.input_keys)
        && every (λ p. has d.input_keys p.0 && not (str_eq p.1 "")) input)
      "AI_TOOL_INPUT_INVALID"
  ok input

-- `${tenantId}:${key}`
unfoldable pub key_of : Context → String → Result String
key_of c idempotency_key = do
  require (not (str_eq idempotency_key "")) "AI_TOOL_IDEMPOTENCY_REQUIRED"
  ok (String.◌++◌ c.tenant_id (String.◌++◌ ":" idempotency_key))

abbrev pub preview_id : Context → String → String → String
preview_id c tool key =
    String.◌++◌ c.request_id (String.◌++◌ ":" (String.◌++◌ tool (String.◌++◌ ":" key)))

abbrev pub confirmation_of : Definition → String → String
confirmation_of d id = if d.irreversible then String.◌++◌ "confirm:" id else ""

abbrev pub new_preview : Context → PreviewRequest → Definition → Input → String → ℕ → Preview
new_preview c q d input key now = record {
  id = preview_id c q.tool key;
  tool = q.tool;
  tenant_id = c.tenant_id;
  actor_id = c.actor_id;
  input = input;
  idempotency_key = q.idempotency_key;
  requires_confirmation = d.irreversible;
  confirmation = confirmation_of d (preview_id c q.tool key);
  created_at = now;
}

abbrev pub registered_of : Context → PreviewRequest → Definition → Input → String → ℕ → Registered
registered_of c q d input key now = record {
  definition = d;
  context = c;
  operation_key = key;
  preview = new_preview c q d input key now;
}

abbrev pub found {ℓ} : {A : Type ℓ} → Option A → String → Result A
found none code = err code
found (some a) code = ok a

-- The guards of `preview`: the tool, its input and the operation's key.
unfoldable pub preview_guard :
    List (String × Definition) → Context → PreviewRequest → Result (Definition × Input × String)
unfolding validate_input key_of get
preview_guard tools c q = do
  d ← found (get q.tool tools) "AI_TOOL_NOT_ALLOWED"
  require (has_capability c d.capability) "AI_TOOL_FORBIDDEN"
  input ← validate_input d q.input
  key ← key_of c q.idempotency_key
  ok (d, input, key)

-- The preview of an operation that has a result, or a new one.
unfoldable pub show_at :
    Context
    → PreviewRequest
    → ℕ
    → Service
    → Definition
    → Input
    → String
    → Option Operation
    → Service × Result Preview
unfolding put
show_at c q now s d input key (some o) = (s, ok o.preview)
show_at c q now s d input key none = (
  record s {
    previews = put (preview_id c q.tool key) (registered_of c q d input key now) s.previews;
  },
  ok (new_preview c q d input key now),
)

unfoldable pub show_preview :
    Context
    → PreviewRequest
    → ℕ
    → Service
    → Result (Definition × Input × String)
    → Service × Result Preview
unfolding show_at get
show_preview c q now s (err e) = (s, err e)
show_preview c q now s (ok (d, input, key)) = show_at c q now s d input key (get key s.operations)

unfoldable pub preview :
    List (String × Definition)
    → Context
    → PreviewRequest
    → (now : ℕ) → Service
    → Service × Result Preview
unfolding preview_guard show_preview
preview tools c q now s = show_preview c q now s (preview_guard tools c q)

pub record RunRequest : Type 0 where
  pub preview_id : String
  pub idempotency_key : String
  pub confirmation : String

-- A run that the guards let through: the result that is stored, or the call of the tool.
pub data Begun : Type 0 where
  known : Outcome → Begun
  starts : Registered → Begun

abbrev pub owns : Context → Registered → Bool
owns c r = str_eq r.context.tenant_id c.tenant_id && str_eq r.context.actor_id c.actor_id

abbrev pub is_confirmed : RunRequest → Registered → Bool
is_confirmed q r =
    not r.preview.requires_confirmation || str_eq q.confirmation r.preview.confirmation

abbrev pub begin_at : RunRequest → Registered → Option Operation → Result Begun
begin_at q r (some o) = ok (known o.outcome)
begin_at q r none = do require (is_confirmed q r) "AI_TOOL_CONFIRMATION_REQUIRED"; ok (starts r)

-- `execute`, up to the call of the tool.
unfoldable pub begin_execute : Context → RunRequest → Service → Result Begun
unfolding get key_of
begin_execute c q s = do
  r ← found (get q.preview_id s.previews) "AI_TOOL_PREVIEW_INVALID"
  require (owns c r) "AI_TOOL_PREVIEW_INVALID"
  key ← key_of c q.idempotency_key
  require (str_eq key r.operation_key) "AI_TOOL_IDEMPOTENCY_MISMATCH"
  begin_at q r (get r.operation_key s.operations)

abbrev pub outcome_of : Context → Registered → Response → ℕ → Outcome
outcome_of c r response now = record {
  idempotency_key = r.preview.idempotency_key;
  tool = r.preview.tool;
  tenant_id = c.tenant_id;
  response = response;
  completed_at = now;
}

-- `execute`, after the tool has answered.
unfoldable pub finish_execute : Context → Registered → Response → (now : ℕ) → Service → Service
unfolding put
finish_execute c r response now s = record s {
  operations =
      put r.operation_key (record { preview = r.preview; outcome = outcome_of c r response now })
        s.operations;
}

abbrev pub retry_allowed : Response → Bool
retry_allowed none = false
retry_allowed (some _) = true

abbrev outcome_at : Option Operation → Option Outcome
outcome_at none = none
outcome_at (some o) = some o.outcome

unfoldable pub get_operation : Context → String → Service → Result (Option Outcome)
unfolding key_of get
get_operation c idempotency_key s = do
  key ← key_of c idempotency_key
  ok (outcome_at (get key s.operations))

-- The steps that change the service. A tool may answer whenever it was started.
pub data Call : Type 0 where
  previews : Context → PreviewRequest → (now : ℕ) → Call
  finishes : Context → Registered → Response → (now : ℕ) → Call

unfoldable pub step : List (String × Definition) → Call → Service → Service
unfolding preview finish_execute
step tools (previews c q now) s = (preview tools c q now s).0
step tools (finishes c r response now) s = finish_execute c r response now s

unfoldable pub run : List (String × Definition) → List Call → Service → Service
unfolding step
run tools [] s = s
run tools (c ∷ calls) s = run tools calls (step tools c s)
