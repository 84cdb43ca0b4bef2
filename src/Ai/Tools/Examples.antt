-- ===== src/Ai/Tools/Examples.antt =====
-- An irreversible tool that is previewed, confirmed and run.
use crmtsi_app.Common.{◌≡◌, ◌≢◌, refl, true, List, [], ◌∷◌, some, err, String, get, put}
use crmtsi_app.Ai.Tools.{
  Context, Definition, PreviewRequest, Registered, new_service, RunRequest, Call, previews,
  begin_execute, registered_of, preview, finish_execute, run,
}
use crmtsi_app.Ai.Tools.Authorized.{IsAuthorized, starts-IsAuthorized}
use crmtsi_app.Ai.Tools.Started.{never_started_again}

abbrev context : Context
context = record {
  tenant_id = "t";
  actor_id = "ann";
  request_id = "r1";
  capabilities = "crm:write" ∷ [];
}

abbrev erase : Definition
erase = record { capability = "crm:write"; input_keys = "id" ∷ []; irreversible = true }

abbrev tools : List (String × Definition)
tools = ("erase", erase) ∷ []

abbrev shown : String → PreviewRequest
shown key = record { tool = "erase"; input = some (("id", "7") ∷ []); idempotency_key = key }

abbrev request : String → RunRequest
request confirmation = record {
  preview_id = "r1:erase:t:k1";
  idempotency_key = "k1";
  confirmation = confirmation;
}

abbrev calls : List Call
calls = previews context (shown "k1") 5 ∷ []

abbrev registered : Registered
registered = registered_of context (shown "k1") erase (("id", "7") ∷ []) "t:k1" 5

unconfirmed :
    begin_execute context (request "") (run tools calls new_service)
    ≡ err "AI_TOOL_CONFIRMATION_REQUIRED"
unfolding begin_execute run preview put get
unconfirmed = refl

starts-IsAuthorized_example :
    IsAuthorized tools context (request "confirm:r1:erase:t:k1") registered
unfolding begin_execute run preview put get
starts-IsAuthorized_example =
    starts-IsAuthorized tools calls context (request "confirm:r1:erase:t:k1") registered refl

-- Another operation may start after the first has a result.
abbrev second : Registered
second = registered_of context (shown "k2") erase (("id", "7") ∷ []) "t:k2" 6

never_started_again_example : second.operation_key ≢ registered.operation_key
unfolding begin_execute run preview finish_execute put get
never_started_again_example =
    never_started_again tools (previews context (shown "k2") 6 ∷ []) (run tools calls new_service)
      context context registered second (some "done") 7
      (record {
        preview_id = "r1:erase:t:k2";
        idempotency_key = "k2";
        confirmation = "confirm:r1:erase:t:k2";
      })
      refl
