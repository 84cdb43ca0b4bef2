-- ===== src/Providers/Normalize.antt =====
-- The normalizing of modules/providers/provider-registry.js.
mod Examples
use crmtsi_app.Common.{
  ℕ, String, Bool, true, false, ◌&&◌, ◌||◌, List, [], ◌∷◌, map, str_eq, if◌then◌else◌, has, any_of,
  Text, Value, string, Object, field_of, leb, ◌==◌,
}
use crmtsi_app.Providers.Schema.{Rule, Schema, allowed_providers, config_schema, credentials_schema}
use crmtsi_app.Providers.Endpoint.{text_of, strip_slash}

-- White space and line ends of JavaScript.
abbrev is_space : ℕ → Bool
is_space c =
    (leb 9 c && leb c 13)
    || (leb 8192 c && leb c 8202)
    || any_of (λ d. c == d) (32 ∷ 160 ∷ 5760 ∷ 8232 ∷ 8233 ∷ 8239 ∷ 8287 ∷ 12288 ∷ 65279 ∷ [])

abbrev trim_end_cons : ℕ → Text → Text
trim_end_cons c [] = if is_space c then [] else c ∷ []
trim_end_cons c (d ∷ t) = c ∷ d ∷ t

pub trim_end : Text → Text
trim_end [] = []
trim_end (c ∷ t) = trim_end_cons c (trim_end t)

pub trim_start : Text → Text
trim_start [] = []
trim_start (c ∷ t) = let rest = trim_start t in if is_space c then rest else c ∷ t

pub trim : Text → Text
unfolding trim_end trim_start
trim t = trim_end (trim_start t)

-- The adapters read each field of the schema as a text, and drop all other fields.
abbrev normal_text : String → Text → Text
normal_text field t = if str_eq field "baseUrl" then strip_slash t else trim t

abbrev normal_field : Object → Rule → String × Value
normal_field o r = (r.field, string (normal_text r.field (text_of (field_of o r.field))))

abbrev normalize : Schema → Object → Object
normalize schema o = map (normal_field o) schema

-- `lower` is `toLowerCase`.
pub normalize_provider_config : (lower : String → String) → String → Object → Object
unfolding trim
normalize_provider_config lower provider config =
    if has allowed_providers (lower provider)
    then normalize (config_schema (lower provider)) config
    else config

pub normalize_provider_credentials : (lower : String → String) → String → Object → Object
unfolding trim
normalize_provider_credentials lower provider credentials =
    if has allowed_providers (lower provider)
    then normalize (credentials_schema (lower provider)) credentials
    else credentials
