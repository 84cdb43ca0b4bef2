-- ===== src/Access/Tenant.antt =====
-- tenant-context.js: the tenant that a session acts in, among the user's memberships.
mod Examples
pub mod Membership
use crmtsi_app.Common.{
  ℕ, ◌+◌, Bool, true, false, not, ◌&&◌, ◌||◌, List, [], ◌∷◌, ◌++◌, Option, none, some, ltb, leb,
  ◌==◌, if◌then◌else◌, Text, text_eq,
}

-- What `trim` takes off.
abbrev is_space : ℕ → Bool
is_space c =
    (leb 9 c && leb c 13)
    || c == 32
    || c == 160
    || c == 5760
    || (leb 8192 c && leb c 8202)
    || c == 8232
    || c == 8233
    || c == 8239
    || c == 8287
    || c == 12288
    || c == 65279

trim_start : Text → Text
trim_start [] = []
trim_start (c ∷ s) = let rest = trim_start s in if is_space c then rest else c ∷ s

-- A space stays only if something else follows.
abbrev put_before : ℕ → Text → Text
put_before c [] = if is_space c then [] else c ∷ []
put_before c (d ∷ s) = c ∷ d ∷ s

trim_end : Text → Text
trim_end [] = []
trim_end (c ∷ s) = put_before c (trim_end s)

-- No letter but the ASCII ones has a lower case that the pattern admits.
abbrev lower : ℕ → ℕ
lower c = if leb 65 c && leb c 90 then c + 32 else c

to_lower_case : Text → Text
to_lower_case [] = []
to_lower_case (c ∷ s) = lower c ∷ to_lower_case s

abbrev is_hex : ℕ → Bool
is_hex c = (leb 48 c && leb c 57) || (leb 97 c && leb c 102)

abbrev is_dash : ℕ → Bool
is_dash c = c == 45

abbrev is_version : ℕ → Bool
is_version c = leb 49 c && leb c 53

abbrev is_variant : ℕ → Bool
is_variant c = c == 56 || c == 57 || c == 97 || c == 98

abbrev three_hex : List (ℕ → Bool) → List (ℕ → Bool)
three_hex p = is_hex ∷ is_hex ∷ is_hex ∷ p

abbrev four_hex : List (ℕ → Bool) → List (ℕ → Bool)
four_hex p = is_hex ∷ three_hex p

-- The pattern, one test for each place; the text it is tried on is in lower case.
abbrev uuid : List (ℕ → Bool)
uuid = four_hex (
    four_hex (
      is_dash
      ∷ four_hex (
          is_dash
          ∷ is_version
          ∷ three_hex
              (is_dash ∷ is_variant ∷ three_hex (is_dash ∷ four_hex (four_hex (four_hex [])))))))

fits : List (ℕ → Bool) → Text → Bool
fits [] [] = true
fits (p ∷ ps) (c ∷ s) = p c && fits ps s
fits _ _ = false

-- An empty text stands for an absent value.
pub normalize_tenant_id : Text → Option Text
unfolding trim_start trim_end to_lower_case fits
normalize_tenant_id value =
    let tenant_id = to_lower_case (trim_end (trim_start value)) in
    if fits uuid tenant_id then some tenant_id else none

abbrev is_tenant : Text → Option Text → Bool
is_tenant t none = false
is_tenant t (some u) = text_eq u t

-- `allowed.has(active)`, for the set of the memberships that are tenants.
pub allowed : Text → List Text → Bool
allowed active [] = false
allowed active (m ∷ memberships) =
    is_tenant active (normalize_tenant_id m) || allowed active memberships

abbrev admit : List Text → Option Text → Option Text
admit memberships none = none
admit memberships (some active) = if allowed active memberships then some active else none

pub resolve_tenant_context : Text → List Text → Option Text
resolve_tenant_context active_tenant_id memberships =
    admit memberships (normalize_tenant_id active_tenant_id)
