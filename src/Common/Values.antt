-- ===== src/Common/Values.antt =====
-- The values of JSON as far as the code tells them apart, and objects as lists of fields.
use Prim.Native.String.{String}
use mathlib.Core.Bool.{Bool, true, false, ◌&&◌}
use mathlib.Core.List.{List, [], ◌∷◌}
use Prim.Native.Nat.{ℕ}
use crmtsi_app.Common.Tests.{if◌then◌else◌, str_eq, ◌==◌, leb}
use crmtsi_app.Common.Texts.{Text}

-- `falsy` stands for the values that are neither texts nor null and count as false, `other` for the
-- rest.
pub data Value : Type 0 where
  undefined null falsy other : Value
  string : Text → Value

abbrev pub Object : Type 0
Object = List (String × Value)

-- `object[field]`
abbrev pub field_of : Object → String → Value
field_of [] name = undefined
field_of ((k, v) ∷ o) name = if str_eq k name then v else field_of o name

-- `Boolean(value)`
abbrev pub is_truthy : Value → Bool
is_truthy other = true
is_truthy (string (_ ∷ _)) = true
is_truthy _ = false

-- `text.startsWith(prefix)`
unfoldable pub starts_with : Text → Text → Bool
starts_with [] t = true
starts_with (c ∷ p) [] = false
starts_with (c ∷ p) (d ∷ t) = c == d && starts_with p t

abbrev pub is_digit : ℕ → Bool
is_digit c = leb b'0' c && leb c b'9'
