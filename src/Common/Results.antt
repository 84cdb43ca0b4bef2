-- ===== src/Common/Results.antt =====
-- Functions that throw: a value, or the code of the error thrown.
use Prim.Native.String.{String}
use mathlib.Core.Bool.{Bool, true, false}
use mathlib.Core.Path.{◌≡◌, refl}
use mathlib.Core.Logic.{◌⊎◌, inl, inr}

pub data Result {ℓ} (A : Type ℓ) : Type ℓ where
  err : String → Result A
  ok : A → Result A

-- `if (!test) throw error(code)`
abbrev pub require : Bool → String → Result (Unit {0})
require false code = err code
require true _ = ok tt

-- What comes after a call that may throw.
infixl 5 ◌>>◌ ◌>>=◌
abbrev pub ◌>>◌ {ℓ} : {A : Type ℓ} → Result (Unit {0}) → Result A → Result A
err code >> later = err code
ok _ >> later = later

abbrev pub ◌>>=◌ {ℓ κ} : {B : Type κ} {A : Type ℓ} → Result B → (B → Result A) → Result A
err code >>= later = err code
ok value >>= later = later value

pub Result-cases {ℓ} :
    {A : Type ℓ} (r : Result A) → ((code : String) × (r ≡ err code)) ⊎ ((a : A) × (r ≡ ok a))
Result-cases (err code) = inl (code, refl)
Result-cases (ok a) = inr (a, refl)
