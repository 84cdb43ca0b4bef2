-- ===== src/Common/Maps.antt =====
-- The maps of the program: lists of entries in the order in which their keys were set first.
use Prim.Native.String.{String}
use mathlib.Core.Path.{◌≡◌, refl, subst}
use mathlib.Core.Bool.{true}
use mathlib.Core.Logic.{inl, inr}
use mathlib.Core.Option.{Option, none, some}
use mathlib.Core.List.{List, [], ◌∷◌}
use native.Mathlib.Omega.{arith}
use text.Mathlib.TextEquality.{eq_iff}
use crmtsi_app.Common.Lists.{All}
use crmtsi_app.Common.Tests.{Bool-cases, if◌then◌else◌, str_eq}

-- `get` and `set` of a map.
unfoldable pub get {ℓ} : {A : Type ℓ} → String → List (String × A) → Option A
get key [] = none
get key ((k, a) ∷ entries) = if str_eq k key then some a else get key entries

unfoldable pub put {ℓ} : {A : Type ℓ} → String → A → List (String × A) → List (String × A)
put key a [] = (key, a) ∷ []
put key a ((k, b) ∷ entries) =
    let rest = put key a entries in if str_eq k key then (k, a) ∷ entries else (k, b) ∷ rest

module _ {ℓ} {A : Type ℓ} where
  pub get-put :
      (k key : String) (a : A) (m : List (String × A))
      → get k (put key a m) ≡ (if str_eq key k then some a else get k m)
  unfolding get put
  get-put k key a [] = refl
  get-put k key a ((j, b) ∷ m) = elim (Bool-cases (str_eq j key)) [
    | inl same ↦ rw same (ground (arith, eq_iff j key, eq_iff j k, eq_iff key k, same))
    | inr other ↦
        rw other (ground (arith, get-put k key a m, eq_iff j k, eq_iff key k, eq_iff j key, other))
  ]

  pub All-put {κ} :
      (P : String × A → Type κ) (key : String) (a : A) (m : List (String × A))
      → P (key, a)
      → ((j : String) (b : A) → str_eq j key ≡ true → P (j, a))
      → All P m
      → All P (put key a m)
  unfolding put
  All-put P key a [] new over h = (new, tt)
  All-put P key a ((j, b) ∷ m) new over h = elim (Bool-cases (str_eq j key)) [
    | inl same ↦ rw same (over j b same, h.1)
    | inr other ↦ rw other (h.0, All-put P key a m new over h.1)
  ]

  pub All-get {κ} :
      (P : String × A → Type κ) (key : String) (a : A) (m : List (String × A))
      → All P m
      → get key m ≡ some a
      → (k : String) × (k ≡ key) × P (k, a)
  unfolding get
  All-get P key a [] h e = absurd (cc e)
  All-get P key a ((j, b) ∷ m) h e = elim (Bool-cases (str_eq j key)) [
    | inl same ↦
        let this : b ≡ a = cc (rw same at e) in
        (j, (eq_iff j key).0 same, subst (λ (x : A). P (j, x)) this h.0)
    | inr other ↦ All-get P key a m h.1 (rw other at e)
  ]
