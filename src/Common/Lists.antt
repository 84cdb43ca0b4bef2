-- ===== src/Common/Lists.antt =====
-- Lists measured by native numbers, and predicates over all their elements.
use Prim.Native.Nat.{ℕ, zero, suc, ◌+◌}
use Prim.Native.String.{String}
use mathlib.Core.Path.{◌≡◌, refl, ap, subst}
use mathlib.Core.Bool.{Bool, true, false, ◌&&◌, ◌||◌}
use mathlib.Core.Option.{Option, none, some}
use mathlib.Core.List.{List, [], ◌∷◌, ◌++◌, map}
use native.Mathlib.Omega.{arith}
use mathlib.Core.Logic.{◌⊎◌, inl, inr}
use crmtsi_app.Common.Tests.{Bool-cases, if_intro, if◌then◌else◌, str_eq}

module _ {ℓ} {A : Type ℓ} where
  abbrev pub length : List A → ℕ
  length [] = 0
  length (x ∷ xs) = suc (length xs)

  abbrev pub get_elem? : List A → ℕ → Option A
  get_elem? [] i = none
  get_elem? (x ∷ xs) zero = some x
  get_elem? (x ∷ xs) (suc i) = get_elem? xs i

  pub length-append : (xs ys : List A) → length (xs ++ ys) ≡ length xs + length ys
  length-append [] ys = omega arith
  length-append (x ∷ xs) ys = omega (arith, length-append xs ys)

  abbrev pub All {κ} : (A → Type κ) → List A → Type κ
  All P [] = Unit
  All P (x ∷ xs) = P x × All P xs

  -- `filter` by a Boolean test.
  unfoldable pub keep : (A → Bool) → List A → List A
  keep p [] = []
  keep p (x ∷ xs) = if p x then x ∷ keep p xs else keep p xs

  pub All-keep {κ} : (P : A → Type κ) (p : A → Bool) (xs : List A) → All P xs → All P (keep p xs)
  unfolding keep
  All-keep P p [] h = tt
  All-keep P p (x ∷ xs) h =
      if_intro (All P) (p x) (x ∷ keep p xs) (keep p xs) (λ _. (h.0, All-keep P p xs h.1))
        (λ _. All-keep P p xs h.1)

  -- `every` and `some` of an array.
  abbrev pub every : (A → Bool) → List A → Bool
  every p [] = true
  every p (x ∷ xs) = p x && every p xs

  abbrev pub any_of : (A → Bool) → List A → Bool
  any_of p [] = false
  any_of p (x ∷ xs) = p x || any_of p xs

  -- `find` of an array.
  abbrev pub find_first : (A → Bool) → List A → Option A
  find_first p [] = none
  find_first p (x ∷ xs) = if p x then some x else find_first p xs

  pub All-append {κ} : (P : A → Type κ) (xs ys : List A) → All P xs → All P ys → All P (xs ++ ys)
  All-append P [] ys h k = k
  All-append P (x ∷ xs) ys h k = (h.0, All-append P xs ys h.1 k)

  pub All-impl {κ ν} :
      (P : A → Type κ) (Q : A → Type ν)
      → ((a : A) → P a → Q a)
      → (xs : List A) → All P xs
      → All Q xs
  All-impl P Q f [] h = tt
  All-impl P Q f (x ∷ xs) h = (f x h.0, All-impl P Q f xs h.1)

module _ {ℓ} {A : Type ℓ} where
  pub length-map {κ} : {B : Type κ} (f : A → B) (xs : List A) → length (map f xs) ≡ length xs
  length-map f [] = refl
  length-map f (x ∷ xs) = ap suc (length-map f xs)

  pub All-map {κ ν} :
      {B : Type ν} (P : B → Type κ) (f : A → B) (xs : List A)
      → All (λ a. P (f a)) xs
      → All P (map f xs)
  All-map P f [] h = tt
  All-map P f (x ∷ xs) h = (h.0, All-map P f xs h.1)

abbrev pub has : List String → String → Bool
has [] s = false
has (t ∷ ts) s = str_eq t s || has ts s

-- Membership by position in the list, with the element kept.
pub data In {ℓ} {A : Type ℓ} (a : A) : List A → Type ℓ where
  here : {xs : List A} → In a (a ∷ xs)
  there : {x : A} {xs : List A} → In a xs → In a (x ∷ xs)

module _ {ℓ} {A : Type ℓ} where
  pub In-All {κ} : (P : A → Type κ) {a : A} {xs : List A} → In a xs → All P xs → P a
  In-All P here h = h.0
  In-All P (there m) h = In-All P m h.1

  pub In-map {κ} : {B : Type κ} (f : A → B) {a : A} {xs : List A} → In a xs → In (f a) (map f xs)
  In-map f here = here
  In-map f (there m) = there (In-map f m)

  pub In-append_left : {a : A} {xs : List A} (ys : List A) → In a xs → In a (xs ++ ys)
  In-append_left ys here = here
  In-append_left ys (there m) = there (In-append_left ys m)

  pub All-of_In {κ} : (P : A → Type κ) (xs : List A) → ((a : A) → In a xs → P a) → All P xs
  All-of_In P [] f = tt
  All-of_In P (x ∷ xs) f = (f x here, All-of_In P xs (λ a m. f a (there m)))

module _ {ℓ κ} {A : Type ℓ} {B : Type κ} where
  -- An element of a mapped list is the image of one.
  pub In-map_inv :
      (f : A → B) (xs : List A) {b : B} → In b (map f xs) → (a : A) × In a xs × (b ≡ f a)
  In-map_inv f [] m = elim m [ ]
  In-map_inv f (x ∷ xs) here = (x, here, refl)
  In-map_inv f (x ∷ xs) (there m) = let (a, at, e) = In-map_inv f xs m in (a, there at, e)

module _ {ℓ} {A : Type ℓ} where
  pub In-append_inv : (xs ys : List A) {a : A} → In a (xs ++ ys) → In a xs ⊎ In a ys
  In-append_inv [] ys m = inr m
  In-append_inv (x ∷ xs) ys here = inl here
  In-append_inv (x ∷ xs) ys (there m) = elim (In-append_inv xs ys m) [
    | inl l ↦ inl (there l)
    | inr r ↦ inr r
  ]

  -- A test that no element passes fails at each.
  pub any_of-false :
      (p : A → Bool) (xs : List A) {a : A} → any_of p xs ≡ false → In a xs → p a ≡ false
  any_of-false p [] h m = elim m [ ]
  any_of-false p (x ∷ xs) h here = ground arith
  any_of-false p (x ∷ xs) h (there m) = any_of-false p xs (ground arith) m

  -- What `find` answers stands in the list and passes the test.
  pub find_first-some :
      (p : A → Bool) (xs : List A) {a : A} → find_first p xs ≡ some a → In a xs × (p a ≡ true)
  find_first-some p [] h = cc
  find_first-some p (x ∷ xs) {a} h = elim (Bool-cases (p x)) [
    | inl e ↦
        let same : x ≡ a = ground arith in (subst (λ b. In b (x ∷ xs)) same here, ground arith)
    | inr e ↦ let (m, q) = find_first-some p xs {a = a} (ground arith) in (there m, q)
  ]

  pub find_first-none :
      (p : A → Bool) (xs : List A) {a : A} → find_first p xs ≡ none → In a xs → p a ≡ false
  find_first-none p [] h m = elim m [ ]
  find_first-none p (x ∷ xs) h here = ground arith
  find_first-none p (x ∷ xs) {a} h (there m) = find_first-none p xs {a = a} (ground arith) m

  pub In-cons_inv : {a x : A} {xs : List A} → In a (x ∷ xs) → (a ≡ x) ⊎ In a xs
  In-cons_inv here = inl refl
  In-cons_inv (there m) = inr m
