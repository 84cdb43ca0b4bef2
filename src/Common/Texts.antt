-- ===== src/Common/Texts.antt =====
-- Texts as lists of code units.
use Prim.Native.Char.{code}
use Prim.Native.Nat.{ℕ, zero, suc, ◌+◌, ◌/◌, ◌%◌, ◌≤◌}
use Prim.Native.String.{String}
use mathlib.Core.Bool.{Bool, true, false, ◌&&◌}
use mathlib.Core.Path.{◌≡◌, refl}
use mathlib.Core.List.{List, [], ◌∷◌}
use native.Mathlib.Omega.{arith}
use crmtsi_app.Common.Lists.{All}
use crmtsi_app.Common.Tests.{if_intro, ltb, if◌then◌else◌, ◌==◌}

-- The code units of an ASCII text.
abbrev pub codes : String → List ℕ
codes String.[] = []
codes (String.◌∷◌ c s) = code c ∷ codes s

unfoldable pub digits_onto : ℕ → ℕ → List ℕ → List ℕ
digits_onto zero n acc = acc
digits_onto (suc fuel) n acc =
    let more = digits_onto fuel (n / 10) ((b'0' + n % 10) ∷ acc) in
    if ltb n 10 then (b'0' + n) ∷ acc else more

-- The decimal digits of a number, which are at most one more than the number itself.
unfoldable pub decimal : ℕ → List ℕ
unfolding digits_onto
decimal n = digits_onto (suc n) n []

abbrev pub take {ℓ} : {A : Type ℓ} → ℕ → List A → List A
take zero xs = []
take (suc n) [] = []
take (suc n) (x ∷ xs) = x ∷ take n xs

abbrev pub drop {ℓ} : {A : Type ℓ} → ℕ → List A → List A
drop zero xs = xs
drop (suc n) [] = []
drop (suc n) (x ∷ xs) = drop n xs

-- A text of UTF-16 code units.
abbrev pub Text : Type 0
Text = List ℕ

-- `Buffer.byteLength` of a text: each half of a surrogate pair counts two of its four bytes.
unit_bytes : ℕ → ℕ
unit_bytes c =
    if ltb c 0x80
    then 1
    else if ltb c 0x800
    then 2
    else if ltb c 0xd800
    then 3
    else if ltb c 0xe000
    then 2
    else 3

unfoldable pub byte_length : Text → ℕ
unfolding unit_bytes
byte_length [] = 0
byte_length (c ∷ s) = unit_bytes c + byte_length s

abbrev pub IsDigit : ℕ → Type 0
IsDigit c = (b'0' ≤ c) × (c ≤ b'9')

digits_onto-All :
    (fuel n : ℕ) (acc : List ℕ) → All IsDigit acc → All IsDigit (digits_onto fuel n acc)
unfolding digits_onto
digits_onto-All zero n acc h = h
digits_onto-All (suc fuel) n acc h =
    if_intro (All IsDigit) (ltb n 10) ((b'0' + n) ∷ acc)
      (digits_onto fuel (n / 10) ((b'0' + n % 10) ∷ acc))
      (λ e. ((omega arith, ground (arith, e)), h))
      (λ _. digits_onto-All fuel (n / 10) ((b'0' + n % 10) ∷ acc) (omega arith, h))

pub decimal-All : (n : ℕ) → All IsDigit (decimal n)
unfolding decimal
decimal-All n = digits_onto-All (suc n) n [] tt

unfoldable pub text_eq : Text → Text → Bool
text_eq [] [] = true
text_eq (c ∷ s) (d ∷ t) = c == d && text_eq s t
text_eq _ _ = false

pub text_eq-eq : (s t : Text) → text_eq s t ≡ true → s ≡ t
unfolding text_eq
text_eq-eq [] [] h = refl
text_eq-eq [] (d ∷ t) h = cc
text_eq-eq (c ∷ s) [] h = cc
text_eq-eq (c ∷ s) (d ∷ t) h =
    let same : c ≡ d = ground arith in let rest : s ≡ t = text_eq-eq s t (ground arith) in cc

pub text_eq_refl : (s : Text) → text_eq s s ≡ true
unfolding text_eq
text_eq_refl [] = refl
text_eq_refl (c ∷ s) = ground (arith, text_eq_refl s)
