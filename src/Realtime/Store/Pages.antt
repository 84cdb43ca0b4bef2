-- ===== src/Realtime/Store/Pages.antt =====
-- The first of the rows and the rest of them, which a page and those after it are.
use crmtsi_app.Common.{
  ℕ, zero, suc, ◌≤◌, ◌<◌, ◌≡◌, refl, ap, Bool, List, [], ◌∷◌, ◌++◌, keep, take, drop, length, arith,
  Bool-cases, inl, inr,
}
use crmtsi_app.Realtime.Store.{Row}
use crmtsi_app.Realtime.Store.Order.{last_sequence}

-- What a filter keeps of the first elements is the first of what it keeps.
pub take-keep :
    (p : Row → Bool) (n : ℕ) (rows : List Row)
    → keep p (take n rows) ≡ take (length (keep p (take n rows))) (keep p rows)
unfolding keep
take-keep p zero rows = refl
take-keep p (suc n) [] = refl
take-keep p (suc n) (r ∷ rows) = elim (Bool-cases (p r)) [
  | inl kept ↦ rw kept (ap (λ (l : List Row). r ∷ l) (take-keep p n rows))
  | inr dropped ↦ rw dropped (take-keep p n rows)
]

pub keep_swap : (p q : Row → Bool) (rows : List Row) → keep p (keep q rows) ≡ keep q (keep p rows)
unfolding keep
keep_swap p q [] = refl
keep_swap p q (r ∷ rows) = elim (Bool-cases (p r)) [
  | inl a ↦ elim (Bool-cases (q r)) [
    | inl b ↦ rw (a, b, a) (ap (λ (l : List Row). r ∷ l) (keep_swap p q rows))
    | inr b ↦ rw (a, b) (keep_swap p q rows)
  ]
  | inr a ↦ elim (Bool-cases (q r)) [
    | inl b ↦ rw (a, b, a) (keep_swap p q rows)
    | inr b ↦ rw (a, b) (keep_swap p q rows)
  ]
]

pub take-drop : (n : ℕ) (rows : List Row) → take n rows ++ drop n rows ≡ rows
take-drop zero rows = refl
take-drop (suc n) [] = refl
take-drop (suc n) (r ∷ rows) = ap (λ (l : List Row). r ∷ l) (take-drop n rows)

length-drop : (n : ℕ) (rows : List Row) → length (drop n rows) ≤ length rows
length-drop zero rows = omega arith
length-drop (suc n) [] = omega arith
length-drop (suc n) (r ∷ rows) = omega (arith, length-drop n rows)

pub drop-all : (n : ℕ) (rows : List Row) → length rows ≤ n → drop n rows ≡ []
drop-all zero [] h = refl
drop-all zero (r ∷ rows) h = absurd (omega (arith, h))
drop-all (suc n) [] h = refl
drop-all (suc n) (r ∷ rows) h = drop-all n rows (omega arith)

pub last_sequence-append :
    (b : ℕ) (xs ys : List Row) → last_sequence b (xs ++ ys) ≡ last_sequence (last_sequence b xs) ys
last_sequence-append b [] ys = refl
last_sequence-append b (r ∷ xs) ys = last_sequence-append r.sequence xs ys

pub length-drop_pos :
    (n : ℕ) (rows : List Row) → 0 < n → 0 < length rows → length (drop n rows) < length rows
length-drop_pos zero rows h k = absurd (omega (arith, h))
length-drop_pos (suc n) [] h k = absurd (omega (arith, k))
length-drop_pos (suc n) (r ∷ rows) h k = omega (arith, length-drop n rows)
