-- ===== src/Access/LoginLimit/Counting.antt =====
-- Within a window the limiter counts every failure of an address, and nothing else.
use crmtsi_app.Common.{
  ℕ, ◌+◌, ◌<◌, ◌≡◌, ◌≢◌, refl, String, false, List, [], ◌∷◌, Option, none, some, str_eq, leb,
  if◌then◌else◌, arith, eq_iff, All, str_eq_refl, Bool-cases, inl, inr,
}
use crmtsi_app.Access.LoginLimit.{
  Entry, Attempts, get, set, delete, entry, is_blocked, started, fresh, Call, asks, fails, resets,
  step, run,
}

get-set_same : (a : String) (e : Entry) (m : Attempts) → get a (set a e m) ≡ some e
unfolding get set
get-set_same a e [] = ground (arith, str_eq_refl a)
get-set_same a e ((b, f) ∷ m) = ground (arith, get-set_same a e m)

get-set_other :
    (a b : String) (e : Entry) (m : Attempts) → str_eq a b ≡ false → get b (set a e m) ≡ get b m
unfolding get set
get-set_other a b e [] h = ground arith
get-set_other a b e ((c, f) ∷ m) h =
    ground (arith, get-set_other a b e m h, eq_iff c a, eq_iff c b, eq_iff a b)

get-delete_other : (a b : String) (m : Attempts) → str_eq a b ≡ false → get b (delete a m) ≡ get b m
unfolding get delete
get-delete_other a b [] h = refl
get-delete_other a b ((c, f) ∷ m) h =
    ground (arith, get-delete_other a b m h, eq_iff c a, eq_iff c b, eq_iff a b)

-- A call that falls into the window of `address` and does not reset it.
abbrev pub IsWithin : (window since : ℕ) → String → Call → Type 0
IsWithin window since address (asks now a) = now < since + window
IsWithin window since address (fails now a) = now < since + window
IsWithin window since address (resets a) = a ≢ address

-- How many failures of an address are recorded.
unfoldable pub failures : String → List Call → ℕ
failures address [] = 0
failures address (fails now a ∷ calls) =
    if str_eq a address then failures address calls + 1 else failures address calls
failures address (_ ∷ calls) = failures address calls

module _ (limit window : ℕ) (address : String) (since : ℕ) where
  abbrev at : ℕ → Entry
  at k = record { count = k; started_at = since }

  abbrev one_if_fails : Call → ℕ
  one_if_fails (fails now a) = if str_eq a address then 1 else 0
  one_if_fails _ = 0

  entry_same :
      (k now : ℕ) (m : Attempts)
      → get address m ≡ some (at k)
      → now < since + window
      → entry window now address m ≡ (m, at k)
  unfolding entry
  entry_same k now m g w = ground (arith, g)

  started_other :
      (now : ℕ) (a : String) (m : Attempts) (o : Option Entry)
      → str_eq a address ≡ false
      → get address (started window now a m o).0 ≡ get address m
  started_other now a m none h = get-set_other a address _ m h
  started_other now a m (some e) h = ground (arith, get-set_other a address (fresh now) m h)

  step-count :
      (k : ℕ) (m : Attempts) (c : Call)
      → get address m ≡ some (at k)
      → IsWithin window since address c
      → get address (step limit window c m) ≡ some (at (k + one_if_fails c))
  unfolding step
  step-count k m (asks now a) g w = elim (Bool-cases (str_eq a address)) [
    | inl same ↦ ground (arith, g, entry_same k now m g w, eq_iff a address)
    | inr other ↦ unfold entry in ground (arith, g, started_other now a m (get a m) other)
  ]
  step-count k m (fails now a) g w = elim (Bool-cases (str_eq a address)) [
    | inl same ↦
        ground
          (arith, g, entry_same k now m g w, eq_iff a address, get-set_same address (at (k + 1)) m)
    | inr other ↦
        unfold entry in
        ground (
          arith,
          g,
          other,
          started_other now a m (get a m) other,
          get-set_other a address
              (record (started window now a m (get a m)).1 {
                count = (started window now a m (get a m)).1.count + 1;
              })
              (started window now a m (get a m)).0 other,
        )
  ]
  step-count k m (resets a) g w = ground (arith, g, get-delete_other a address m, eq_iff a address)

  run-count :
      (k : ℕ) (m : Attempts) (calls : List Call)
      → get address m ≡ some (at k)
      → All (IsWithin window since address) calls
      → get address (run limit window m calls) ≡ some (at (k + failures address calls))
  unfolding run failures
  run-count k m [] g w = ground (arith, g)
  run-count k m (c ∷ calls) g w =
      let later =
        run-count (k + one_if_fails c) (step limit window c m) calls (step-count k m c g w.0) w.1 in
      counted c later
    where
      counted :
          (c : Call)
          → get address (run limit window (step limit window c m) calls)
            ≡ some (at (k + one_if_fails c + failures address calls))
          → get address (run limit window (step limit window c m) calls)
            ≡ some (at (k + failures address (c ∷ calls)))
      counted (asks now a) e = ground (arith, e)
      counted (fails now a) e = ground (arith, e)
      counted (resets a) e = ground (arith, e)

-- An address whose window began at `since` with `k` failures is blocked, at any time of that
-- window, exactly if `k` and the failures recorded of it since reach the limit; the other calls, and
-- those on other addresses, change nothing of that.
is_blocked-counts :
    (limit window since now k : ℕ) (address : String) (m : Attempts) (calls : List Call)
    → get address m ≡ some (record { count = k; started_at = since })
    → All (IsWithin window since address) calls
    → now < since + window
    → (is_blocked limit window now address (run limit window m calls)).1
      ≡ leb limit (k + failures address calls)
unfolding is_blocked
is_blocked-counts limit window since now k address m calls g w within = ground (
  arith,
  entry_same limit window address since (k + failures address calls) now (run limit window m calls)
      (run-count limit window address since k m calls g w) within,
)
