-- ===== src/Access/LoginLimit.antt =====
-- createLoginRateLimiter of security.js. The `Map` is an association list.
mod Examples
pub mod Counting
use crmtsi_app.Common.{
  ℕ, ◌+◌, String, Bool, true, false, not, List, [], ◌∷◌, Option, none, some, str_eq, leb,
  if◌then◌else◌,
}

pub record Entry : Type 0 where
  pub count : ℕ
  pub started_at : ℕ

abbrev pub Attempts : Type 0
Attempts = List (String × Entry)

pub get : String → Attempts → Option Entry
get address [] = none
get address ((a, e) ∷ m) = if str_eq a address then some e else get address m

pub set : String → Entry → Attempts → Attempts
set address entry [] = (address, entry) ∷ []
set address entry ((a, e) ∷ m) =
    let rest = set address entry m in if str_eq a address then (a, entry) ∷ m else (a, e) ∷ rest

pub delete : String → Attempts → Attempts
delete address [] = []
delete address ((a, e) ∷ m) =
    let rest = delete address m in if str_eq a address then rest else (a, e) ∷ rest

abbrev fresh : ℕ → Entry
fresh now = record { count = 0; started_at = now }

-- The entry of an address, made anew where there is none or its window is over.
abbrev started : ℕ → ℕ → String → Attempts → Option Entry → Attempts × Entry
started window now address m none = (set address (fresh now) m, fresh now)
started window now address m (some e) =
    if leb (e.started_at + window) now then (set address (fresh now) m, fresh now) else (m, e)

pub entry : ℕ → ℕ → String → Attempts → Attempts × Entry
entry window now address m = started window now address m (get address m)

pub is_blocked : (limit window now : ℕ) → String → Attempts → Attempts × Bool
unfolding entry
is_blocked limit window now address m =
    let (m', e) = entry window now address m in (m', leb limit e.count)

pub record_failure : (window now : ℕ) → String → Attempts → Attempts
unfolding entry
record_failure window now address m =
    let (m', e) = entry window now address m in set address (record e { count = e.count + 1 }) m'

pub reset : String → Attempts → Attempts
unfolding delete
reset address m = delete address m

-- The calls on a limiter, each with the time at which it is made.
pub data Call : Type 0 where
  asks fails : ℕ → String → Call
  resets : String → Call

pub step : (limit window : ℕ) → Call → Attempts → Attempts
unfolding is_blocked record_failure reset
step limit window (asks now address) m = (is_blocked limit window now address m).0
step limit window (fails now address) m = record_failure window now address m
step limit window (resets address) m = reset address m

pub run : (limit window : ℕ) → Attempts → List Call → Attempts
run limit window m [] = m
run limit window m (c ∷ calls) = run limit window (step limit window c m) calls
