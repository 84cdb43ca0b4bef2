-- ===== src/Realtime/Store/Order.antt =====
-- The rows stand in the order of their sequence, so that paging reads each event after a cursor once.
use crmtsi_app.Common.{
  ℕ, zero, suc, ◌+◌, ◌≤◌, ◌<◌, ◌≡◌, refl, String, Bool, false, not, ◌&&◌, List, [], ◌∷◌, ◌++◌, ltb,
  keep, take, drop, any_of, arith, Bool-cases, if_intro, inl, inr,
}
use crmtsi_app.Realtime.Store.{
  Row, Event, Store, append_event, refused, row_of, is_after, is_expired, live_after,
  prune_expired_events, Call, appends, prunes, step, run,
}

-- Strictly rising sequences above a bound.
abbrev pub Rising : ℕ → List Row → Type 0
Rising bound [] = Unit {0}
Rising bound (r ∷ rows) = (bound < r.sequence) × Rising r.sequence rows

-- All sequences are below the next one.
abbrev pub Below : ℕ → List Row → Type 0
Below next [] = Unit {0}
Below next (r ∷ rows) = (r.sequence < next) × Below next rows

abbrev pub IsOrdered : Store → Type 0
IsOrdered s = Rising 0 s.rows × Below s.next s.rows × (0 < s.next)

pub Rising-weaken : (a b : ℕ) (rows : List Row) → a ≤ b → Rising b rows → Rising a rows
Rising-weaken a b [] h k = tt
Rising-weaken a b (r ∷ rows) h k = (omega (arith, k.0), k.1)

pub Rising-keep :
    (p : Row → Bool) (b : ℕ) (rows : List Row) → Rising b rows → Rising b (keep p rows)
unfolding keep
Rising-keep p b [] h = tt
Rising-keep p b (r ∷ rows) h =
    if_intro (Rising b) (p r) (r ∷ keep p rows) (keep p rows)
      (λ _. (h.0, Rising-keep p r.sequence rows h.1))
      (λ _.
        Rising-weaken b r.sequence (keep p rows) (omega (arith, h.0))
          (Rising-keep p r.sequence rows h.1))

Below-keep : (p : Row → Bool) (n : ℕ) (rows : List Row) → Below n rows → Below n (keep p rows)
unfolding keep
Below-keep p n [] h = tt
Below-keep p n (r ∷ rows) h =
    if_intro (Below n) (p r) (r ∷ keep p rows) (keep p rows) (λ _. (h.0, Below-keep p n rows h.1))
      (λ _. Below-keep p n rows h.1)

Below-weaken : (m n : ℕ) (rows : List Row) → m ≤ n → Below m rows → Below n rows
Below-weaken m n [] h k = tt
Below-weaken m n (r ∷ rows) h k = (omega (arith, k.0), Below-weaken m n rows h k.1)

Rising-concat :
    (b : ℕ) (rows : List Row) (r : Row)
    → b < r.sequence
    → Rising b rows
    → Below r.sequence rows
    → Rising b (rows ++ r ∷ [])
Rising-concat b [] r h k l = (h, tt)
Rising-concat b (q ∷ rows) r h k l = (k.0, Rising-concat q.sequence rows r l.0 k.1 l.1)

Below-concat :
    (n : ℕ) (rows : List Row) (r : Row) → r.sequence < n → Below n rows → Below n (rows ++ r ∷ [])
Below-concat n [] r h k = (h, tt)
Below-concat n (q ∷ rows) r h k = (k.0, Below-concat n rows r h k.1)

appended-IsOrdered :
    (now ms : ℕ) (e : Event) (s : Store)
    → IsOrdered s
    → IsOrdered (record { rows = s.rows ++ row_of s.next now ms e ∷ []; next = s.next + 1 })
unfolding row_of
appended-IsOrdered now ms e s h = (
  Rising-concat 0 s.rows (row_of s.next now ms e) h.2 h.0 h.1,
  Below-concat (s.next + 1) s.rows (row_of s.next now ms e) (omega arith)
      (Below-weaken s.next (s.next + 1) s.rows (omega arith) h.1),
  omega arith,
)

-- An append leaves the rows, or the rows with one that has the next sequence.
append_event-IsOrdered :
    (now ms : ℕ) (e : Event) (s : Store) → IsOrdered s → IsOrdered (append_event now ms e s).0
unfolding append_event
append_event-IsOrdered now ms e s h = elim (Bool-cases (refused e s.rows)) [
  | inl no_row ↦
      rw no_row (h.0, Below-weaken s.next (s.next + 1) s.rows (omega arith) h.1, omega arith)
  | inr row ↦ rw row (appended-IsOrdered now ms e s h)
]

step-IsOrdered : (c : Call) (s : Store) → IsOrdered s → IsOrdered (step c s)
unfolding step prune_expired_events
step-IsOrdered (appends now ms e) s h = append_event-IsOrdered now ms e s h
step-IsOrdered (prunes before t) s h =
    (Rising-keep _ 0 s.rows h.0, Below-keep _ s.next s.rows h.1, h.2)

pub run-IsOrdered : (calls : List Call) (s : Store) → IsOrdered s → IsOrdered (run calls s)
unfolding run
run-IsOrdered [] s h = h
run-IsOrdered (c ∷ calls) s h = run-IsOrdered calls (step c s) (step-IsOrdered c s h)

-- The sequence of the last row, or the bound where there is none.
abbrev pub last_sequence : ℕ → List Row → ℕ
last_sequence bound [] = bound
last_sequence bound (r ∷ rows) = last_sequence r.sequence rows

keep-Rising :
    (c b : ℕ) (rows : List Row) → c ≤ b → Rising b rows → keep (λ r. ltb c r.sequence) rows ≡ rows
unfolding keep
keep-Rising c b [] h k = refl
keep-Rising c b (r ∷ rows) h k =
    ground (arith, h, k, keep-Rising c r.sequence rows (omega (arith, k.0)))

pub last_sequence-le :
    (n b : ℕ) (rows : List Row) → Rising b rows → b ≤ last_sequence b (take n rows)
last_sequence-le zero b rows h = omega arith
last_sequence-le (suc n) b [] h = omega arith
last_sequence-le (suc n) b (r ∷ rows) h = omega (arith, h.0, last_sequence-le n r.sequence rows h.1)

-- The rows after the last one of a page are those that the page left.
pub keep-last_sequence :
    (n b : ℕ) (rows : List Row)
    → Rising b rows
    → keep (λ r. ltb (last_sequence b (take n rows)) r.sequence) rows ≡ drop n rows
unfolding keep
keep-last_sequence zero b rows h = keep-Rising b b rows (omega arith) h
keep-last_sequence (suc n) b [] h = refl
keep-last_sequence (suc n) b (r ∷ rows) h =
    ground
      (arith, h, last_sequence-le n r.sequence rows h.1, keep-last_sequence n r.sequence rows h.1)

pub live_after-later :
    (t : String) (c d now : ℕ) (rows : List Row)
    → c ≤ d
    → live_after t d now rows ≡ keep (λ r. ltb d r.sequence) (live_after t c now rows)
unfolding keep
live_after-later t c d now [] h = refl
live_after-later t c d now (r ∷ rows) h = ground (arith, h, live_after-later t c d now rows h)

pub expired-later :
    (t : String) (c d now : ℕ) (rows : List Row)
    → c ≤ d
    → any_of (λ r. is_after t c r && is_expired now r) rows ≡ false
    → any_of (λ r. is_after t d r && is_expired now r) rows ≡ false
expired-later t c d now [] h k = refl
expired-later t c d now (r ∷ rows) h k = ground (arith, h, k, expired-later t c d now rows h)

pub live_after-Rising :
    (t : String) (c now b : ℕ) (rows : List Row)
    → Rising b rows
    → Rising c (live_after t c now rows)
unfolding keep
live_after-Rising t c now b [] h = tt
live_after-Rising t c now b (r ∷ rows) h =
    if_intro (Rising c) (is_after t c r && not (is_expired now r)) (r ∷ live_after t c now rows)
      (live_after t c now rows)
      (λ e. (
        ground (arith, e),
        Rising-keep (λ x. is_after t c x && not (is_expired now x)) r.sequence rows h.1,
      ))
      (λ _. live_after-Rising t c now r.sequence rows h.1)
