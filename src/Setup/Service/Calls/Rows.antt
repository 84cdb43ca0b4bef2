-- ===== src/Setup/Service/Calls/Rows.antt =====
-- What the statements of the service do to the row that is found for a tenant.
use crmtsi_app.Common.{
  ◌≡◌, refl, ap, ◌∙◌, String, true, false, Option, none, some, List, [], ◌∷◌, ◌++◌, Result, ok, err,
  str_eq, str_eq_refl, eq_iff, if◌then◌else◌, find_first, arith, Bool-cases, inl, inr,
}
use crmtsi_app.Setup.Validation.{Draft}
use crmtsi_app.Setup.Service.{Row, get_setup, update_row, transact}
use crmtsi_app.Setup.Service.Calls.{
  Outcome, completes, fails, finish_row, undo_row, flight_of, lands, settle_rows,
}

abbrev pub on_row : (Row → Row) → Option Row → Option Row
on_row f none = none
on_row f (some r) = some (f r)

-- Changes that leave the tenant of a row.
abbrev pub Keeps : (Row → Row) → Type 0
Keeps f = (r : Row) → (f r).tenant_id ≡ r.tenant_id

pub get_updated :
    (u : String) (f : Row → Row)
    → Keeps f
    → (rows : List Row) → get_setup u (update_row u f rows) ≡ on_row f (get_setup u rows)
unfolding get_setup update_row
get_updated u f k [] = refl
get_updated u f k (r ∷ rows) = elim (Bool-cases (str_eq r.tenant_id u)) [
  | inl e ↦
      let same : str_eq (f r).tenant_id u ≡ true = ap (λ x. str_eq x u) (k r) ∙ e in
      rw (e, same) refl
  | inr e ↦ rw (e, e) (get_updated u f k rows)
]

pub get_other :
    (u t : String) (f : Row → Row)
    → Keeps f
    → str_eq u t ≡ false
    → (rows : List Row) → get_setup t (update_row u f rows) ≡ get_setup t rows
unfolding get_setup update_row
get_other u t f k d [] = refl
get_other u t f k d (r ∷ rows) = elim (Bool-cases (str_eq r.tenant_id u)) [
  | inl e ↦
      let same : str_eq r.tenant_id t ≡ false = ground (arith, eq_iff r.tenant_id u, d, e) in
      let kept : str_eq (f r).tenant_id t ≡ false = ap (λ x. str_eq x t) (k r) ∙ same in
      rw (e, same, kept) (get_other u t f k d rows)
  | inr e ↦ rw e (ap (λ x. if str_eq r.tenant_id t then some r else x) (get_other u t f k d rows))
]

-- What a transaction does to the row.
abbrev pub committed : (Row → Result (Unit {0})) → (Row → Row) → Option Row → Option Row
committed guard f none = none
committed guard f (some r) = elim (guard r) [ err e ↦ some r | ok _ ↦ some (f r) ]

pub get_transacted :
    (u : String) (guard : Row → Result (Unit {0})) (f : Row → Row)
    → Keeps f
    → (rows : List Row)
    → get_setup u (transact u guard f rows).0 ≡ committed guard f (get_setup u rows)
unfolding transact
get_transacted u guard f k rows = ground (arith, get_updated u f k rows)

pub other_transacted :
    (u t : String) (guard : Row → Result (Unit {0})) (f : Row → Row)
    → Keeps f
    → str_eq u t ≡ false
    → (rows : List Row) → get_setup t (transact u guard f rows).0 ≡ get_setup t rows
unfolding transact
other_transacted u t guard f k d rows = ground (arith, get_other u t f k d rows)

pub get_inserted :
    (n : Row) (rows : List Row)
    → get_setup n.tenant_id rows ≡ none
    → get_setup n.tenant_id (rows ++ n ∷ []) ≡ some n
unfolding get_setup
get_inserted n [] e = ground (arith, str_eq_refl n.tenant_id)
get_inserted n (r ∷ rows) e = ground (arith, e, get_inserted n rows)

pub other_inserted :
    (n : Row) (t : String) (rows : List Row)
    → str_eq n.tenant_id t ≡ false
    → get_setup t (rows ++ n ∷ []) ≡ get_setup t rows
unfolding get_setup
other_inserted n t [] d = ground (arith, d)
other_inserted n t (r ∷ rows) d =
    ap (λ x. if str_eq r.tenant_id t then some r else x) (other_inserted n t rows d)

pub find_landed :
    (u : String) (fs : List (String × Draft)) → find_first (flight_of u) (lands u fs) ≡ none
unfolding lands
find_landed u [] = refl
find_landed u (g ∷ fs) = ground (arith, find_landed u fs)

pub find_landed_other :
    (u t : String) (fs : List (String × Draft))
    → str_eq u t ≡ false
    → find_first (flight_of t) (lands u fs) ≡ find_first (flight_of t) fs
unfolding lands
find_landed_other u t [] d = refl
find_landed_other u t (g ∷ fs) d = ground (arith, eq_iff g.0 u, d, find_landed_other u t fs d)

abbrev pub settled : Outcome → Option Row → Option Row
settled completes o = on_row finish_row o
settled (fails p e true) o = on_row undo_row o
settled (fails p e false) o = o

pub get_settled :
    (u : String) (out : Outcome) (rows : List Row)
    → get_setup u (settle_rows u out rows) ≡ settled out (get_setup u rows)
unfolding settle_rows
get_settled u completes rows = get_updated u finish_row (λ r. refl) rows
get_settled u (fails p e true) rows = get_updated u undo_row (λ r. refl) rows
get_settled u (fails p e false) rows = refl

pub other_settled :
    (u t : String) (out : Outcome) (rows : List Row)
    → str_eq u t ≡ false
    → get_setup t (settle_rows u out rows) ≡ get_setup t rows
unfolding settle_rows
other_settled u t completes rows d = get_other u t finish_row (λ r. refl) d rows
other_settled u t (fails p e true) rows d = get_other u t undo_row (λ r. refl) d rows
other_settled u t (fails p e false) rows d = refl
