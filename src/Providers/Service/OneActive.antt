-- ===== src/Providers/Service/OneActive.antt =====
-- At most one configuration of a provider is active.
use crmtsi_app.Common.{
  ℕ, ◌+◌, ◌≡◌, ◌≤◌, refl, subst, String, Bool, true, false, ◌&&◌, List, [], ◌∷◌, ◌++◌, eq_iff,
  if◌then◌else◌, any_of, arith, Bool-cases, inl, inr,
}
use crmtsi_app.Providers.Service.{
  Config, of_provider, is_active, is_dropped, guarded, update_configs,
}

abbrev active_for : (t p : String) → Config → Bool
active_for t p r = of_provider t p r && is_active r.status

abbrev one : Bool → ℕ
one true = 1
one false = 0

-- The active rows of a tenant's provider.
pub active_count : (t p : String) → List Config → ℕ
active_count t p [] = 0
active_count t p (r ∷ rows) = one (active_for t p r) + active_count t p rows

active_count-append :
    (t p : String) (xs ys : List Config)
    → active_count t p (xs ++ ys) ≡ active_count t p xs + active_count t p ys
unfolding active_count
active_count-append t p [] ys = omega arith
active_count-append t p (r ∷ xs) ys = omega (arith, active_count-append t p xs ys)

none_active :
    (t p : String) (xs : List Config) → any_of (active_for t p) xs ≡ false → active_count t p xs ≡ 0
unfolding active_count
none_active t p [] h = refl
none_active t p (r ∷ xs) h = ground (arith, h, none_active t p xs)

fresh_one :
    (t p : String) (old n : Config) (others : List Config)
    → is_dropped old n others ≡ false
    → active_count t p others ≤ 1
    → one (active_for t p n) + active_count t p others ≤ 1
unfolding is_dropped
fresh_one t p old n others d h = elim (Bool-cases (active_for t p n)) [
  | inr e ↦ rw e (omega (arith, h))
  | inl e ↦
      let tenant : n.tenant_id ≡ t = (eq_iff n.tenant_id t).0 (ground (arith, e)) in
      let provider : n.provider ≡ p = (eq_iff n.provider p).0 (ground (arith, e)) in
      let none_there : any_of (active_for n.tenant_id n.provider) others ≡ false =
        ground (arith, d, e) in
      let clear : any_of (active_for t p) others ≡ false =
        subst (λ x. any_of (active_for x p) others ≡ false) tenant
          (subst (λ x. any_of (active_for n.tenant_id x) others ≡ false) provider none_there) in
      rw e (omega (arith, none_active t p others clear))
]

one-guarded :
    (t p : String) (f : Config → Config) (others : List Config) (r : Config)
    → one (active_for t p r) + active_count t p others ≤ 1
    → one (active_for t p (guarded f others r)) + active_count t p others ≤ 1
one-guarded t p f others r h = elim (Bool-cases (is_dropped r (f r) others)) [
  | inl e ↦ rw e h
  | inr e ↦ rw e (fresh_one t p r (f r) others e (omega (arith, h)))
]

one-chosen :
    (t p u q : String) (f : Config → Config) (others : List Config) (r : Config)
    → one (active_for t p r) + active_count t p others ≤ 1
    → one (active_for t p (if of_provider u q r then guarded f others r else r))
        + active_count t p others
      ≤ 1
one-chosen t p u q f others r h = elim (Bool-cases (of_provider u q r)) [
  | inl e ↦ rw e (one-guarded t p f others r h)
  | inr e ↦ rw e h
]

-- An update of a provider's rows, whatever it sets, leaves at most one row of each provider active.
pub update_configs-active_count :
    (t p u q : String) (f : Config → Config) (past rows : List Config)
    → active_count t p (past ++ rows) ≤ 1
    → active_count t p (update_configs u q f past rows) ≤ 1
unfolding update_configs active_count
update_configs-active_count t p u q f past [] h = omega (arith, h, active_count-append t p past [])
update_configs-active_count t p u q f past (r ∷ rows) h =
    let new = if of_provider u q r then guarded f (past ++ rows) r else r in
    let before = active_count-append t p past (r ∷ rows) in
    let others = active_count-append t p past rows in
    let one_of = one-chosen t p u q f (past ++ rows) r (omega (arith, h, before, others)) in
    let front = active_count-append t p past (new ∷ []) in
    let after = active_count-append t p (past ++ new ∷ []) rows in
    update_configs-active_count t p u q f (past ++ new ∷ []) rows
      (omega (arith, one_of, front, after, others))

-- A draft is not active.
pub inserted_draft :
    (t p : String) (rows : List Config) (n : Config)
    → is_active n.status ≡ false
    → active_count t p rows ≤ 1
    → active_count t p (rows ++ n ∷ []) ≤ 1
unfolding active_count
inserted_draft t p rows n e h = ground (arith, e, h, active_count-append t p rows (n ∷ []))

pub none_yet : (t p : String) → active_count t p [] ≤ 1
unfolding active_count
none_yet t p = omega arith
