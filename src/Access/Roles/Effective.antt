-- ===== src/Access/Roles/Effective.antt =====
-- effectiveRole, can and ensureAuthorized: the role that a user acts in.
use crmtsi_app.Common.{
  ◌≡◌, ◌≢◌, ◌↔◌, ◌⊎◌, inl, inr, refl, sym, subst, String, Bool, true, false, not, ◌&&◌, ◌||◌, List,
  [], ◌∷◌, ◌++◌, some, Result, ok, err, has, str_eq, str_eq_refl, if◌then◌else◌, arith, eq_iff, All,
  Bool-cases,
}
use crmtsi_app.Access.Roles.{
  role_capabilities, capabilities, of_role, is_role, can, add_all, single, effective_role,
  ensure_authorized,
}

add_all-same :
    (r : String) (roles : List String) → All (λ q. q ≡ r) roles → add_all (r ∷ []) roles ≡ r ∷ []
unfolding add_all
add_all-same r [] h = refl
add_all-same r (q ∷ roles) h = ground (arith, h.0, str_eq_refl r, add_all-same r roles h.1)

-- Roles that leave one element were all that element.
add_all-single :
    (r s : String) (seen roles : List String)
    → add_all (s ∷ seen) roles ≡ r ∷ []
    → (seen ≡ []) × (s ≡ r) × All (λ q. q ≡ r) roles
unfolding add_all
add_all-single r s seen [] e = (cc, cc, tt)
add_all-single r s seen (q ∷ roles) e = elim (Bool-cases (has (s ∷ seen) q)) [
  | inl known ↦
      let (none_more, is_r, rest) = add_all-single r s seen roles (ground (arith, e, known)) in
      (none_more, is_r, (same q known none_more is_r, rest))
  | inr new ↦
      let (none_more, _, _) = add_all-single r s (seen ++ q ∷ []) roles (ground (arith, e, new)) in
      absurd (longer seen q none_more)
]
  where
    same : (q : String) → has (s ∷ seen) q ≡ true → seen ≡ [] → s ≡ r → q ≡ r
    same q known none_more is_r =
        let alone : has (s ∷ []) q ≡ true = subst (λ l. has (s ∷ l) q ≡ true) none_more known in
        ground (arith, alone, is_r, eq_iff s q)

    longer : (xs : List String) (x : String) → xs ++ x ∷ [] ≢ []
    longer [] x h = cc
    longer (y ∷ ys) x h = cc

-- What it takes to act in a role: it is one of the known roles, and either no role is assigned and
-- it is the user's own, or roles are assigned and they are all this one.
abbrev pub IsRoleOf : String → List String → String → Type 0
IsRoleOf legacy assigned r =
    (is_role role_capabilities r ≡ true)
    × (((assigned ≡ []) × (legacy ≡ r)) ⊎ ((assigned ≢ []) × All (λ q. q ≡ r) assigned))

single-some :
    (r : String) (l : List String)
    → single l ≡ some r
    → (l ≡ r ∷ []) × (is_role role_capabilities r ≡ true)
single-some r [] e = cc
single-some r (q ∷ []) e = elim (Bool-cases (is_role role_capabilities q)) [
  | inl known ↦ let same : q ≡ r = ground (arith, e, known) in (cc, cc)
  | inr unknown ↦ absurd (ground (arith, e, unknown))
]
single-some r (q ∷ p ∷ l) e = cc

some-single :
    (r : String) (l : List String)
    → l ≡ r ∷ []
    → is_role role_capabilities r ≡ true
    → single l ≡ some r
some-single r l e known = subst (λ k. single k ≡ some r) (sym e) (ground (arith, known))

-- The effective role is `r` exactly if `IsRoleOf` says so: roles that disagree give no role.
effective_role_iff :
    (legacy : String) (assigned : List String) (r : String)
    → (effective_role legacy assigned ≡ some r) ↔ IsRoleOf legacy assigned r
unfolding effective_role add_all
effective_role_iff legacy [] r = (own (Bool-cases (is_role role_capabilities legacy)), given)
  where
    own :
        (is_role role_capabilities legacy ≡ true) ⊎ (is_role role_capabilities legacy ≡ false)
        → effective_role legacy [] ≡ some r
        → IsRoleOf legacy [] r
    own (inl known) e = let same : legacy ≡ r = ground (arith, e, known) in (cc, inl (refl, same))
    own (inr unknown) e = absurd (ground (arith, e, unknown))

    given : IsRoleOf legacy [] r → effective_role legacy [] ≡ some r
    given (known, inl (_, same)) = ground (arith, known, same)
    given (known, inr (some_role, _)) = absurd (some_role refl)
effective_role_iff legacy (q ∷ roles) r = (to, from)
  where
    to : effective_role legacy (q ∷ roles) ≡ some r → IsRoleOf legacy (q ∷ roles) r
    to e =
        let (alone, known) = single-some r (add_all (q ∷ []) roles) e in
        let (_, is_r, rest) = add_all-single r q [] roles alone in
        (known, inr ((λ h. cc), (is_r, rest)))

    from : IsRoleOf legacy (q ∷ roles) r → effective_role legacy (q ∷ roles) ≡ some r
    from (known, inl (no_role, _)) = cc
    from (known, inr (_, (is_r, rest))) =
        some-single r (add_all (q ∷ []) roles)
          (subst (λ s. add_all (s ∷ []) roles ≡ r ∷ []) (sym is_r) (add_all-same r roles rest))
          known

of_role-none :
    (roles : List (String × List String)) (r : String)
    → is_role roles r ≡ false
    → of_role roles r ≡ []
unfolding of_role is_role
of_role-none [] r h = refl
of_role-none ((q, cs) ∷ roles) r h = ground (arith, of_role-none roles r)

has-is_role :
    (roles : List (String × List String)) (r capability : String)
    → has (of_role roles r) capability ≡ true
    → is_role roles r ≡ true
has-is_role roles r capability h = elim (Bool-cases (is_role roles r)) [
  | inl known ↦ known
  | inr unknown ↦
      absurd (ground (arith, subst (λ l. has l capability ≡ true) (of_role-none roles r unknown) h))
]

abbrev guarded : Bool → Bool → Result (Unit {0})
guarded absent allowed = if absent || not allowed then err "forbidden" else ok tt

passes :
    (absent allowed : Bool) → guarded absent allowed ≡ ok tt → (absent ≡ false) × (allowed ≡ true)
passes absent allowed e = ground (arith, e)

both : (p q : Bool) → p && q ≡ true → (p ≡ true) × (q ≡ true)
both p q e = ground (arith, e)

not_empty : (s : String) → str_eq s "" ≡ false → s ≢ ""
not_empty s h e = ground (arith, eq_iff s "")

twice : (p : Bool) → p ≡ true → p && p ≡ true
twice p e = ground (arith, e)

-- A user is authorised only with an id, a known role and a declared capability of that role, which
-- an administrator has as well.
pub ensure_authorized_sound :
    (id role capability : String)
    → ensure_authorized id role capability ≡ ok tt
    → (id ≢ "")
      × (is_role role_capabilities role ≡ true)
      × (has capabilities capability ≡ true)
      × (has (of_role role_capabilities role) capability ≡ true)
      × (can "admin" capability ≡ true)
unfolding ensure_authorized can of_role
ensure_authorized_sound id role capability e =
    let (named, allowed) = passes (str_eq id "") (can role capability) e in
    let (declared, granted) =
      both (has capabilities capability) (has (of_role role_capabilities role) capability)
        allowed in
    (
      (λ h. not_empty id named h),
      has-is_role role_capabilities role capability granted,
      declared,
      granted,
      twice (has capabilities capability) declared,
    )
