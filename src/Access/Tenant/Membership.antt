-- ===== src/Access/Tenant/Membership.antt =====
-- resolveTenantContext: a session acts in a tenant only as a member.
use crmtsi_app.Common.{
  ◌≡◌, ◌↔◌, ◌⊎◌, sym, subst, ◌∙◌, ap, true, false, List, [], ◌∷◌, Option, none, some, In, here,
  there, arith, Text, text_eq-eq, text_eq_refl, Bool-cases, inl, inr,
}
use crmtsi_app.Access.Tenant.{
  normalize_tenant_id, is_tenant, allowed, admit, resolve_tenant_context,
}

-- A membership that names the tenant.
abbrev pub IsMember : List Text → Text → Type 0
IsMember memberships t = (m : Text) × In m memberships × (normalize_tenant_id m ≡ some t)

is_tenant-eq : (t : Text) (o : Option Text) → is_tenant t o ≡ true → o ≡ some t
is_tenant-eq t none h = cc
is_tenant-eq t (some u) h = ap some (text_eq-eq u t h)

allowed-IsMember :
    (t : Text) (memberships : List Text) → allowed t memberships ≡ true → IsMember memberships t
unfolding allowed
allowed-IsMember t [] h = cc
allowed-IsMember t (m ∷ ms) h = elim (Bool-cases (is_tenant t (normalize_tenant_id m))) [
  | inl hit ↦ (m, here, is_tenant-eq t (normalize_tenant_id m) hit)
  | inr miss ↦ let (n, at, e) = allowed-IsMember t ms (ground (arith, miss)) in (n, there at, e)
]

IsMember-allowed :
    (t m : Text) (memberships : List Text)
    → In m memberships
    → normalize_tenant_id m ≡ some t
    → allowed t memberships ≡ true
unfolding allowed
IsMember-allowed t m [] at e = elim at [ ]
IsMember-allowed t m (_ ∷ ms) here e =
    let hit : is_tenant t (normalize_tenant_id m) ≡ true =
      subst (λ o. is_tenant t o ≡ true) (sym e) (text_eq_refl t) in
    ground (arith, hit)
IsMember-allowed t m (n ∷ ms) (there at) e = ground (arith, IsMember-allowed t m ms at e)

admit_iff :
    (memberships : List Text) (o : Option Text) (t : Text)
    → (admit memberships o ≡ some t) ↔ ((o ≡ some t) × IsMember memberships t)
admit_iff memberships none t = ((λ h. cc), (λ h. cc))
admit_iff memberships (some a) t = (to (Bool-cases (allowed a memberships)), from)
  where
    to :
        (allowed a memberships ≡ true) ⊎ (allowed a memberships ≡ false)
        → admit memberships (some a) ≡ some t
        → (some a ≡ some t) × IsMember memberships t
    to (inl member) h =
        let same : a ≡ t = ground (arith, member, h) in
        (ap some same, subst (IsMember memberships) same (allowed-IsMember a memberships member))
    to (inr barred) h = absurd (ground (arith, barred, h))

    from : (some a ≡ some t) × IsMember memberships t → admit memberships (some a) ≡ some t
    from (e, (m, at, f)) =
        let member : allowed a memberships ≡ true =
          IsMember-allowed a m memberships at (f ∙ sym e) in
        ground (arith, member, e)

-- A session acts in a tenant exactly if its active tenant and a membership both name it.
pub resolve_tenant_context_iff :
    (active_tenant_id : Text) (memberships : List Text) (t : Text)
    → (resolve_tenant_context active_tenant_id memberships ≡ some t)
      ↔ ((normalize_tenant_id active_tenant_id ≡ some t) × IsMember memberships t)
unfolding resolve_tenant_context
resolve_tenant_context_iff active_tenant_id memberships t =
    admit_iff memberships (normalize_tenant_id active_tenant_id) t
