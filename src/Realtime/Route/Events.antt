-- ===== src/Realtime/Route/Events.antt =====
-- What a replay holds of the events that a session may be sent.
use crmtsi_app.Common.{
  ℕ, zero, suc, ◌≤◌, ◌<◌, ◌≡◌, ◌⊎◌, refl, sym, ap, subst, Bool, true, false, not, ◌&&◌, List, [],
  ◌∷◌, some, leb, keep, take, any_of, length, arith, eq_iff, All, In, here, there, Bool-cases, inl,
  inr, if_intro, any_of-false,
}
use crmtsi_app.Realtime.Hub.{audience_allows}
use crmtsi_app.Realtime.Registry.{Session}
use crmtsi_app.Realtime.Store.{
  Row, Store, is_after, is_expired, is_visible, live_after, replay_events,
}
use crmtsi_app.Realtime.Route.{audience_of, query_of}

-- The events that a session may be sent.
pub record MayRead (s : Session) (cursor now : ℕ) (r : Row) : Type 0 where
  pub same_tenant : r.tenant_id ≡ s.tenant_id
  pub later : cursor < r.sequence
  pub live : now < r.expires_at
  pub allowed : audience_allows s r.audience ≡ true

In-keep : (p : Row → Bool) {r : Row} (rows : List Row) → In r rows → p r ≡ true → In r (keep p rows)
unfolding keep
In-keep p [] m h = elim m [ ]
In-keep p (x ∷ rows) here h = rw h here
In-keep p {r} (x ∷ rows) (there m) h =
    if_intro (In r) (p x) (x ∷ keep p rows) (keep p rows) (λ _. there (In-keep p rows m h))
      (λ _. In-keep p rows m h)

take-all : (n : ℕ) (rows : List Row) → length rows ≤ n → take n rows ≡ rows
take-all zero [] h = refl
take-all zero (r ∷ rows) h = absurd (omega (arith, h))
take-all (suc n) [] h = refl
take-all (suc n) (r ∷ rows) h = ap (λ (l : List Row). r ∷ l) (take-all n rows (omega arith))

All-take {κ} : (P : Row → Type κ) (n : ℕ) (rows : List Row) → All P rows → All P (take n rows)
All-take P zero rows h = tt
All-take P (suc n) [] h = tt
All-take P (suc n) (r ∷ rows) h = (h.0, All-take P n rows h.1)

-- What a filter keeps passes it, and what held before.
All-keep_both {κ} :
    (P Q : Row → Type κ) (p : Row → Bool) (rows : List Row)
    → ((r : Row) → P r → p r ≡ true → Q r)
    → All P rows
    → All Q (keep p rows)
unfolding keep
All-keep_both P Q p [] f h = tt
All-keep_both P Q p (r ∷ rows) f h =
    if_intro (All Q) (p r) (r ∷ keep p rows) (keep p rows)
      (λ e. (f r h.0 e, All-keep_both P Q p rows f h.1)) (λ _. All-keep_both P Q p rows f h.1)

module _ (s : Session) (cursor now : ℕ) (store : Store) where
  abbrev missed_rows : List Row
  missed_rows = live_after s.tenant_id cursor now store.rows

  abbrev sees : Row → Bool
  sees = is_visible (some (audience_of s))

  MayRead-tests :
      (r : Row)
      → MayRead s cursor now r
      → ((is_after s.tenant_id cursor r && not (is_expired now r)) ≡ true) × (sees r ≡ true)
  unfolding audience_allows
  MayRead-tests r h =
      (ground (arith, h.same_tenant, h.later, h.live, eq_iff r.tenant_id s.tenant_id), h.allowed)

  tests-MayRead :
      (r : Row)
      → (is_after s.tenant_id cursor r && not (is_expired now r)) ≡ true
      → sees r ≡ true
      → MayRead s cursor now r
  unfolding audience_allows
  tests-MayRead r h k = record {
    same_tenant = ground (arith, h, eq_iff r.tenant_id s.tenant_id);
    later = ground (arith, h);
    live = ground (arith, h);
    allowed = k;
  }

  abbrev Passes : Row → Type 0
  Passes r = (is_after s.tenant_id cursor r && not (is_expired now r)) ≡ true

  trivially : (rows : List Row) → All (λ (r : Row). Unit {0}) rows
  trivially [] = tt
  trivially (r ∷ rows) = (tt, trivially rows)

  pub replay-readable : All (MayRead s cursor now) (keep sees (take 100 missed_rows))
  replay-readable =
      All-keep_both Passes (MayRead s cursor now) sees (take 100 missed_rows) tests-MayRead (
        All-take Passes 100 missed_rows (
          All-keep_both (λ (r : Row). Unit {0}) Passes
            (λ r. is_after s.tenant_id cursor r && not (is_expired now r)) store.rows (λ r _ e. e)
            (trivially store.rows)))

  pub replay_complete :
      (r : Row)
      → In r store.rows
      → MayRead s cursor now r
      → In r (keep sees (take 100 missed_rows)) ⊎ (100 < length missed_rows)
  replay_complete r m h =
      let (passes, seen) = MayRead-tests r h in
      elim (Bool-cases (leb (length missed_rows) 100)) [
        | inr many ↦ inr (ground (arith, many))
        | inl few ↦ inl (
            subst (λ (l : List Row). In r (keep sees l))
              (sym (take-all 100 missed_rows (ground (arith, few))))
              (In-keep sees missed_rows
                (In-keep (λ x. is_after s.tenant_id cursor x && not (is_expired now x)) store.rows m
                  passes)
                seen))
      ]

  pub replay-unexpired :
      any_of (λ r. is_after s.tenant_id cursor r && is_expired now r) store.rows ≡ false
      → (r : Row) → In r store.rows
      → r.tenant_id ≡ s.tenant_id
      → cursor < r.sequence
      → now < r.expires_at
  replay-unexpired fresh r m same later = ground (
    arith,
    any_of-false (λ x. is_after s.tenant_id cursor x && is_expired now x) store.rows {a = r} fresh
        m,
    eq_iff r.tenant_id s.tenant_id,
    same,
    later,
  )

  pub replay-fresh :
      (replay_events now (query_of s cursor) store).cursor_expired ≡ false
      → (any_of (λ r. is_after s.tenant_id cursor r && is_expired now r) store.rows ≡ false)
        × ((replay_events now (query_of s cursor) store).events ≡ keep sees (take 100 missed_rows))
  unfolding replay_events
  replay-fresh h =
      elim (Bool-cases
        (any_of (λ r. is_after s.tenant_id cursor r && is_expired now r) store.rows)) [
          | inl gone ↦ absurd (cc (rw gone at h))
          | inr fresh ↦ (fresh, rw fresh refl)
        ]
