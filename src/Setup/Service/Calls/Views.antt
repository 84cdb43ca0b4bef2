-- ===== src/Setup/Service/Calls/Views.antt =====
-- The service as one tenant sees it: its row and its activation in flight.
use crmtsi_app.Common.{
  ◌≡◌, refl, ap, sym, subst, String, false, not, ◌||◌, Option, none, some, List, Result, ok, err,
  str_eq, str_eq_refl, eq_iff, if◌then◌else◌, find_first, arith, Text, Bool-cases, inl, inr,
}
use crmtsi_app.Providers.Endpoint.{Url}
use crmtsi_app.Setup.Validation.{Draft}
use crmtsi_app.Setup.Service.{
  Row, Limits, get_setup, transact, new_row, check_secret, renew_secret, draft_guard, write_draft,
  validation_guard, accept, activation_guard, begin_row, bootstrap, rotate_bootstrap_secret,
  verify_bootstrap_secret, set_draft_config, validate_draft, begin_activation, is_bootstrapped,
}
use crmtsi_app.Setup.Service.Calls.{
  Store, Call, bootstraps, drafts, validates, activates, settles, rotates, Outcome, flight_of,
  takes_off, finish_activation, persist_provider_configs, step,
}
use crmtsi_app.Setup.Service.Calls.Rows.{
  on_row, get_updated, get_other, committed, get_transacted, other_transacted, get_inserted,
  other_inserted, find_landed, find_landed_other, settled, get_settled, other_settled,
}

-- A tenant's row and its activation in flight.
pub record View : Type 0 where
  pub row : Option Row
  pub flight : Option (String × Draft)

abbrev pub view_of : String → Store → View
view_of u s = record { row = get_setup u s.rows; flight = find_first (flight_of u) s.in_flight }

abbrev begun : String → Option Row → Option (String × Draft) → Option (String × Draft)
begun u none f = f
begun u (some r) f = elim (activation_guard r) [
  | err e ↦ f
  | ok _ ↦ elim r.draft_config [ none ↦ f | some d ↦ some (u, d) ]
]

flight_begun :
    (u : String) (rows : List Row) (fs : List (String × Draft))
    → find_first (flight_of u) (takes_off u (begin_activation u rows).1 fs)
      ≡ begun u (get_setup u rows) (find_first (flight_of u) fs)
unfolding begin_activation transact
flight_begun u rows fs = ground (arith, str_eq_refl u)

other_begun :
    (u t : String) (answer : Result Row) (fs : List (String × Draft))
    → str_eq u t ≡ false
    → find_first (flight_of t) (takes_off u answer fs) ≡ find_first (flight_of t) fs
other_begun u t answer fs d = ground (arith, d)

abbrev ended : Outcome → Option (String × Draft) → Option Row → Option Row
ended out none o = o
ended out (some f) o = settled out o

module _ (sha256 : String → String) (parse_url : Text → Option Url) (limits : Limits) where
  -- A call on the view of its tenant.
  abbrev pub local : String → Call → View → View
  local u (bootstraps now secret bootstrap_secret salt expires_at) v = record v {
    row =
        if is_bootstrapped v.row
        then v.row
        else if str_eq secret ""
            || str_eq bootstrap_secret ""
            || not (str_eq secret bootstrap_secret)
        then v.row
        else some (new_row sha256 limits now u secret salt expires_at);
  }
  local u (drafts config) v = record v {
    row = committed (draft_guard parse_url config) (write_draft parse_url config) v.row;
  }
  local u (validates now token) v = record v {
    row = committed (validation_guard limits now) (accept limits now token) v.row;
  }
  local u activates v = record {
    row = committed activation_guard begin_row v.row;
    flight = begun u v.row v.flight;
  }
  local u (settles actor_id ciphertext out) v = record {
    row = ended out v.flight v.row;
    flight = none;
  }
  local u (rotates now actor_id old_secret new_secret salt audited) v = record v {
    row = elim (check_secret sha256 now old_secret v.row) [
      | err e ↦ v.row
      | ok _ ↦ on_row (renew_secret sha256 new_secret salt) v.row
    ];
  }

  -- A call changes the view of its tenant only.
  pub view-local :
      (u : String) (c : Call) (s : Store)
      → view_of u (step sha256 parse_url limits u c s) ≡ local u c (view_of u s)
  unfolding step bootstrap set_draft_config validate_draft begin_activation finish_activation
      persist_provider_configs rotate_bootstrap_secret verify_bootstrap_secret
  view-local u (bootstraps now secret bootstrap_secret salt expires_at) s =
      ground (arith, get_inserted (new_row sha256 limits now u secret salt expires_at) s.rows)
  view-local u (drafts config) s =
      ap (λ o. record { row = o; flight = find_first (flight_of u) s.in_flight })
        (get_transacted u (draft_guard parse_url config) (write_draft parse_url config) (λ r. refl)
          s.rows)
  view-local u (validates now token) s =
      ap (λ o. record { row = o; flight = find_first (flight_of u) s.in_flight })
        (get_transacted u (validation_guard limits now) (accept limits now token) (λ r. refl)
          s.rows)
  view-local u activates s = ground (
    arith,
    get_transacted u activation_guard begin_row (λ r. refl) s.rows,
    flight_begun u s.rows s.in_flight,
  )
  view-local u (settles actor_id ciphertext out) s =
      ground (arith, find_landed u s.in_flight, get_settled u out s.rows)
  view-local u (rotates now actor_id old_secret new_secret salt audited) s =
      ground (arith, get_updated u (renew_secret sha256 new_secret salt) (λ r. refl) s.rows)

  pub view_other :
      (u t : String) (c : Call) (s : Store)
      → str_eq u t ≡ false
      → view_of t (step sha256 parse_url limits u c s) ≡ view_of t s
  unfolding step bootstrap set_draft_config validate_draft begin_activation finish_activation
      persist_provider_configs rotate_bootstrap_secret verify_bootstrap_secret
  view_other u t (bootstraps now secret bootstrap_secret salt expires_at) s d =
      ground (arith, other_inserted (new_row sha256 limits now u secret salt expires_at) t s.rows d)
  view_other u t (drafts config) s d =
      ap (λ o. record { row = o; flight = find_first (flight_of t) s.in_flight })
        (other_transacted u t (draft_guard parse_url config) (write_draft parse_url config)
          (λ r. refl) d s.rows)
  view_other u t (validates now token) s d =
      ap (λ o. record { row = o; flight = find_first (flight_of t) s.in_flight })
        (other_transacted u t (validation_guard limits now) (accept limits now token) (λ r. refl) d
          s.rows)
  view_other u t activates s d = ground (
    arith,
    other_transacted u t activation_guard begin_row (λ r. refl) d s.rows,
    other_begun u t (begin_activation u s.rows).1 s.in_flight d,
  )
  view_other u t (settles actor_id ciphertext out) s d =
      ground (arith, find_landed_other u t s.in_flight d, other_settled u t out s.rows d)
  view_other u t (rotates now actor_id old_secret new_secret salt audited) s d =
      ground (arith, get_other u t (renew_secret sha256 new_secret salt) (λ r. refl) d s.rows)

  -- What every call does to the view of its tenant, and what rest does, a call does to any view.
  pub step_view {ℓ κ} :
      (P : View → View → Type ℓ) (I : View → Type κ)
      → ((u : String) (c : Call) (v : View) → I v → P v (local u c v))
      → ((v : View) → I v → P v v)
      → (u t : String) (c : Call) (s : Store) → I (view_of t s)
      → P (view_of t s) (view_of t (step sha256 parse_url limits u c s))
  step_view P I own rest u t c s h = elim (Bool-cases (str_eq u t)) [
    | inl e ↦
        let same : u ≡ t = (eq_iff u t).0 e in
        subst (λ x. P (view_of x s) (view_of x (step sha256 parse_url limits u c s))) same
          (subst (P (view_of u s)) (sym (view-local u c s))
            (own u c (view_of u s) (subst (λ x. I (view_of x s)) (sym same) h)))
    | inr d ↦ subst (P (view_of t s)) (sym (view_other u t c s d)) (rest (view_of t s) h)
  ]
