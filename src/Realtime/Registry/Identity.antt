-- ===== src/Realtime/Registry/Identity.antt =====
-- Which connections a call of sendTo or close can change.
use crmtsi_app.Common.{
  ℕ, Bool, true, false, ◌≡◌, ◌≢◌, refl, sym, subst, ap, ◌∙◌, List, map, arith, Text, if◌then◌else◌,
  ◌⊎◌, ◌&&◌, ◌||◌, [], ◌∷◌, String, str_eq, eq_iff, inl, inr, here, there, In, In-map, In-map_inv,
  if_intro, ◌==◌,
}
use crmtsi_app.Realtime.Registry.{
  Limits, Connection, Stream, send_connection, enqueue, send_to, close, entries, on_registered,
  is_registered, terminate,
}
use crmtsi_app.Realtime.Registry.Invariant.{IsQuiet}

module _ {Response : Type 0} where
  abbrev pub UniqueIds : List (Connection Response) → Type 0
  UniqueIds cs = (a b : Connection Response) → In a cs → In b cs → a.id ≡ b.id → a ≡ b

  pub map-UniqueIds :
      (g : Connection Response → Connection Response) (cs : List (Connection Response))
      → ((c : Connection Response) → (g c).id ≡ c.id)
      → UniqueIds cs
      → UniqueIds (map g cs)
  map-UniqueIds g cs same u a b m k e =
      let (a', at_a, ea) = In-map_inv g cs m in
      let (b', at_b, eb) = In-map_inv g cs k in
      let alike : a' ≡ b' =
        u a' b' at_a at_b
          (sym (same a') ∙ sym (ap (λ c. c.id) ea) ∙ e ∙ ap (λ c. c.id) eb ∙ same b') in
      ea ∙ ap g alike ∙ sym eb

module _ {Response : Type 0} (stream : Stream Response) (limits : Limits) where
  send_connection-IsQuiet :
      (c : Connection Response) (f : Text) → IsQuiet c (send_connection stream limits c f).0
  unfolding send_connection enqueue
  send_connection-IsQuiet c f = ground arith

  module _ (g : Connection Response → Connection Response)
      (quiet : (c : Connection Response) → IsQuiet c (g c)) (id : ℕ) where
    on_registered-IsQuiet :
        (c : Connection Response) → IsQuiet c (on_registered stream limits g id c)
    on_registered-IsQuiet c =
        if_intro (IsQuiet c) (c.id == id && c.registered) (g c) c (λ _. quiet c)
          (λ _. record { same_id = refl; same_session = refl; no_more = λ r. r })

    -- What passes by a connection that is not registered under the id.
    pub on_registered-kept :
        (cs : List (Connection Response)) (c : Connection Response)
        → is_registered stream limits id c ≡ false
        → In c cs
        → In c (map (on_registered stream limits g id) cs)
    on_registered-kept cs c e m =
        subst (λ d. In d (map (on_registered stream limits g id) cs)) (rw e)
          (In-map (on_registered stream limits g id) m)

    pub on_registered-UniqueIds :
        (cs : List (Connection Response))
        → UniqueIds cs
        → UniqueIds (map (on_registered stream limits g id) cs)
    on_registered-UniqueIds cs u =
        map-UniqueIds (on_registered stream limits g id) cs (λ c. (on_registered-IsQuiet c).same_id)
          u

    pub on_registered-inv :
        (cs : List (Connection Response)) {c' : Connection Response}
        → In c' (map (on_registered stream limits g id) cs)
        → (c : Connection Response) × In c cs × IsQuiet c c'
    on_registered-inv cs m =
        let (c, at, e) = In-map_inv (on_registered stream limits g id) cs m in
        (c, at, subst (IsQuiet c) (sym e) (on_registered-IsQuiet c))

  pub close-registered :
      (id : ℕ) (cs : List (Connection Response)) {c : Connection Response}
      → In c (close stream limits id cs)
      → c.id ≡ id
      → c.registered ≡ false
  unfolding close
  close-registered id cs m same =
      let g =
        on_registered stream limits (λ c. terminate stream limits (record c { closed = true }))
          id in
      let (d, at, e) = In-map_inv g cs m in ground (arith, e, same)

  terminate-IsQuiet :
      (c : Connection Response) → IsQuiet c (terminate stream limits (record c { closed = true }))
  terminate-IsQuiet c = ground arith

  module _ (id : ℕ) (frame : Text) (cs : List (Connection Response)) where
    pub send_to-kept :
        (c : Connection Response)
        → is_registered stream limits id c ≡ false
        → In c cs
        → In c (send_to stream limits id frame cs).0
    unfolding send_to
    send_to-kept = on_registered-kept _ (λ c. send_connection-IsQuiet c frame) id cs

    pub send_to-UniqueIds : UniqueIds cs → UniqueIds (send_to stream limits id frame cs).0
    unfolding send_to
    send_to-UniqueIds = on_registered-UniqueIds _ (λ c. send_connection-IsQuiet c frame) id cs

    pub send_to-inv :
        {c' : Connection Response}
        → In c' (send_to stream limits id frame cs).0
        → (c : Connection Response) × In c cs × IsQuiet c c'
    unfolding send_to
    send_to-inv = on_registered-inv _ (λ c. send_connection-IsQuiet c frame) id cs

  module _ (id : ℕ) (cs : List (Connection Response)) where
    pub close-kept :
        (c : Connection Response)
        → is_registered stream limits id c ≡ false
        → In c cs
        → In c (close stream limits id cs)
    unfolding close
    close-kept = on_registered-kept _ terminate-IsQuiet id cs

    pub close-UniqueIds : UniqueIds cs → UniqueIds (close stream limits id cs)
    unfolding close
    close-UniqueIds = on_registered-UniqueIds _ terminate-IsQuiet id cs

    pub close-inv :
        {c' : Connection Response}
        → In c' (close stream limits id cs)
        → (c : Connection Response) × In c cs × IsQuiet c c'
    unfolding close
    close-inv = on_registered-inv _ terminate-IsQuiet id cs

In-if_cons :
    (b : Bool) (x : ℕ) (xs : List ℕ) {n : ℕ}
    → In n (if b then x ∷ xs else xs)
    → ((b ≡ true) × (n ≡ x)) ⊎ In n xs
In-if_cons true x xs here = inl (refl, refl)
In-if_cons true x xs (there m) = inr m
In-if_cons false x xs m = inr m

-- A registered connection of the tenant, under the id.
pub record IsEntry {Response : Type 0} (t : String) (cs : List (Connection Response)) (id : ℕ)
    : Type 0 where
  pub connection : Connection Response
  pub listed : In connection cs
  pub same_id : connection.id ≡ id
  pub registered : connection.registered ≡ true
  pub tenant : connection.session.tenant_id ≡ t

module _ {Response : Type 0} (stream : Stream Response) (limits : Limits) where
  -- The snapshot for a tenant holds only registered connections of the tenant.
  pub entries-IsEntry :
      (t : String) (cs : List (Connection Response)) {id : ℕ}
      → t ≢ ""
      → In id (entries stream limits t cs)
      → IsEntry t cs id
  unfolding entries
  entries-IsEntry t [] named m = elim m [ ]
  entries-IsEntry t (c ∷ cs) {id} named m =
      elim (In-if_cons (c.registered && (str_eq t "" || str_eq c.session.tenant_id t)) c.id
        (entries stream limits t cs) m) [
          | inl p ↦ record {
            connection = c;
            listed = here;
            same_id = sym p.1;
            registered = ground (arith, p.0);
            tenant = ground (arith, p.0, eq_iff t "", eq_iff c.session.tenant_id t);
          }
          | inr n ↦
              let e = entries-IsEntry t cs {id = id} named n in
              record {
                connection = e.connection;
                listed = there e.listed;
                same_id = e.same_id;
                registered = e.registered;
                tenant = e.tenant;
              }
        ]

  -- It holds all of them.
  pub entries_complete :
      (t : String) (cs : List (Connection Response)) {c : Connection Response}
      → In c cs
      → c.registered ≡ true
      → c.session.tenant_id ≡ t
      → In c.id (entries stream limits t cs)
  unfolding entries
  entries_complete t [] m r e = elim m [ ]
  entries_complete t (c ∷ cs) here r e =
      let listed : (c.registered && (str_eq t "" || str_eq c.session.tenant_id t)) ≡ true =
        ground (arith, r, e, eq_iff c.session.tenant_id t) in
      rw listed here
  entries_complete t (d ∷ cs) {c} (there m) r e =
      let rest = entries_complete t cs {c = c} m r e in
      if_intro (In c.id) (d.registered && (str_eq t "" || str_eq d.session.tenant_id t))
        (d.id ∷ entries stream limits t cs) (entries stream limits t cs) (λ _. there rest)
        (λ _. rest)
