-- ===== src/Realtime/Registry/Quota.antt =====
-- Every call on the registry keeps its quotas and the bounds of its queues.
use crmtsi_app.Common.{
  ℕ, ◌+◌, ◌≤◌, ◌<◌, String, Bool, true, ◌≡◌, refl, ap, sym, subst, List, [], ◌∷◌, ◌++◌, map, arith,
  eq_iff, All, All-map, All-append, All-impl, Text, if_intro, Bool-cases, inl, inr, str_eq,
  if◌then◌else◌, Result, ok, err, length,
}
use crmtsi_app.Realtime.Registry.{
  Session, Limits, Connection, Stream, matches, count, of_user, of_tenant, connection_count,
  tenant_connection_count, send_connection, register, send, new_connection, Call, registers, sends,
  sends_to, closes, drains, hangs_up, step, run, after,
}
use crmtsi_app.Realtime.Registry.Invariant.{
  IsWell, IsQuiet, send_connection-IsWell, flush-IsWell, terminate-IsWell, hang_up-IsWell,
  new_connection-IsWell,
}

module _ {ℓ} {A : Type ℓ} where
  count-concat :
      (p : A → Bool) (xs : List A) (x : A)
      → count p (xs ++ x ∷ []) ≡ count p xs + (if p x then 1 else 0)
  unfolding count
  count-concat p [] x = ground arith
  count-concat p (y ∷ ys) x = ground (arith, count-concat p ys x)

  count-map-le :
      (p : A → Bool) (g : A → A) (xs : List A)
      → All (λ x. p (g x) ≡ true → p x ≡ true) xs
      → count p (map g xs) ≤ count p xs
  unfolding count
  count-map-le p g [] h = omega arith
  count-map-le p g (x ∷ xs) h = ground (arith, h.0, count-map-le p g xs h.1)

module _ {Response : Type 0} (stream : Stream Response) (limits : Limits) where
  pub record IsSafe (cs : List (Connection Response)) : Type 0 where
    pub well : All (IsWell limits) cs
    pub per_user : (s : Session) → connection_count s cs ≤ limits.max_per_user
    pub per_tenant : (t : String) → tenant_connection_count t cs ≤ limits.max_per_tenant

  -- A change of one connection that keeps it well and quiet.
  pub IsKeeping : (Connection Response → Connection Response) → Type 0
  IsKeeping g = (c : Connection Response) → IsWell limits c → IsWell limits (g c) × IsQuiet c (g c)

  of_user-IsQuiet :
      (s : Session) (c c' : Connection Response)
      → IsQuiet c c'
      → of_user s c' ≡ true
      → of_user s c ≡ true
  of_user-IsQuiet s c c' q h = ground (arith, h, q.same_session, q.no_more)

  of_tenant-IsQuiet :
      (t : String) (c c' : Connection Response)
      → IsQuiet c c'
      → of_tenant t c' ≡ true
      → of_tenant t c ≡ true
  of_tenant-IsQuiet t c c' q h = ground (arith, h, q.same_session, q.no_more)

  map-IsSafe :
      (g : Connection Response → Connection Response) (cs : List (Connection Response))
      → IsKeeping g
      → IsSafe cs
      → IsSafe (map g cs)
  unfolding IsKeeping connection_count tenant_connection_count
  map-IsSafe g cs k v = record {
    well = All-map (IsWell limits) g cs (All-impl _ _ (λ c w. (k c w).0) cs v.well);
    per_user = λ s. omega (
      arith,
      v.per_user s,
      count-map-le (of_user s) g cs
          (All-impl _ _ (λ c w. of_user-IsQuiet s c (g c) (k c w).1) cs v.well),
    );
    per_tenant = λ t. omega (
      arith,
      v.per_tenant t,
      count-map-le (of_tenant t) g cs
          (All-impl _ _ (λ c w. of_tenant-IsQuiet t c (g c) (k c w).1) cs v.well),
    );
  }

  -- The listeners' changes, guarded by an id or a test.
  guarded-IsKeeping :
      (test : Connection Response → Bool) (g : Connection Response → Connection Response)
      → IsKeeping g
      → IsKeeping (λ c. if test c then g c else c)
  unfolding IsKeeping
  guarded-IsKeeping test g k c w =
      if_intro (λ d. IsWell limits d × IsQuiet c d) (test c) (g c) c (λ _. k c w)
        (λ _. (w, record { same_id = refl; same_session = refl; no_more = λ r. r }))

  sending-IsKeeping : (frame : Text) → IsKeeping (λ c. (send_connection stream limits c frame).0)
  unfolding IsKeeping
  sending-IsKeeping frame c w = send_connection-IsWell stream limits c frame w

  -- A send is a change of each connection of the user.
  send-eq-map :
      (s : Session) (frame : Text) (cs : List (Connection Response))
      → (send stream limits s frame cs).0
        ≡ map (λ c. if of_user s c then (send_connection stream limits c frame).0 else c) cs
  unfolding send
  send-eq-map s frame [] = refl
  send-eq-map s frame (c ∷ cs) = ground (arith, send-eq-map s frame cs)

  count_congr :
      (p q : Connection Response → Bool) (cs : List (Connection Response))
      → ((c : Connection Response) → p c ≡ q c)
      → count p cs ≡ count q cs
  unfolding count
  count_congr p q [] h = refl
  count_congr p q (c ∷ cs) h = ground (arith, h c, count_congr p q cs h)

  register-ok :
      (session : Session) (response : Response) (cs cs' : List (Connection Response))
      → register stream limits session response cs ≡ ok cs'
      → (connection_count session cs < limits.max_per_user)
        × (tenant_connection_count session.tenant_id cs < limits.max_per_tenant)
        × (cs' ≡ cs ++ new_connection stream limits (length cs) session response ∷ [])
  unfolding register
  register-ok session response cs cs' e = ground arith

  user_count-concat :
      (s session : Session) (id : ℕ) (response : Response) (cs : List (Connection Response))
      → connection_count s cs ≤ limits.max_per_user
      → connection_count session cs < limits.max_per_user
      → connection_count s (cs ++ new_connection stream limits id session response ∷ [])
        ≤ limits.max_per_user
  unfolding connection_count
  user_count-concat s session id response cs h lt = elim (Bool-cases (matches session s)) [
    | inl hit ↦
        let tenant : session.tenant_id ≡ s.tenant_id =
          (eq_iff session.tenant_id s.tenant_id).0 (ground (arith, hit)) in
        let user : session.user_id ≡ s.user_id =
          (eq_iff session.user_id s.user_id).0 (ground (arith, hit)) in
        let same : count (of_user s) cs ≡ count (of_user session) cs =
          count_congr (of_user s) (of_user session) cs (λ c. ground (arith, tenant, user)) in
        ground (
          arith,
          count-concat (of_user s) cs (new_connection stream limits id session response),
          same,
          lt,
        )
    | inr miss ↦ ground (
      arith,
      count-concat (of_user s) cs (new_connection stream limits id session response),
      miss,
      h,
    )
  ]

  tenant_count-concat :
      (t : String) (session : Session) (id : ℕ) (response : Response)
      (cs : List (Connection Response))
      → tenant_connection_count t cs ≤ limits.max_per_tenant
      → tenant_connection_count session.tenant_id cs < limits.max_per_tenant
      → tenant_connection_count t (cs ++ new_connection stream limits id session response ∷ [])
        ≤ limits.max_per_tenant
  unfolding tenant_connection_count
  tenant_count-concat t session id response cs h lt =
      elim (Bool-cases (str_eq session.tenant_id t)) [
        | inl hit ↦
            let same : count (of_tenant t) cs ≡ count (of_tenant session.tenant_id) cs =
              ap (λ u. count (of_tenant u) cs) (sym ((eq_iff session.tenant_id t).0 hit)) in
            ground (
              arith,
              count-concat (of_tenant t) cs (new_connection stream limits id session response),
              same,
              lt,
            )
        | inr miss ↦ ground (
          arith,
          count-concat (of_tenant t) cs (new_connection stream limits id session response),
          miss,
          h,
        )
      ]

  register-IsSafe :
      (session : Session) (response : Response) (cs cs' : List (Connection Response))
      → IsSafe cs
      → register stream limits session response cs ≡ ok cs'
      → IsSafe cs'
  register-IsSafe session response cs cs' v e =
      let (user, tenant, added) = register-ok session response cs cs' e in
      subst IsSafe (sym added) (record {
        well =
            All-append (IsWell limits) cs _ v.well
              (new_connection-IsWell stream limits (length cs) session response, tt);
        per_user = λ s. user_count-concat s session (length cs) response cs (v.per_user s) user;
        per_tenant =
            λ t. tenant_count-concat t session (length cs) response cs (v.per_tenant t) tenant;
      })

  after-IsSafe :
      (cs : List (Connection Response)) (r : Result (List (Connection Response)))
      → IsSafe cs
      → ((cs' : List (Connection Response)) → r ≡ ok cs' → IsSafe cs')
      → IsSafe (after stream limits cs r)
  after-IsSafe cs (ok cs') v f = f cs' refl
  after-IsSafe cs (err e) v f = v

  pub step-IsSafe :
      (c : Call stream limits) (cs : List (Connection Response))
      → IsSafe cs
      → IsSafe (step stream limits c cs)
  unfolding step IsKeeping
  step-IsSafe (registers session response) cs v =
      after-IsSafe cs (register stream limits session response cs) v
        (λ cs' e. register-IsSafe session response cs cs' v e)
  step-IsSafe (sends session frame) cs v =
      rw (send-eq-map session frame cs)
        (map-IsSafe _ cs (guarded-IsKeeping (of_user session) _ (sending-IsKeeping frame)) v)
  step-IsSafe (sends_to id frame) cs v =
      map-IsSafe _ cs (guarded-IsKeeping _ _ (sending-IsKeeping frame)) v
  step-IsSafe (closes id) cs v =
      map-IsSafe _ cs (guarded-IsKeeping _ _ (terminate-IsWell stream limits)) v
  step-IsSafe (drains id) cs v =
      map-IsSafe _ cs (guarded-IsKeeping _ _ (flush-IsWell stream limits)) v
  step-IsSafe (hangs_up id) cs v =
      map-IsSafe _ cs (guarded-IsKeeping _ _ (hang_up-IsWell stream limits)) v

  run-IsSafe :
      (cs : List (Connection Response)) (calls : List (Call stream limits))
      → IsSafe cs
      → IsSafe (run stream limits cs calls)
  unfolding run
  run-IsSafe cs [] v = v
  run-IsSafe cs (c ∷ calls) v = run-IsSafe (step stream limits c cs) calls (step-IsSafe c cs v)

  -- After any calls on an empty registry no user and no tenant has more registered connections than
  -- its quota, no queue holds more frames or bytes than the limits, the bytes are counted exactly,
  -- frames wait only where the response is blocked, and no registered connection is closed.
  pub registry_quotas : (calls : List (Call stream limits)) → IsSafe (run stream limits [] calls)
  registry_quotas calls = run-IsSafe [] calls (record {
    well = tt;
    per_user = λ s. unfold connection_count count in omega arith;
    per_tenant = λ t. unfold tenant_connection_count count in omega arith;
  })
