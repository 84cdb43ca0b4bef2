-- ===== src/Realtime/Hub/Isolation.antt =====
-- What is published to a tenant does not reach anybody else.
use crmtsi_app.Common.{
  ℕ, ◌+◌, String, Bool, true, false, ◌≡◌, ◌≢◌, sym, ap, ◌∙◌, ◌⊎◌, inl, inr, List, [], ◌∷◌, some,
  Result, ok, err, arith, In, here, there, find_first, find_first-some,
}
use crmtsi_app.Realtime.Registry.{
  Session, Limits, Connection, Stream, send_to, entries, is_registered,
}
use crmtsi_app.Realtime.Registry.Identity.{
  UniqueIds, send_to-kept, send_to-UniqueIds, close-kept, close-UniqueIds, IsEntry, entries-IsEntry,
}
use crmtsi_app.Realtime.Hub.{
  Published, audience_allows, has_id, publish_one, publish_loop, publish, Round, absent, excluded,
  revoked, sent, threw, publish_one-Round,
}

module _ {Response : Type 0} (stream : Stream Response) (limits : Limits)
    (authorize : Session → Published → Bool) (p : Published) where
  -- A connection that a round for the id does not concern.
  abbrev Passed : ℕ → Connection Response → Type 0
  Passed id c =
      (c.id ≢ id) ⊎ (c.registered ≡ false) ⊎ (audience_allows c.session p.audience ≡ false)

  -- If the audience of the connection that is found is allowed, a passed one is not registered
  -- under the id.
  passed :
      (id : ℕ) (cs : List (Connection Response)) (c d : Connection Response)
      → UniqueIds cs
      → In c cs
      → find_first (has_id stream limits authorize id) cs ≡ some d
      → audience_allows d.session p.audience ≡ true
      → Passed id c
      → is_registered stream limits id c ≡ false
  passed id cs c d u m f a h =
      let (at, e) = find_first-some (has_id stream limits authorize id) cs f in
      ground (arith, h, a, e, u c d m at)

  round-kept :
      (id : ℕ) (cs : List (Connection Response)) (c : Connection Response)
      → UniqueIds cs
      → In c cs
      → Passed id c
      → (r : List (Connection Response) × Result ℕ) → Round stream limits authorize p id cs r
      → In c r.0 × UniqueIds r.0
  round-kept id cs c u m h r (absent _) = (m, u)
  round-kept id cs c u m h r (excluded _ _ _) = (m, u)
  round-kept id cs c u m h r (threw _ _ _ _) = (m, u)
  round-kept id cs c u m h r (sent d frame _ f a _) = (
    send_to-kept stream limits id frame cs c (passed id cs c d u m f a h) m,
    send_to-UniqueIds stream limits id frame cs u,
  )
  round-kept id cs c u m h r (revoked d frame f a _) =
      let out = passed id cs c d u m f a h in
      let cs' = (send_to stream limits id frame cs).0 in
      (
        close-kept stream limits id cs' c out (send_to-kept stream limits id frame cs c out m),
        close-UniqueIds stream limits id cs' (send_to-UniqueIds stream limits id frame cs u),
      )

  loop-kept :
      (ids : List ℕ) (n : ℕ) (cs : List (Connection Response)) (c : Connection Response)
      → UniqueIds cs
      → In c cs
      → ((id : ℕ) → In id ids → Passed id c)
      → In c (publish_loop stream limits authorize p ids n cs).0
  unfolding publish_loop
  loop-kept [] n cs c u m h = m
  loop-kept (id ∷ ids) n cs c u m h =
      let cs' = (publish_one stream limits authorize p id cs).0 in
      let kept =
        round-kept id cs c u m (h id here) _ (publish_one-Round stream limits authorize p id cs) in
      elim (publish_one stream limits authorize p id cs).1
        as (λ r.
          In c
            (elim r as (λ _. List (Connection Response) × Result ℕ) [
              | err e ↦ (cs', err e)
              | ok k ↦ publish_loop stream limits authorize p ids (n + k) cs'
            ]).0) [
              | err e ↦ kept.0
              | ok k ↦ loop-kept ids (n + k) cs' c kept.1 kept.0 (λ j at. h j (there at))
            ]

  -- A publication to a named tenant leaves as it was every connection of another tenant, every one
  -- that is no longer registered, and every one whose session is not in the event's audience.
  pub publish_isolated :
      (tenant_id : String) (cs : List (Connection Response)) (c : Connection Response)
      → tenant_id ≢ ""
      → UniqueIds cs
      → In c cs
      → (c.session.tenant_id ≢ tenant_id)
        ⊎ (c.registered ≡ false)
        ⊎ (audience_allows c.session p.audience ≡ false)
      → In c (publish stream limits authorize tenant_id p cs).0
  unfolding publish
  publish_isolated tenant_id cs c named u m outside =
      loop-kept (entries stream limits tenant_id cs) 0 cs c u m not_concerned
    where
      elsewhere : (id : ℕ) → IsEntry tenant_id cs id → c.session.tenant_id ≢ tenant_id → c.id ≢ id
      elsewhere id e far same = far (
          ap (λ d. d.session.tenant_id) (u c e.connection m e.listed (same ∙ sym e.same_id))
          ∙ e.tenant)

      not_concerned : (id : ℕ) → In id (entries stream limits tenant_id cs) → Passed id c
      not_concerned id at = elim outside [
        | inl far ↦ inl (elsewhere id (entries-IsEntry stream limits tenant_id cs named at) far)
        | inr (inl gone) ↦ inr (inl gone)
        | inr (inr barred) ↦ inr (inr barred)
      ]
