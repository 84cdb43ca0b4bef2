-- ===== src/Realtime/Hub/Revocation.antt =====
-- A subscriber that may no longer read is cut off by the first event that it may not read.
use crmtsi_app.Common.{
  ℕ, ◌+◌, String, Bool, true, ◌≡◌, refl, sym, ap, ◌∙◌, List, [], ◌∷◌, some, Result, ok, err, arith,
  In, find_first, find_first-some, subst, find_first-none, In-cons_inv, inl, inr,
}
use crmtsi_app.Realtime.Registry.{Session, Limits, Connection, Stream, send_to, entries}
use crmtsi_app.Realtime.Registry.Invariant.{IsQuiet}
use crmtsi_app.Realtime.Registry.Identity.{
  UniqueIds, send_to-inv, send_to-UniqueIds, close-inv, close-registered, close-UniqueIds,
  entries_complete,
}
use crmtsi_app.Realtime.Hub.{
  Published, audience_allows, has_id, publish_one, publish_loop, publish, Round, absent, excluded,
  revoked, sent, threw, publish_one-Round,
}

module _ {Response : Type 0} (stream : Stream Response) (limits : Limits)
    (authorize : Session → Published → Bool) (p : Published) where
  -- Registered connections in the event's audience are authorised.
  abbrev IsCleared : Connection Response → Type 0
  IsCleared c =
      c.registered ≡ true
      → audience_allows c.session p.audience ≡ true
      → authorize c.session p ≡ true

  IsQuiet-IsCleared : {c c' : Connection Response} → IsQuiet c c' → IsCleared c → IsCleared c'
  IsQuiet-IsCleared q h r a =
      subst (λ s. authorize s p ≡ true) (sym q.same_session)
        (h (q.no_more r) (subst (λ s. audience_allows s p.audience ≡ true) q.same_session a))

  -- After a round that does not throw: every connection comes from one before, and those under the
  -- id are cleared.
  record AfterRound (id : ℕ) (cs cs' : List (Connection Response)) : Type 0 where
    unique : UniqueIds cs'
    from :
        (c' : Connection Response) → In c' cs' → (c : Connection Response) × In c cs × IsQuiet c c'
    cleared : (c' : Connection Response) → In c' cs' → c'.id ≡ id → IsCleared c'

  same_AfterRound :
      (id : ℕ) (cs : List (Connection Response))
      → UniqueIds cs
      → ((c : Connection Response) → In c cs → c.id ≡ id → IsCleared c)
      → AfterRound id cs cs
  same_AfterRound id cs u f = record {
    unique = u;
    from = λ c m. (c, m, record { same_id = refl; same_session = refl; no_more = λ r. r });
    cleared = f;
  }

  found_is :
      (id : ℕ) (cs : List (Connection Response)) (c d : Connection Response)
      → UniqueIds cs
      → find_first (has_id stream limits authorize id) cs ≡ some d
      → In c cs
      → c.id ≡ id
      → c ≡ d
  found_is id cs c d u f m e =
      let (at, hit) = find_first-some (has_id stream limits authorize id) cs f in
      u c d m at (ground (arith, hit, e))

  round-AfterRound :
      (id : ℕ) (cs : List (Connection Response)) (n : ℕ)
      → UniqueIds cs
      → (r : List (Connection Response) × Result ℕ) → Round stream limits authorize p id cs r
      → r.1 ≡ ok n
      → AfterRound id cs r.0
  round-AfterRound id cs n u r (absent f) e =
      same_AfterRound id cs u (λ c m same. absurd (ground (arith, find_first-none _ cs f m, same)))
  round-AfterRound id cs n u r (excluded d f b) e = same_AfterRound id cs u (λ c m same reg a.
      absurd (ground (arith, b, a, ap (λ c. c.session) (found_is id cs c d u f m same))))
  round-AfterRound id cs n u r (threw _ _ _ _) e = cc
  round-AfterRound id cs n u r (sent d frame k f a y) e = record {
    unique = send_to-UniqueIds stream limits id frame cs u;
    from = λ c' m. send_to-inv stream limits id frame cs m;
    cleared = λ c' m same.
        let (c, at, q) = send_to-inv stream limits id frame cs m in
        let is_d : c ≡ d = found_is id cs c d u f at (sym q.same_id ∙ same) in
        IsQuiet-IsCleared q
          (λ _ _. subst (λ s. authorize s p ≡ true) (sym (ap (λ c. c.session) is_d)) y);
  }
  round-AfterRound id cs n u r (revoked d frame f a _) e =
      let cs' = (send_to stream limits id frame cs).0 in
      record {
        unique =
            close-UniqueIds stream limits id cs' (send_to-UniqueIds stream limits id frame cs u);
        from = λ c'' m.
            let (c', at', q') = close-inv stream limits id cs' m in
            let (c, at, q) = send_to-inv stream limits id frame cs at' in
            (
              c,
              at,
              record {
                same_id = q'.same_id ∙ q.same_id;
                same_session = q'.same_session ∙ q.same_session;
                no_more = λ r. q.no_more (q'.no_more r);
              },
            );
        cleared = λ c' m same reg.
            absurd (ground (arith, close-registered stream limits id cs' m same, reg));
      }

  -- After the loop.
  record AfterLoop (ids : List ℕ) (cs : List (Connection Response)) (c' : Connection Response)
      : Type 0 where
    origin : Connection Response
    listed : In origin cs
    quiet : IsQuiet origin c'
    cleared : In c'.id ids → IsCleared c'

  combine :
      (id : ℕ) (ids : List ℕ) (cs cs' : List (Connection Response)) (c'' : Connection Response)
      → AfterRound id cs cs'
      → (UniqueIds cs' → AfterLoop ids cs' c'')
      → AfterLoop (id ∷ ids) cs c''
  combine id ids cs cs' c'' r f =
      let l = f r.unique in
      let (c, at, q) = r.from l.origin l.listed in
      record {
        origin = c;
        listed = at;
        quiet = record {
          same_id = l.quiet.same_id ∙ q.same_id;
          same_session = l.quiet.same_session ∙ q.same_session;
          no_more = λ reg. q.no_more (l.quiet.no_more reg);
        };
        cleared = λ m. elim (In-cons_inv m) [
          | inl same ↦
              IsQuiet-IsCleared l.quiet (r.cleared l.origin l.listed (sym l.quiet.same_id ∙ same))
          | inr later ↦ l.cleared later
        ];
      }

  loop-AfterLoop :
      (ids : List ℕ) (m n : ℕ) (cs : List (Connection Response))
      → UniqueIds cs
      → (publish_loop stream limits authorize p ids m cs).1 ≡ ok n
      → (c' : Connection Response) → In c' (publish_loop stream limits authorize p ids m cs).0
      → AfterLoop ids cs c'
  unfolding publish_loop
  loop-AfterLoop [] m n cs u e c' at = record {
    origin = c';
    listed = at;
    quiet = record { same_id = refl; same_session = refl; no_more = λ r. r };
    cleared = λ none_at. elim none_at [ ];
  }
  loop-AfterLoop (id ∷ ids) m n cs u e c' at =
      let cs' = (publish_one stream limits authorize p id cs).0 in
      let round = round-AfterRound id cs in
      (elim (publish_one stream limits authorize p id cs).1
          as (λ r.
            ((publish_one stream limits authorize p id cs).1 ≡ r)
            → let out = elim r as (λ _. List (Connection Response) × Result ℕ) [
              | err x ↦ (cs', err x)
              | ok k ↦ publish_loop stream limits authorize p ids (m + k) cs'
            ] in
              out.1 ≡ ok n → In c' out.0 → AfterLoop (id ∷ ids) cs c') [
                | err x ↦ λ _ bad _. cc
                | ok k ↦ λ fine good here_at.
                    combine id ids cs cs' c'
                      (round k u _ (publish_one-Round stream limits authorize p id cs) fine)
                      (λ v. loop-AfterLoop ids (m + k) n cs' v good c' here_at)
              ])
        refl e at

  -- After a publication that does not throw, every connection of the tenant that is still
  -- registered and in the event's audience belongs to a session that is authorised to read it: the
  -- others have been cut off.
  pub publish_revokes :
      (cs : List (Connection Response)) (tenant_id : String) (n : ℕ) (c' : Connection Response)
      → UniqueIds cs
      → (publish stream limits authorize tenant_id p cs).1 ≡ ok n
      → In c' (publish stream limits authorize tenant_id p cs).0
      → c'.session.tenant_id ≡ tenant_id
      → c'.registered ≡ true
      → audience_allows c'.session p.audience ≡ true
      → authorize c'.session p ≡ true
  unfolding publish
  publish_revokes cs tenant_id n c' u e at tenant reg =
      let l = loop-AfterLoop (entries stream limits tenant_id cs) 0 n cs u e c' at in
      let snapshot =
        entries_complete stream limits tenant_id cs l.listed (l.quiet.no_more reg)
          (ap (λ s. s.tenant_id) (sym l.quiet.same_session) ∙ tenant) in
      l.cleared
        (subst (λ i. In i (entries stream limits tenant_id cs)) (sym l.quiet.same_id) snapshot) reg
