-- ===== src/Realtime/Hub/Examples.antt =====
-- Publications to three connections, of which one session is not authorised.
use crmtsi_app.Common.{
  ◌≡◌, refl, Bool, true, List, [], ◌∷◌, codes, decimal, ◌++◌, ok, In, here, there, inl, str_eq, not,
  arith, eq_iff, Text,
}
use crmtsi_app.Realtime.Protocol.{event_frame}
use crmtsi_app.Realtime.Registry.{Session, Connection, entries, send_to, close, send_connection}
use crmtsi_app.Realtime.Registry.Examples.{stream, limits, ann, bob, connection}
use crmtsi_app.Realtime.Hub.{
  Published, audience_allows, revocation, publish, publish_loop, publish_one,
}
use crmtsi_app.Realtime.Hub.Isolation.{publish_isolated}
use crmtsi_app.Realtime.Hub.Revocation.{publish_revokes}

-- Bob may no longer read.
abbrev authorize : Session → Published → Bool
authorize session p = not (str_eq session.user_id "bob")

abbrev other : Session
other = record ann { tenant_id = "u" }

abbrev connections : List (Connection (List Text))
connections = connection 0 ann ∷ connection 1 bob ∷ connection 2 other ∷ []

abbrev published : Published
published = record {
  event = record { sequence = 3; event_type = codes "note"; json = codes "null" };
  audience = record { team_ids = []; capabilities = [] };
}

by_place :
    (a b : Connection (List Text)) → In a connections → In b connections → a.id ≡ b.id → a ≡ b
by_place a b here here e = refl
by_place a b here (there here) e = absurd (ground (arith, e))
by_place a b here (there (there here)) e = absurd (ground (arith, e))
by_place a b here (there (there (there k))) e = elim k [ ]
by_place a b (there here) here e = absurd (ground (arith, e))
by_place a b (there here) (there here) e = refl
by_place a b (there here) (there (there here)) e = absurd (ground (arith, e))
by_place a b (there here) (there (there (there k))) e = elim k [ ]
by_place a b (there (there here)) here e = absurd (ground (arith, e))
by_place a b (there (there here)) (there here) e = absurd (ground (arith, e))
by_place a b (there (there here)) (there (there here)) e = refl
by_place a b (there (there here)) (there (there (there k))) e = elim k [ ]
by_place a b (there (there (there m))) k e = elim m [ ]

publish_isolated_example :
    In (connection 2 other) (publish stream limits authorize "t" published connections).0
publish_isolated_example =
    publish_isolated stream limits authorize published "t" connections (connection 2 other)
      (ground (arith, eq_iff "t" "")) by_place (there (there here))
      (inl (ground (arith, eq_iff "u" "t")))

one_delivered : (publish stream limits authorize "t" published connections).1 ≡ ok 1
unfolding publish publish_loop publish_one entries send_to close event_frame audience_allows
    send_connection revocation decimal
one_delivered = refl

-- The connection of ann when the event was written to it.
abbrev told : Connection (List Text)
told =
    (send_connection stream limits (connection 0 ann)
      (codes "id: 3" ++ 10 ∷ (codes "event: note" ++ 10 ∷ (codes "data: null" ++ 10 ∷ 10 ∷ [])))).0

publish_revokes_example : authorize ann published ≡ true
unfolding publish publish_loop publish_one entries send_to close event_frame audience_allows
    send_connection revocation decimal
publish_revokes_example =
    publish_revokes stream limits authorize published connections "t" 1 told by_place refl here refl
      refl refl
