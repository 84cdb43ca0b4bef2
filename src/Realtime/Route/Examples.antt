-- ===== src/Realtime/Route/Examples.antt =====
-- A request of a session that missed two events.
use crmtsi_app.Common.{
  ◌<◌, ◌≡◌, map, any_of, refl, true, false, List, [], ◌∷◌, ◌++◌, none, some, ok, codes, Text,
  decimal, keep,
}
use crmtsi_app.Realtime.Registry.{connection_count, register, tenant_connection_count, count}
use crmtsi_app.Realtime.Registry.Examples.{stream, limits, ann, keeping}
use crmtsi_app.Realtime.Protocol
use crmtsi_app.Realtime.Protocol.{event_frame, is_break}
use crmtsi_app.Realtime.Store.{Row, Store, empty_store, run, replay_events, current_sequence}
use crmtsi_app.Realtime.Store.Examples.{calls}
use crmtsi_app.Realtime.Route.{Request, Settings, event_of, refused, parse_cursor, sse_route}
use crmtsi_app.Realtime.Route.Cursor.{parse_cursor-event_frame}
use crmtsi_app.Realtime.Route.Replayed.{Streamed, sse_route-streams}

abbrev settings : Settings (List Text)
settings = record {
  stream = stream;
  limits = limits;
  max_connections_per_user = 1;
  json_of = λ r. codes "{}";
}

abbrev request : Request
request = record { session = some ann; allowed = true; last_event_id = some (codes "1") }

abbrev store : Store
store = run calls empty_store

abbrev sent : List Row
sent =
    (replay_events 10
      (record { tenant_id = "t"; cursor = 1; limit = 0; audience = none; expand = false })
      store).events

abbrev written : List Text
written =
    (codes "id: 4"
      ++ 10 ∷ (codes "event: presence.changed" ++ 10 ∷ (codes "data: {}" ++ 10 ∷ 10 ∷ [])))
    ∷ (codes "id: 5"
        ++ 10 ∷ (codes "event: presence.changed" ++ 10 ∷ (codes "data: {}" ++ 10 ∷ 10 ∷ [])))
    ∷ []

sse_route-streams_example :
    (t : Streamed request 10 store sent) × (connection_count {Response = List Text} t.session []
      < 1)
    × ((frames : List Text) × (map (λ r. event_frame (event_of settings r)) sent ≡ map ok frames)
        × (written ≡ frames))
    × (register stream limits t.session written []
        ≡ ok (sse_route settings request 10 (ok store) (ok store) [] []).0)
unfolding sse_route run keep replay_events event_frame decimal register connection_count
    tenant_connection_count count parse_cursor
sse_route-streams_example =
    sse_route-streams settings request 10 (ok store) store [] written [] sent keeping refl

abbrev first_row : Protocol.Event
first_row = record { sequence = 4077; event_type = codes "presence.changed"; json = codes "{}" }

abbrev first_frame : Text
first_frame =
    codes "id: 4077"
    ++ 10 ∷ (codes "event: presence.changed" ++ 10 ∷ (codes "data: {}" ++ 10 ∷ 10 ∷ []))

parse_cursor-event_frame_example :
    (id rest : Text) × (first_frame ≡ codes "id: " ++ (id ++ 10 ∷ rest))
    × (any_of is_break id ≡ false)
    × (parse_cursor (some id) ≡ some 4077)
unfolding event_frame decimal
parse_cursor-event_frame_example = parse_cursor-event_frame first_row first_frame refl

ahead :
    (sse_route settings
      (record request { last_event_id = some (codes "9") })
      10
      (ok store)
      (ok store)
      []
      []).1
    ≡ refused 409 "CURSOR_INVALID"
unfolding sse_route run keep current_sequence parse_cursor connection_count count
ahead = refl
