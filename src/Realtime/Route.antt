-- ===== src/Realtime/Route.antt =====
-- modules/realtime/routes.js: the request that opens an event stream, and what it writes before the
-- connection is registered.
mod Examples
pub mod Cursor
pub mod Events
pub mod Replayed
use crmtsi_app.Common.{
  ℕ, ◌+◌, ◌-◌, ◌*◌, ◌^◌, String, Bool, true, false, not, ◌&&◌, ◌||◌, List, [], ◌∷◌, ◌++◌, Option,
  none, some, Result, ok, err, str_eq, if◌then◌else◌, ltb, leb, ◌==◌, every, is_digit, Text, codes,
  decimal,
}
use crmtsi_app.Realtime.Hub.{Audience}
use crmtsi_app.Realtime.Protocol
use crmtsi_app.Realtime.Protocol.{event_frame}
use crmtsi_app.Realtime.Registry.{Session, Limits, Connection, Stream, connection_count, register}
use crmtsi_app.Realtime.Store.{Row, Store, Query, Replay, current_sequence, replay_events}

-- `Number` of a text of digits, onto what was read before.
unfoldable pub number_onto : ℕ → Text → ℕ
number_onto n [] = n
number_onto n (c ∷ t) = number_onto (n * 10 + (c - b'0')) t

-- A header that is absent is `none`, and so is an answer of null.
unfoldable pub parse_cursor : Option Text → Option ℕ
unfolding number_onto
parse_cursor none = some 0
parse_cursor (some []) = some 0
parse_cursor (some (c ∷ t)) =
    if every is_digit (c ∷ t) && ltb (number_onto 0 (c ∷ t)) (2 ^ 53)
    then some (number_onto 0 (c ∷ t))
    else none

-- What the request was answered: an error; a stream that is closed after one notice; or a stream, with
-- the events that were written to it, which is registered unless it is thrown.
pub data Answer (Response : Type 0) : Type 0 where
  refused : (status : ℕ) → (code : String) → Answer Response
  reconciles : ℕ → Response → Answer Response
  streams : List Row → Response → Answer Response
  threw : String → Answer Response

-- What the request has: a session, or `none`, and whether it has 'realtime:read'.
pub record Request : Type 0 where
  pub session : Option Session
  pub allowed : Bool
  pub last_event_id : Option Text

-- The settings: `json_of` is the JSON text of the data of an event, `limits` that of the registry.
pub record Settings (Response : Type 0) : Type 0 where
  pub stream : Stream Response
  pub limits : Limits
  pub max_connections_per_user : ℕ
  pub json_of : Row → Text

abbrev pub audience_of : Session → Audience
audience_of s = record { team_ids = s.team_ids; capabilities = s.capabilities }

-- The query of the store; no limit is given.
abbrev pub query_of : Session → ℕ → Query
query_of s cursor = record {
  tenant_id = s.tenant_id;
  cursor = cursor;
  limit = 0;
  audience = some (audience_of s);
  expand = false;
}

module _ {Response : Type 0} (settings : Settings Response) where
  open settings use {stream, limits, max_connections_per_user, json_of}

  abbrev Connections : Type 0
  Connections = List (Connection Response)

  abbrev pub event_of : Row → Protocol.Event
  event_of r = record { sequence = r.sequence; event_type = codes r.event_type; json = json_of r }

  -- The notice that the stream has to be read anew.
  abbrev pub notice : ℕ → Protocol.Event
  notice current = record {
    sequence = current;
    event_type = codes "system.reconcile-required";
    json = codes "{\"cursor\":" ++ (decimal current ++ codes "}");
  }

  -- The writes of the frames, one after the other, until a frame cannot be made.
  unfoldable pub write_all : List Row → Response → Result Response
  write_all [] response = ok response
  write_all (r ∷ rows) response = elim (event_frame (event_of r)) [
    | err e ↦ err e
    | ok frame ↦ write_all rows (stream.write response frame).0
  ]

  unfoldable pub registered :
      Session → List Row → Connections → Result Response → Connections × Answer Response
  registered s rows cs (err e) = (cs, threw e)
  registered s rows cs (ok response) = elim (register stream limits s response cs) [
    | err e ↦ (cs, threw e)
    | ok more ↦ (more, streams rows response)
  ]

  unfoldable pub closed_after : ℕ → Response → Result Text → Answer Response
  closed_after current response (err e) = threw e
  closed_after current response (ok frame) =
      reconciles current (stream.finish (stream.write response frame).0)

  unfoldable pub answer_replay :
      Session → ℕ → Response → Connections → Replay → Connections × Answer Response
  unfolding registered write_all closed_after
  answer_replay s current response cs replay =
      if replay.cursor_expired
      then (cs, closed_after current response (event_frame (notice current)))
      else registered s replay.events cs (write_all replay.events response)

  -- The two reads of the store, each of which may fail.
  unfoldable pub read_events :
      Session
      → ℕ
      → (now : ℕ) → Result Store
      → Result Store
      → Response
      → Connections
      → Connections × Answer Response
  unfolding answer_replay
  read_events s cursor now (err e) second response cs = (cs, refused 503 "EVENT_SOURCE_UNAVAILABLE")
  read_events s cursor now (ok first) second response cs =
      let current = current_sequence s.tenant_id first.rows in
      if ltb current cursor then (cs, refused 409 "CURSOR_INVALID") else elim second [
        | err e ↦ (cs, refused 503 "EVENT_SOURCE_UNAVAILABLE")
        | ok store ↦
            answer_replay s current response cs (replay_events now (query_of s cursor) store)
      ]

  unfoldable pub for_cursor :
      Session
      → Option ℕ
      → (now : ℕ) → Result Store
      → Result Store
      → Response
      → Connections
      → Connections × Answer Response
  unfolding read_events
  for_cursor s none now first second response cs = (cs, refused 409 "CURSOR_INVALID")
  for_cursor s (some cursor) now first second response cs =
      if leb max_connections_per_user (connection_count s cs)
      then (cs, refused 429 "CONNECTION_QUOTA_EXCEEDED")
      else read_events s cursor now first second response cs

  unfoldable pub for_session :
      Option Session
      → Bool
      → Option ℕ
      → (now : ℕ) → Result Store
      → Result Store
      → Response
      → Connections
      → Connections × Answer Response
  unfolding for_cursor
  for_session none allowed cursor now first second response cs =
      (cs, refused 401 "AUTHENTICATION_REQUIRED")
  for_session (some s) allowed cursor now first second response cs =
      if str_eq s.user_id "" || str_eq s.tenant_id ""
      then (cs, refused 401 "AUTHENTICATION_REQUIRED")
      else if not allowed
      then (cs, refused 403 "FORBIDDEN")
      else for_cursor s cursor now first second response cs

  -- `first` and `second` are the store when it is read for its last sequence and for the replay.
  unfoldable pub sse_route :
      Request
      → (now : ℕ) → Result Store
      → Result Store
      → Response
      → Connections
      → Connections × Answer Response
  unfolding for_session
  sse_route q now first second response cs =
      for_session q.session q.allowed (parse_cursor q.last_event_id) now first second response cs
