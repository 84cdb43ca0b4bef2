-- ===== src/Realtime/Route/Replayed.antt =====
-- What a stream was sent before it was registered.
use mathlib.Core.List.{append-nil, append_assoc}
use crmtsi_app.Common.{
  [], ◌∷◌, ◌++◌, map, ap, String, ℕ, ◌<◌, ◌≡◌, ◌≢◌, ◌⊎◌, refl, sym, ◌∙◌, subst, Bool, true, false,
  ◌||◌, List, Option, none, some, Result, ok, err, str_eq, ltb, leb, length, arith, All, In,
  Bool-cases, Result-cases, inl, inr, Text,
}
use crmtsi_app.Realtime.Protocol.{event_frame}
use crmtsi_app.Realtime.Registry.{Session, connection_count, register}
use crmtsi_app.Realtime.Registry.Order.{Writes}
use crmtsi_app.Realtime.Store.{Row, Store, Replay, live_after, replay_events, current_sequence}
use crmtsi_app.Realtime.Route.{
  Request, Settings, streams, Connections, query_of, parse_cursor, notice, event_of, write_all,
  registered, closed_after, answer_replay, read_events, for_cursor, for_session, sse_route,
}
use crmtsi_app.Realtime.Route.Events.{
  MayRead, replay-readable, replay_complete, replay-unexpired, replay-fresh,
}

-- A stream of a session from a cursor.
pub record Streamed (q : Request) (now : ℕ) (store : Store) (rows : List Row) : Type 0 where
  pub session : Session
  pub cursor : ℕ
  pub authenticated : q.session ≡ some session
  pub allowed : q.allowed ≡ true
  pub parsed : parse_cursor q.last_event_id ≡ some cursor
  pub readable : All (MayRead session cursor now) rows
  pub complete :
      (r : Row)
      → In r store.rows
      → MayRead session cursor now r
      → In r rows ⊎ (100 < length (live_after session.tenant_id cursor now store.rows))
  pub unexpired :
      (r : Row)
      → In r store.rows
      → r.tenant_id ≡ session.tenant_id
      → cursor < r.sequence
      → now < r.expires_at

-- The frames of the rows in their order, behind what was written before.
write_all-frames :
    {Response : Type 0} (settings : Settings Response) (w : Writes settings.stream)
    (rows : List Row) (response written : Response)
    → write_all settings rows response ≡ ok written
    → (frames : List Text) × (map (λ r. event_frame (event_of settings r)) rows ≡ map ok frames)
      × (w.sent written ≡ w.sent response ++ frames)
unfolding write_all
write_all-frames settings w [] response written h =
    ([], refl, ap w.sent (cc h) ∙ sym (append-nil (w.sent response)))
write_all-frames settings w (r ∷ rows) response written h =
    elim (Result-cases (event_frame (event_of settings r))) [
      | inl (e, fails) ↦ absurd (cc (rw (fails, write_all) at h))
      | inr (frame, made) ↦
          let next = (settings.stream.write response frame).0 in
          let (frames, same, sent) =
            write_all-frames settings w rows next written (rw (made, write_all) at h) in
          (
            frame ∷ frames,
            cc (made, same),
            sent
                ∙ ap (λ (l : List Text). l ++ frames) (w.sent-write response frame)
                ∙ append_assoc (w.sent response) (frame ∷ []) frames,
          )
    ]

-- The rows were written to the response, which was then registered.
record IsWritten {Response : Type 0} (settings : Settings Response) (s : Session)
    (response : Response) (cs : Connections settings) (rows : List Row) (written : Response)
    (sent : List Row) (after : Connections settings) : Type 0 where
  pub same : sent ≡ rows
  pub writes : write_all settings rows response ≡ ok written
  pub registers : register settings.stream settings.limits s written cs ≡ ok after

-- Which answers are streams, and what those were sent.
module _ {Response : Type 0} (settings : Settings Response) (s : Session) (response : Response)
    (cs : Connections settings) {rows : List Row} {written : Response} where
  registered-written :
      (sent : List Row) (last : Response)
      → write_all settings sent response ≡ ok last
      → (registered settings s sent cs (ok last)).1 ≡ streams rows written
      → IsWritten settings s response cs rows written sent
          (registered settings s sent cs (ok last)).0
  unfolding registered
  registered-written sent last made h =
      elim (Result-cases (register settings.stream settings.limits s last cs)) [
        | inl (e, fails) ↦ absurd (cc (rw (fails, registered) at h))
        | inr (more, given) ↦
            let same_rows : sent ≡ rows = cc (rw (given, registered) at h) in
            let same_response : last ≡ written = cc (rw (given, registered) at h) in
            record {
              same = same_rows;
              writes =
                  ap (λ (l : List Row). write_all settings l response) (sym same_rows)
                  ∙ made
                  ∙ ap (λ (r : Response). ok r) same_response;
              registers =
                  ap (λ (r : Response). register settings.stream settings.limits s r cs)
                    (sym same_response)
                  ∙ given
                  ∙ (rw (given, registered) refl);
            }
      ]

  threw_streams :
      (sent : List Row) (e : String)
      → (registered settings s sent cs (err e)).1 ≢ streams rows written
  unfolding registered
  threw_streams sent e h = cc h

  registered-streams :
      (sent : List Row)
      → (registered settings s sent cs (write_all settings sent response)).1 ≡ streams rows written
      → IsWritten settings s response cs rows written sent
          (registered settings s sent cs (write_all settings sent response)).0
  registered-streams sent h = elim (Result-cases (write_all settings sent response)) [
    | inl (e, fails) ↦ absurd (threw_streams sent e (rw fails at h))
    | inr (last, made) ↦ rw made (registered-written sent last made (rw made at h))
  ]

  closed_after-streams :
      (current : ℕ) (r : Result Text)
      → closed_after settings current response r ≢ streams rows written
  unfolding closed_after
  closed_after-streams current (err e) h = cc h
  closed_after-streams current (ok frame) h = cc h

  answer_replay-streams :
      (current : ℕ) (replay : Replay)
      → (answer_replay settings s current response cs replay).1 ≡ streams rows written
      → (replay.cursor_expired ≡ false)
        × IsWritten settings s response cs rows written replay.events
            (answer_replay settings s current response cs replay).0
  unfolding answer_replay
  answer_replay-streams current replay h = elim (Bool-cases replay.cursor_expired) [
    | inl expired ↦
        absurd
          (closed_after-streams current (event_frame (notice settings current)) (rw expired at h))
    | inr fresh ↦ (fresh, rw fresh (registered-streams replay.events (rw fresh at h)))
  ]

  read_events-streams :
      (cursor now : ℕ) (first : Result Store) (store : Store)
      → (read_events settings s cursor now first (ok store) response cs).1 ≡ streams rows written
      → ((replay_events now (query_of s cursor) store).cursor_expired ≡ false)
        × IsWritten settings s response cs rows written
            (replay_events now (query_of s cursor) store).events
            (read_events settings s cursor now first (ok store) response cs).0
  unfolding read_events
  read_events-streams cursor now (err e) store h = absurd (cc h)
  read_events-streams cursor now (ok a) store h =
      elim (Bool-cases (ltb (current_sequence s.tenant_id a.rows) cursor)) [
        | inl ahead ↦ absurd (cc (rw ahead at h))
        | inr behind ↦ rw behind (
            answer_replay-streams (current_sequence s.tenant_id a.rows)
              (replay_events now (query_of s cursor) store) (rw behind at h))
      ]

  for_cursor-streams :
      (c : Option ℕ) (now : ℕ) (first second : Result Store)
      → (for_cursor settings s c now first second response cs).1 ≡ streams rows written
      → (cursor : ℕ) × (c ≡ some cursor)
        × (connection_count s cs < settings.max_connections_per_user)
        × ((read_events settings s cursor now first second response cs).1 ≡ streams rows written)
        × ((for_cursor settings s c now first second response cs).0
            ≡ (read_events settings s cursor now first second response cs).0)
  unfolding for_cursor
  for_cursor-streams none now first second h = absurd (cc h)
  for_cursor-streams (some cursor) now first second h =
      elim (Bool-cases (leb settings.max_connections_per_user (connection_count s cs))) [
        | inl full ↦ absurd (cc (rw full at h))
        | inr room ↦ (cursor, refl, ground (arith, room), rw room at h, rw room refl)
      ]

module _ {Response : Type 0} (settings : Settings Response) where
  for_session-streams :
      (o : Option Session) (allowed : Bool) (c : Option ℕ) (now : ℕ) (first second : Result Store)
      (response written : Response) (cs : Connections settings) (rows : List Row)
      → (for_session settings o allowed c now first second response cs).1 ≡ streams rows written
      → (s : Session) × (o ≡ some s)
        × (allowed ≡ true)
        × ((for_cursor settings s c now first second response cs).1 ≡ streams rows written)
        × ((for_session settings o allowed c now first second response cs).0
            ≡ (for_cursor settings s c now first second response cs).0)
  unfolding for_session
  for_session-streams none allowed c now first second response written cs rows h = absurd (cc h)
  for_session-streams (some s) allowed c now first second response written cs rows h =
      elim (Bool-cases (str_eq s.user_id "" || str_eq s.tenant_id "")) [
        | inl absent ↦ absurd (cc (rw absent at h))
        | inr known ↦ elim (Bool-cases allowed) [
          | inl may ↦ (s, refl, may, rw (known, may) at h, rw (known, may) refl)
          | inr may_not ↦ absurd (cc (rw (known, may_not) at h))
        ]
      ]

  -- A stream that is answered is that of a session which may read and is below its quota. To a response
  -- that keeps what is written to it, it is sent the frames of a list of events, one after the other and
  -- nothing else, and the response is then registered for the session. These events are only ones of
  -- the tenant of the session, after its cursor, not expired and for an audience that the session is
  -- in; where at most a hundred live events of the tenant stand after the cursor they are all such
  -- events, and none of the tenant's after the cursor has expired.
  pub sse_route-streams :
      (q : Request) (now : ℕ) (first : Result Store) (store : Store) (response written : Response)
      (cs : Connections settings) (rows : List Row) (w : Writes settings.stream)
      → (sse_route settings q now first (ok store) response cs).1 ≡ streams rows written
      → (t : Streamed q now store rows) × (connection_count t.session cs
          < settings.max_connections_per_user)
        × ((frames : List Text) × (map (λ r. event_frame (event_of settings r)) rows
              ≡ map ok frames)
            × (w.sent written ≡ w.sent response ++ frames))
        × (register settings.stream settings.limits t.session written cs
            ≡ ok (sse_route settings q now first (ok store) response cs).0)
  unfolding sse_route
  sse_route-streams q now first store response written cs rows w h =
      let (s, known, may, cursor_answer, kept) =
        for_session-streams q.session q.allowed (parse_cursor q.last_event_id) now first (ok store)
          response written cs rows h in
      let (cursor, parsed, quota, read, kept') =
        for_cursor-streams settings s response cs (parse_cursor q.last_event_id) now first
          (ok store) cursor_answer in
      let (fresh, done) = read_events-streams settings s response cs cursor now first store read in
      let same = done.same in
      let (live, sent) = replay-fresh s cursor now store fresh in
      (
        record {
          session = s;
          cursor = cursor;
          authenticated = known;
          allowed = may;
          parsed = parsed;
          readable =
              subst (All (MayRead s cursor now)) (sym sent ∙ same)
                (replay-readable s cursor now store);
          complete = λ r m may_read.
              subst
                (λ (l : List Row).
                  In r l ⊎ (100 < length (live_after s.tenant_id cursor now store.rows)))
                (sym sent ∙ same) (replay_complete s cursor now store r m may_read);
          unexpired = replay-unexpired s cursor now store live;
        },
        quota,
        write_all-frames settings w rows response written done.writes,
        done.registers ∙ ap (λ (l : Connections settings). ok l) (sym (kept ∙ kept')),
      )
