-- ===== src/Realtime/Registry/Order.antt =====
-- What one connection writes: the frames it took, in the order in which it took them.
use mathlib.Core.List.{append-nil, append_assoc}
use crmtsi_app.Common.{
  Bool, true, false, ◌≡◌, refl, ap, sym, ◌∙◌, List, [], ◌∷◌, ◌++◌, arith, Text, byte_length, ◌-◌,
  if_intro,
}
use crmtsi_app.Realtime.Registry.{
  Limits, Connection, Stream, flush_queue, flush, enqueue, send_connection,
}
use crmtsi_app.Realtime.Registry.Invariant.{IsWell, send_connection-IsWell, flush-IsWell}

-- What Node documents of a response: it buffers what is written, also when it answers that no more
-- should be written now, and ending it writes nothing.
pub record Writes {Response : Type 0} (stream : Stream Response) : Type 0 where
  pub sent : Response → List Text
  pub sent-write : (r : Response) (f : Text) → sent (stream.write r f).0 ≡ sent r ++ f ∷ []
  pub sent-finish : (r : Response) → sent (stream.finish r) ≡ sent r

-- A frame that is sent to the connection, or the response draining.
pub data Action : Type 0 where
  frame : Text → Action
  drain : Action

module _ {Response : Type 0} (stream : Stream Response) (limits : Limits) where
  taken : Text → Bool → List Text
  taken f true = f ∷ []
  taken f false = []

  -- The connection after the actions, and the frames that it took.
  unfoldable pub play : Connection Response → List Action → Connection Response × List Text
  unfolding taken
  play c [] = (c, [])
  play c (frame f ∷ actions) =
      let (c', ok) = send_connection stream limits c f in
      let (end, rest) = play c' actions in (end, taken f ok ++ rest)
  play c (drain ∷ actions) = play (flush stream limits c) actions

  module _ (w : Writes stream) where
    -- What was written, and what waits.
    abbrev pub stream_of : Connection Response → List Text
    stream_of c = w.sent c.response ++ c.queue

    flush_queue-stream :
        (queue : List Text) (c : Connection Response)
        → stream_of (flush_queue stream limits queue c) ≡ w.sent c.response ++ queue
    unfolding flush_queue
    flush_queue-stream [] c = refl
    flush_queue-stream (f ∷ fs) c =
        let shifted = record c {
          response = (stream.write c.response f).0;
          queue = fs;
          queued_bytes = c.queued_bytes - byte_length f;
        } in
        let moved : w.sent (stream.write c.response f).0 ++ fs ≡ w.sent c.response ++ f ∷ fs =
          ap (λ l. l ++ fs) (w.sent-write c.response f)
          ∙ append_assoc (w.sent c.response) (f ∷ []) fs in
        if_intro (λ d. stream_of d ≡ w.sent c.response ++ f ∷ fs) (stream.write c.response f).1
          (flush_queue stream limits fs shifted) (record shifted { blocked = true })
          (λ _. flush_queue-stream fs shifted ∙ moved) (λ _. moved)

    flush-stream : (c : Connection Response) → stream_of (flush stream limits c) ≡ stream_of c
    unfolding flush
    flush-stream c =
        if_intro (λ d. stream_of d ≡ stream_of c) c.closed c (flush_queue stream limits c.queue c)
          (λ _. refl) (λ _. flush_queue-stream c.queue c)

    send-stream :
        (c : Connection Response) (f : Text)
        → IsWell limits c
        → stream_of (send_connection stream limits c f).0
          ≡ stream_of c ++ taken f (send_connection stream limits c f).1
    unfolding send_connection enqueue taken
    send-stream c f v = ground (
      arith,
      v.waiting,
      w.sent-write c.response f,
      w.sent-finish c.response,
      append-nil (w.sent c.response),
      append-nil (w.sent c.response ++ c.queue),
      append-nil (w.sent c.response ++ f ∷ []),
      append_assoc (w.sent c.response) c.queue (f ∷ []),
    )

    -- From a connection that is within its bounds, through any sends and drains: what was written
    -- and what still waits is what was there before and then, in order, each frame that a send said
    -- it took, and no other.
    pub stream_order :
        (c : Connection Response) (actions : List Action)
        → IsWell limits c
        → stream_of (play c actions).0 ≡ stream_of c ++ (play c actions).1
    unfolding play
    stream_order c [] v = sym (append-nil (stream_of c))
    stream_order c (frame f ∷ actions) v =
        let (c', ok) = send_connection stream limits c f in
        let rest = stream_order c' actions (send_connection-IsWell stream limits c f v).0 in
        rest
        ∙ ap (λ l. l ++ (play c' actions).1) (send-stream c f v)
        ∙ append_assoc (stream_of c) (taken f ok) (play c' actions).1
    stream_order c (drain ∷ actions) v =
        stream_order (flush stream limits c) actions (flush-IsWell stream limits c v).0
        ∙ ap (λ l. l ++ (play (flush stream limits c) actions).1) (flush-stream c)
