-- ===== src/Realtime/Registry/Invariant.antt =====
-- The quotas of the registry and the bounds of its queues hold after any calls.
use crmtsi_app.Common.{
  ℕ, ◌+◌, ◌-◌, ◌≤◌, true, false, ◌≡◌, refl, List, [], ◌∷◌, ◌++◌, arith, length, length-append, Text,
  byte_length, if_intro, Bool-cases, inl, inr,
}
use crmtsi_app.Realtime.Registry.{
  Session, Limits, Connection, Stream, hang_up, flush_queue, flush, enqueue, send_connection,
  new_connection, terminate,
}

unfoldable pub total_bytes : List Text → ℕ
total_bytes [] = 0
total_bytes (f ∷ fs) = byte_length f + total_bytes fs

total_bytes-concat :
    (fs : List Text) (f : Text) → total_bytes (fs ++ f ∷ []) ≡ total_bytes fs + byte_length f
unfolding total_bytes
total_bytes-concat [] f = omega arith
total_bytes-concat (g ∷ fs) f = omega (arith, total_bytes-concat fs f)

module _ {Response : Type 0} (limits : Limits) where
  -- A queue within its bounds and its bytes counted right; frames wait only on a blocked response,
  -- and no closed connection is registered.
  pub record IsWell (c : Connection Response) : Type 0 where
    pub bytes : c.queued_bytes ≡ total_bytes c.queue
    pub few : length c.queue ≤ limits.max_queue_events
    pub small : c.queued_bytes ≤ limits.max_queue_bytes
    pub waiting : c.blocked ≡ false → c.queue ≡ []
    pub live : c.registered ≡ true → c.closed ≡ false

-- A change that keeps who the connection is, and registers nothing.
pub record IsQuiet {Response : Type 0} (c c' : Connection Response) : Type 0 where
  pub same_id : c'.id ≡ c.id
  pub same_session : c'.session ≡ c.session
  pub no_more : c'.registered ≡ true → c.registered ≡ true

module _ {Response : Type 0} (stream : Stream Response) (limits : Limits) where
  flush_queue-IsWell :
      (queue : List Text) (c : Connection Response)
      → c.queued_bytes ≡ total_bytes queue
      → length queue ≤ limits.max_queue_events
      → c.queued_bytes ≤ limits.max_queue_bytes
      → (c.registered ≡ true → c.closed ≡ false)
      → IsWell limits (flush_queue stream limits queue c)
        × IsQuiet c (flush_queue stream limits queue c)
  unfolding flush_queue total_bytes
  flush_queue-IsWell [] c bytes few small live = (
    record { bytes = bytes; few = few; small = small; waiting = λ _. refl; live = live },
    record { same_id = refl; same_session = refl; no_more = λ r. r },
  )
  flush_queue-IsWell (f ∷ fs) c bytes few small live =
      let shifted = record c {
        response = (stream.write c.response f).0;
        queue = fs;
        queued_bytes = c.queued_bytes - byte_length f;
      } in
      let rest =
        flush_queue-IsWell fs shifted (omega (arith, bytes)) (omega (arith, few))
          (omega (arith, small)) live in
      elim (Bool-cases (stream.write c.response f).1) [
        | inl more ↦ rw more (
          rest.0,
          record {
            same_id = rest.1.same_id;
            same_session = rest.1.same_session;
            no_more = rest.1.no_more;
          },
        )
        | inr full ↦ rw full (
          record {
            bytes = omega (arith, bytes);
            few = omega (arith, few);
            small = omega (arith, small);
            waiting = λ e. cc;
            live = live;
          },
          record { same_id = refl; same_session = refl; no_more = λ r. r },
        )
      ]

  enqueue-IsWell :
      (c : Connection Response) (frame : Text)
      → IsWell limits c
      → c.blocked ≡ true
      → IsWell limits (enqueue stream limits c frame).0
        × IsQuiet c (enqueue stream limits c frame).0
  unfolding enqueue
  enqueue-IsWell c frame v b = ground (
    arith,
    v.bytes,
    v.few,
    v.small,
    v.live,
    total_bytes-concat c.queue frame,
    length-append c.queue (frame ∷ []),
  )

  pub send_connection-IsWell :
      (c : Connection Response) (frame : Text)
      → IsWell limits c
      → IsWell limits (send_connection stream limits c frame).0
        × IsQuiet c (send_connection stream limits c frame).0
  unfolding send_connection total_bytes
  send_connection-IsWell c frame v =
      ground (arith, v.bytes, v.few, v.small, v.waiting, v.live, enqueue-IsWell c frame v)

  pub flush-IsWell :
      (c : Connection Response)
      → IsWell limits c
      → IsWell limits (flush stream limits c) × IsQuiet c (flush stream limits c)
  unfolding flush
  flush-IsWell c v =
      if_intro (λ d. IsWell limits d × IsQuiet c d) c.closed c (flush_queue stream limits c.queue c)
        (λ _. (v, record { same_id = refl; same_session = refl; no_more = λ r. r }))
        (λ _. flush_queue-IsWell c.queue c v.bytes v.few v.small v.live)

  pub terminate-IsWell :
      (c : Connection Response)
      → IsWell limits c
      → IsWell limits (terminate stream limits (record c { closed = true }))
        × IsQuiet c (terminate stream limits (record c { closed = true }))
  terminate-IsWell c v = ground (arith, v.bytes, v.few, v.small, v.waiting)

  pub hang_up-IsWell :
      (c : Connection Response)
      → IsWell limits c
      → IsWell limits (hang_up c) × IsQuiet c (hang_up c)
  unfolding hang_up
  hang_up-IsWell c v = ground (arith, v.bytes, v.few, v.small, v.waiting)

  pub new_connection-IsWell :
      (id : ℕ) (s : Session) (r : Response) → IsWell limits (new_connection stream limits id s r)
  unfolding total_bytes
  new_connection-IsWell id s r = ground arith
