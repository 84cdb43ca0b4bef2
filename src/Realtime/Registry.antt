-- ===== src/Realtime/Registry.antt =====
-- modules/realtime/connection-registry.js. A connection object stays in the list when it leaves the
-- `Set`, with `registered` false; its place in the list gives its identity.
pub mod Examples
pub mod Invariant
pub mod Quota
pub mod Identity
pub mod Order
use crmtsi_app.Common.{
  ℕ, ◌+◌, ◌-◌, ◌*◌, String, Bool, true, false, not, ◌&&◌, ◌||◌, List, [], ◌∷◌, ◌++◌, map, Option,
  none, some, Result, ok, err, str_eq, if◌then◌else◌, ltb, leb, ◌==◌, length, Text, byte_length,
  find_first,
}

pub record Session : Type 0 where
  pub tenant_id : String
  pub user_id : String
  pub team_ids : List String
  pub capabilities : List String

pub record Limits : Type 0 where
  pub max_per_user : ℕ
  pub max_per_tenant : ℕ
  pub max_queue_events : ℕ
  pub max_queue_bytes : ℕ

abbrev or_default : ℕ → ℕ → ℕ
or_default n d = if n == 0 then d else n

-- The limits of a registry whose options are given, 0 for an option left out.
pub with_defaults : Limits → Limits
with_defaults o = record {
  max_per_user = or_default o.max_per_user 2;
  max_per_tenant = or_default o.max_per_tenant 100;
  max_queue_events = or_default o.max_queue_events 100;
  max_queue_bytes = or_default o.max_queue_bytes (256 * 1024);
}

pub record Connection (Response : Type 0) : Type 0 where
  pub id : ℕ
  pub session : Session
  pub response : Response
  pub queue : List Text
  pub queued_bytes : ℕ
  pub blocked : Bool
  pub closed : Bool
  pub registered : Bool

-- The response of Node: `write` answers whether more may be written now, `end` closes it.
pub record Stream (Response : Type 0) : Type 0 where
  pub write : Response → Text → Response × Bool
  pub finish : Response → Response

abbrev pub matches : Session → Session → Bool
matches s t = str_eq s.tenant_id t.tenant_id && str_eq s.user_id t.user_id

-- How many elements pass a test.
unfoldable pub count {ℓ} : {A : Type ℓ} → (A → Bool) → List A → ℕ
count p [] = 0
count p (x ∷ xs) = if p x then count p xs + 1 else count p xs

module _ {Response : Type 0} where
  abbrev pub of_user : Session → Connection Response → Bool
  of_user s c = c.registered && matches c.session s

  abbrev pub of_tenant : String → Connection Response → Bool
  of_tenant t c = c.registered && str_eq c.session.tenant_id t

  unfoldable pub connection_count : Session → List (Connection Response) → ℕ
  connection_count s = count (of_user s)

  unfoldable pub tenant_connection_count : String → List (Connection Response) → ℕ
  tenant_connection_count t = count (of_tenant t)

  abbrev pub remove : Connection Response → Connection Response
  remove c = record c { registered = false }

  -- `connection.close`, also what `register` answers.
  pub hang_up : Connection Response → Connection Response
  hang_up c = remove (record c { closed = true })

module _ {Response : Type 0} (stream : Stream Response) (limits : Limits) where
  abbrev terminate : Connection Response → Connection Response
  terminate c = record (remove c) { response = stream.finish c.response }

  -- The loop of `flush`, over the queue that is left.
  flush_queue : List Text → Connection Response → Connection Response
  flush_queue [] c = record c { queue = []; blocked = false }
  flush_queue (frame ∷ frames) c =
      let (response, more) = stream.write c.response frame in
      let shifted = record c {
        response = response;
        queue = frames;
        queued_bytes = c.queued_bytes - byte_length frame;
      } in
      if more then flush_queue frames shifted else record shifted { blocked = true }

  pub flush : Connection Response → Connection Response
  unfolding flush_queue
  flush c = if c.closed then c else flush_queue c.queue c

  enqueue : Connection Response → Text → Connection Response × Bool
  enqueue c frame =
      let bytes = byte_length frame in
      if leb limits.max_queue_events (length c.queue)
        || ltb limits.max_queue_bytes (c.queued_bytes + bytes)
      then (terminate (record c { closed = true }), false)
      else (record c { queue = c.queue ++ frame ∷ []; queued_bytes = c.queued_bytes + bytes }, true)

  unfoldable pub send_connection : Connection Response → Text → Connection Response × Bool
  unfolding enqueue
  send_connection c frame =
      if c.closed
      then (c, false)
      else if c.blocked
      then enqueue c frame
      else let (response, more) = stream.write c.response frame in
        (record c { response = response; blocked = not more }, true)

  abbrev pub Connections : Type 0
  Connections = List (Connection Response)

  abbrev new_connection : ℕ → Session → Response → Connection Response
  new_connection id session response = record {
    id = id;
    session = session;
    response = response;
    queue = [];
    queued_bytes = 0;
    blocked = false;
    closed = false;
    registered = true;
  }

  unfoldable pub register : Session → Response → Connections → Result Connections
  register session response cs =
      if str_eq session.tenant_id "" || str_eq session.user_id ""
      then err "tenantId and userId are required"
      else if leb limits.max_per_user (connection_count session cs)
          || leb limits.max_per_tenant (tenant_connection_count session.tenant_id cs)
      then err "CONNECTION_QUOTA_EXCEEDED"
      else ok (cs ++ new_connection (length cs) session response ∷ [])

  -- Sends to the connections of the user in turn; the answer is whether all took it.
  pub send : Session → Text → Connections → Connections × Bool
  send s frame [] = ([], true)
  send s frame (c ∷ cs) =
      let (rest, all) = send s frame cs in
      let (c', taken) = send_connection c frame in
      if of_user s c then (c' ∷ rest, taken && all) else (c ∷ rest, all)

  -- The connections of a tenant, or all where no tenant is given.
  unfoldable pub entries : String → Connections → List ℕ
  entries t [] = []
  entries t (c ∷ cs) =
      if c.registered && (str_eq t "" || str_eq c.session.tenant_id t)
      then c.id ∷ entries t cs
      else entries t cs

  -- A change of the connection with an id, if it is registered.
  abbrev on_registered :
      (Connection Response → Connection Response) → ℕ → Connection Response → Connection Response
  on_registered f id c = if c.id == id && c.registered then f c else c

  abbrev pub is_registered : ℕ → Connection Response → Bool
  is_registered id c = c.id == id && c.registered

  abbrev answer : Text → Option (Connection Response) → Bool
  answer frame none = false
  answer frame (some c) = (send_connection c frame).1

  unfoldable pub send_to : ℕ → Text → Connections → Connections × Bool
  send_to id frame cs = (
    map (on_registered (λ c. (send_connection c frame).0) id) cs,
    answer frame (find_first (is_registered id) cs),
  )

  unfoldable pub close : ℕ → Connections → Connections
  close id = map (on_registered (λ c. terminate (record c { closed = true })) id)

  -- The listeners of a response, which `remove` takes off.
  pub on_drain : ℕ → Connections → Connections
  on_drain id = map (on_registered flush id)

  pub on_close : ℕ → Connections → Connections
  on_close id = map (λ c. if c.id == id then hang_up c else c)

  -- The calls on a registry; a refused registration leaves it as it was.
  pub data Call : Type 0 where
    registers : Session → Response → Call
    sends : Session → Text → Call
    sends_to : ℕ → Text → Call
    closes drains hangs_up : ℕ → Call

  abbrev after : Connections → Result Connections → Connections
  after cs (ok cs') = cs'
  after cs (err e) = cs

  pub step : Call → Connections → Connections
  unfolding register send send_to close on_drain on_close
  step (registers session response) cs = after cs (register session response cs)
  step (sends session frame) cs = (send session frame cs).0
  step (sends_to id frame) cs = (send_to id frame cs).0
  step (closes id) cs = close id cs
  step (drains id) cs = on_drain id cs
  step (hangs_up id) cs = on_close id cs

  pub run : Connections → List Call → Connections
  run cs [] = cs
  run cs (c ∷ calls) = run (step c cs) calls
