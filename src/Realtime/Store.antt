-- ===== src/Realtime/Store.antt =====
-- modules/realtime/event-store.js: the events that are kept for the connections that come back, in
-- the order of their sequence, the primary key that the table gives them.
pub mod Examples
pub mod Order
pub mod Pages
use crmtsi_app.Common.{
  ℕ, ◌+◌, ◌*◌, String, Bool, true, false, not, ◌&&◌, ◌||◌, List, [], ◌∷◌, ◌++◌, Option, none, some,
  Result, ok, err, str_eq, if◌then◌else◌, ltb, leb, ◌==◌, every, has, any_of, keep, take, length,
  Text,
}
use crmtsi_app.Realtime.Hub.{Audience}

pub record Row : Type 0 where
  pub sequence : ℕ
  pub id : String
  pub tenant_id : String
  pub event_type : String
  pub aggregate_kind : String
  pub aggregate_id : String
  pub aggregate_version : ℕ
  pub payload : Text
  pub audience : Audience
  pub occurred_at : ℕ
  pub expires_at : ℕ

-- An event as it is appended; an audience or a time left out is `none`.
pub record Event : Type 0 where
  pub id : String
  pub tenant_id : String
  pub event_type : String
  pub aggregate_kind : String
  pub aggregate_id : String
  pub aggregate_version : ℕ
  pub payload : Text
  pub audience : Option Audience
  pub occurred_at : Option ℕ
  pub expires_at : Option ℕ

-- The table, and the sequence that the next insert takes, whether it succeeds or not.
pub record Store : Type 0 where
  pub rows : List Row
  pub next : ℕ

abbrev pub empty_store : Store
empty_store = record { rows = []; next = 1 }

abbrev pub event_types : List String
event_types =
    "inbox.message.created" ∷ "inbox.conversation.updated" ∷ "inbox.assignment.changed"
    ∷ "inbox.sla.alert" ∷ "presence.changed" ∷ "system.reconcile-required"
    ∷ "system.permission-revoked" ∷ []

-- The checks and the unique index of the table.
unfoldable pub refused : Event → List Row → Bool
refused e rows = not (has event_types e.event_type) || any_of (λ r. str_eq r.id e.id) rows

abbrev or_else {ℓ} : {A : Type ℓ} → Option A → A → A
or_else none d = d
or_else (some a) d = a

abbrev pub default_retention : ℕ
default_retention = 24 * 60 * 60 * 1000

abbrev retention : ℕ → ℕ
retention ms = if ms == 0 then default_retention else ms

unfoldable pub row_of : ℕ → (now retention_ms : ℕ) → Event → Row
row_of sequence now retention_ms e = record {
  sequence = sequence;
  id = e.id;
  tenant_id = e.tenant_id;
  event_type = e.event_type;
  aggregate_kind = e.aggregate_kind;
  aggregate_id = e.aggregate_id;
  aggregate_version = e.aggregate_version;
  payload = e.payload;
  audience = or_else e.audience (record { team_ids = []; capabilities = [] });
  occurred_at = or_else e.occurred_at now;
  expires_at = or_else e.expires_at (now + retention retention_ms);
}

-- The clock of the program and that of the database are one.
unfoldable pub append_event : (now retention_ms : ℕ) → Event → Store → Store × Result Row
unfolding refused row_of
append_event now retention_ms e s =
    if refused e s.rows then (record s { next = s.next + 1 }, err "the row is refused") else (
      record { rows = s.rows ++ row_of s.next now retention_ms e ∷ []; next = s.next + 1 },
      ok (row_of s.next now retention_ms e),
    )

-- `coalesce(max(sequence), 0)`
unfoldable pub current_sequence : String → List Row → ℕ
current_sequence tenant_id [] = 0
current_sequence tenant_id (r ∷ rows) =
    let rest = current_sequence tenant_id rows in
    if str_eq r.tenant_id tenant_id && ltb rest r.sequence then r.sequence else rest

abbrev pub is_after : String → ℕ → Row → Bool
is_after tenant_id cursor r = str_eq r.tenant_id tenant_id && ltb cursor r.sequence

abbrev pub is_expired : ℕ → Row → Bool
is_expired now r = leb r.expires_at now

-- A subscriber, as far as the audience of an event asks; `none` is no filter.
abbrev pub is_visible : Option Audience → Row → Bool
is_visible none r = true
is_visible (some a) r =
    every (has a.team_ids) r.audience.team_ids
    && every (λ c. has a.capabilities "*" || has a.capabilities c) r.audience.capabilities

-- A limit of 0 is one that is left out.
abbrev pub bounded : ℕ → Bool → ℕ
bounded limit expand =
    let requested : ℕ = if limit == 0 then 100 else limit in
    let most : ℕ = if expand then 10_000 else 1000 in if ltb most requested then most else requested

pub record Query : Type 0 where
  pub tenant_id : String
  pub cursor : ℕ
  pub limit : ℕ
  pub audience : Option Audience
  pub expand : Bool

pub record Replay : Type 0 where
  pub cursor_expired : Bool
  pub current_cursor : ℕ
  pub events : List Row

-- The rows that a replay reads, without its limit.
abbrev pub live_after : String → ℕ → ℕ → List Row → List Row
live_after tenant_id cursor now rows =
    keep (λ r. is_after tenant_id cursor r && not (is_expired now r)) rows

unfoldable pub replay_events : (now : ℕ) → Query → Store → Replay
unfolding current_sequence
replay_events now q s =
    let current = current_sequence q.tenant_id s.rows in
    if any_of (λ r. is_after q.tenant_id q.cursor r && is_expired now r) s.rows
    then record { cursor_expired = true; current_cursor = current; events = [] }
    else record {
      cursor_expired = false;
      current_cursor = current;
      events =
          keep (is_visible q.audience)
            (take (bounded q.limit q.expand) (live_after q.tenant_id q.cursor now s.rows));
    }

abbrev is_pruned : String → ℕ → Row → Bool
is_pruned tenant_id before r = str_eq r.tenant_id tenant_id && is_expired before r

-- The rows that are left, and how many were removed.
unfoldable pub prune_expired_events : (before : ℕ) → String → Store → Store × ℕ
prune_expired_events before tenant_id s = (
  record s { rows = keep (λ r. not (is_pruned tenant_id before r)) s.rows },
  length (keep (is_pruned tenant_id before) s.rows),
)

-- The calls on the store, at the time of each.
pub data Call : Type 0 where
  appends : (now retention_ms : ℕ) → Event → Call
  prunes : (before : ℕ) → String → Call

unfoldable pub step : Call → Store → Store
unfolding append_event prune_expired_events
step (appends now retention_ms e) s = (append_event now retention_ms e s).0
step (prunes before tenant_id) s = (prune_expired_events before tenant_id s).0

unfoldable pub run : List Call → Store → Store
unfolding step
run [] s = s
run (c ∷ calls) s = run calls (step c s)
