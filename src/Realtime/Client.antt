-- ===== src/Realtime/Client.antt =====
-- public/js/realtime-inbox.js: what the page does with the messages of its event stream.
mod Examples
pub mod Rising
pub mod Paging
use Prim.Native.String
use crmtsi_app.Common.{
  ℕ, String, Bool, true, false, Option, none, some, List, [], ◌∷◌, str_eq, has, leb, if◌then◌else◌,
}

-- A version that is no safe integer, or is negative, is `none`.
pub record Aggregate : Type 0 where
  pub kind : String
  pub id : String
  pub version : Option ℕ

pub record Event : Type 0 where
  pub event_id : String
  pub aggregate : Option Aggregate

-- The types of messages that are told apart.
pub data Kind : Type 0 where
  reconcile_required permission_revoked other : Kind

-- `none` is data that is not JSON.
pub record Message : Type 0 where
  pub event : Option Event
  pub last_event_id : String
  pub kind : Kind

-- A message that was handed on: to `reconcile`, to the closing of the source, or to `applyEvent`.
pub record Handled : Type 0 where
  pub key : String
  pub version : ℕ
  pub event_id : String
  pub kind : Kind

-- The state of the client, with what it handed on, the last first.
pub record Client : Type 0 where
  pub seen_event_ids : List String
  pub aggregate_versions : List (String × ℕ)
  pub cursor : String
  pub connected : Bool
  pub closed : Bool
  pub handled : List Handled

abbrev pub start : Client
start = record {
  seen_event_ids = [];
  aggregate_versions = [];
  cursor = "";
  connected = false;
  closed = false;
  handled = [];
}

abbrev pub key_of : Aggregate → String
key_of a = String.◌++◌ a.kind (String.◌++◌ ":" a.id)

abbrev pub known : String → List (String × ℕ) → ℕ
known key [] = 0
known key ((k, v) ∷ versions) = if str_eq k key then v else known key versions

abbrev closes : Kind → Bool → Bool
closes permission_revoked closed = true
closes _ closed = closed

abbrev accept : Message → Event → Aggregate → ℕ → Client → Client
accept m e a v c = record {
  seen_event_ids = e.event_id ∷ c.seen_event_ids;
  aggregate_versions = (key_of a, v) ∷ c.aggregate_versions;
  cursor = if str_eq m.last_event_id "" then c.cursor else m.last_event_id;
  connected = true;
  closed = closes m.kind c.closed;
  handled =
      (record { key = key_of a; version = v; event_id = e.event_id; kind = m.kind }) ∷ c.handled;
}

abbrev take_version : Message → Event → Aggregate → Option ℕ → Client → Client
take_version m e a none c = c
take_version m e a (some v) c =
    if leb v (known (key_of a) c.aggregate_versions) then c else accept m e a v c

abbrev take_aggregate : Message → Event → Option Aggregate → Client → Client
take_aggregate m e none c = c
take_aggregate m e (some a) c =
    if has c.seen_event_ids e.event_id then c else take_version m e a a.version c

abbrev take_event : Message → Option Event → Client → Client
take_event m none c = c
take_event m (some e) c = if str_eq e.event_id "" then c else take_aggregate m e e.aggregate c

pub receive : Message → Client → Client
receive m c = take_event m m.event c

pub receive_all : List Message → Client → Client
unfolding receive
receive_all [] c = c
receive_all (m ∷ ms) c = receive_all ms (receive m c)
