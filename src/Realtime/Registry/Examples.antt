-- ===== src/Realtime/Registry/Examples.antt =====
-- Calls on a registry whose responses keep what they are sent and take one frame at a time.
use crmtsi_app.Common.{
  ℕ, ◌≡◌, refl, true, false, List, [], ◌∷◌, ◌++◌, codes, Text, err, arith, byte_length,
}
use crmtsi_app.Realtime.Registry.{
  Session, Limits, Connection, Stream, Call, registers, sends, sends_to, drains, hangs_up, register,
  send_connection, step, run, connection_count, tenant_connection_count, count, on_close, hang_up,
  flush, with_defaults, entries,
}
use crmtsi_app.Realtime.Registry.Invariant.{IsWell, total_bytes}
use crmtsi_app.Realtime.Registry.Quota.{IsSafe, registry_quotas}
use crmtsi_app.Realtime.Registry.Order.{Writes, Action, frame, drain, play, stream_of, stream_order}

abbrev pub stream : Stream (List Text)
stream = record { write = λ r f. (r ++ f ∷ [], false); finish = λ r. r }

abbrev pub limits : Limits
limits = record { max_per_user = 1; max_per_tenant = 2; max_queue_events = 2; max_queue_bytes = 8 }

abbrev pub ann : Session
ann = record {
  tenant_id = "t";
  user_id = "ann";
  team_ids = "sales" ∷ [];
  capabilities = "inbox:read" ∷ [];
}

abbrev pub bob : Session
bob = record ann { user_id = "bob"; team_ids = [] }

defaults : with_defaults (record limits { max_per_user = 0 }) ≡ record limits { max_per_user = 2 }
unfolding with_defaults
defaults = refl

abbrev calls : List (Call stream limits)
calls =
    registers ann []
    ∷ registers ann []
    ∷ registers bob []
    ∷ sends ann (codes "one")
    ∷ sends ann (codes "two")
    ∷ drains 0
    ∷ sends_to 1 (codes "one")
    ∷ hangs_up 1
    ∷ []

second_is_refused :
    register stream limits ann [] (run stream limits [] (registers ann [] ∷ []))
    ≡ err "CONNECTION_QUOTA_EXCEEDED"
unfolding run step register connection_count tenant_connection_count count
second_is_refused = refl

bob_is_left :
    entries stream limits ""
      (run stream limits [] (registers ann [] ∷ registers bob [] ∷ hangs_up 0 ∷ []))
    ≡ 1 ∷ []
unfolding run step register connection_count tenant_connection_count count entries on_close hang_up
bob_is_left = refl

registry_quotas_example : IsSafe stream limits (run stream limits [] calls)
registry_quotas_example = registry_quotas stream limits calls

-- Node's response keeps each frame.
abbrev pub keeping : Writes stream
keeping = record { sent = λ r. r; sent-write = λ r f. refl; sent-finish = λ r. refl }

abbrev pub connection : ℕ → Session → Connection (List Text)
connection id session = record {
  id = id;
  session = session;
  response = [];
  queue = [];
  queued_bytes = 0;
  blocked = false;
  closed = false;
  registered = true;
}

abbrev actions : List Action
actions =
    frame (codes "a")
    ∷ frame (codes "b")
    ∷ frame (codes "c")
    ∷ drain
    ∷ frame (codes "d")
    ∷ frame (codes "e")
    ∷ []

connection-IsWell : IsWell limits (connection 0 ann)
unfolding total_bytes
connection-IsWell = record {
  bytes = refl;
  few = omega arith;
  small = omega arith;
  waiting = λ _. refl;
  live = λ _. refl;
}

frames_taken :
    (play stream limits (connection 0 ann) actions).1
    ≡ codes "a" ∷ codes "b" ∷ codes "c" ∷ codes "d" ∷ []
unfolding play send_connection byte_length flush
frames_taken = refl

stream_order_example :
    stream_of stream limits keeping (play stream limits (connection 0 ann) actions).0
    ≡ (play stream limits (connection 0 ann) actions).1
unfolding play
stream_order_example =
    stream_order stream limits keeping (connection 0 ann) actions connection-IsWell
