-- ===== src/Realtime/Store/Examples.antt =====
-- A store of two tenants, paged by two.
use crmtsi_app.Common.{◌≡◌, refl, List, [], ◌∷◌, none, some, String, codes, keep}
use crmtsi_app.Realtime.Store.{
  Event, Call, appends, prunes, empty_store, current_sequence, prune_expired_events, run,
}

abbrev pub event : String → String → Event
event id tenant_id = record {
  id = id;
  tenant_id = tenant_id;
  event_type = "presence.changed";
  aggregate_kind = "presence";
  aggregate_id = id;
  aggregate_version = 1;
  payload = codes "{}";
  audience = none;
  occurred_at = none;
  expires_at = some 100;
}

abbrev pub calls : List Call
calls =
    appends 0 0 (event "a" "t")
    ∷ appends 0 0 (event "b" "u")
    ∷ appends 0 0 (event "a" "t")
    ∷ appends 0 0 (record (event "c" "t") {
      audience = some (record { team_ids = "sales" ∷ []; capabilities = [] });
    })
    ∷ appends 0 0 (event "d" "t")
    ∷ prunes 50 "t"
    ∷ []

-- The event that repeats an id is refused and uses up a sequence.
sequences : (current_sequence "t" (run calls empty_store).rows) ≡ 5
unfolding current_sequence run keep
sequences = refl

pruned : (prune_expired_events 100 "t" (run calls empty_store)).1 ≡ 3
unfolding prune_expired_events run keep
pruned = refl
