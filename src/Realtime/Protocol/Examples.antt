-- ===== src/Realtime/Protocol/Examples.antt =====
-- A frame of the event stream.
use crmtsi_app.Common.{◌≡◌, refl, [], ◌∷◌, ◌++◌, err, codes, Text}
use crmtsi_app.Realtime.Protocol.{Event, event_frame}

abbrev assigned : Event
assigned = record { sequence = 12; event_type = codes "conversation.assigned"; json = codes "null" }

abbrev split_type : Event
split_type = record assigned { event_type = codes "a" ++ 10 ∷ codes "id: 7" }

split_is_refused : event_frame split_type ≡ err "field is invalid"
unfolding event_frame
split_is_refused = refl

abbrev frame : Text
frame =
    codes "id: 12"
    ++ 10 ∷ (codes "event: conversation.assigned" ++ 10 ∷ (codes "data: null" ++ 10 ∷ 10 ∷ []))
