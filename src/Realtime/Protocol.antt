-- ===== src/Realtime/Protocol.antt =====
-- modules/realtime/sse-protocol.js: the frames of the event stream.
mod Examples
pub mod Lines
use crmtsi_app.Common.{
  ℕ, ◌^◌, Bool, true, false, not, ◌||◌, List, [], ◌∷◌, ◌++◌, Result, ok, err, ◌>>=◌, ◌>>◌, require,
  leb, ltb, ◌==◌, codes, decimal, Text, any_of,
}

-- `data` is the JSON text of the event's data.
pub record Event : Type 0 where
  pub sequence : ℕ
  pub event_type : Text
  pub json : Text

-- A carriage return or a line feed.
abbrev pub is_break : ℕ → Bool
is_break c = c == 13 || c == 10

abbrev is_empty : Text → Bool
is_empty [] = true
is_empty (_ ∷ _) = false

pub safe_field : Text → Result Text
safe_field text = do
  require (not (is_empty text || any_of is_break text)) "field is invalid"
  ok text

unfoldable pub event_frame : Event → Result Text
unfolding safe_field
event_frame e = do
  require (ltb e.sequence (2 ^ 53)) "sequence is invalid"
  event_type ← safe_field e.event_type
  ok (
      codes "id: "
      ++ (decimal e.sequence
          ++ (10
              ∷ (codes "event: "
                  ++ (event_type ++ (10 ∷ (codes "data: " ++ (e.json ++ (10 ∷ 10 ∷ [])))))))))

pub heartbeat_frame : Text
heartbeat_frame = codes ": heartbeat" ++ 10 ∷ 10 ∷ []
