-- ===== src/Realtime/Protocol/Lines.antt =====
-- How a frame reads line by line.
use crmtsi_app.Common.{
  ℕ, ◌≡◌, refl, ap, ◌∙◌, Bool, false, List, [], ◌∷◌, ◌++◌, ok, arith, codes, decimal, Text, any_of,
  ◌==◌, if◌then◌else◌, All, IsDigit, decimal-All,
}
use crmtsi_app.Realtime.Protocol.{Event, is_break, event_frame}

push : ℕ → List Text → List Text
push c [] = (c ∷ []) ∷ []
push c (l ∷ ls) = (c ∷ l) ∷ ls

-- The lines of a text, which line feeds part.
pub lines : Text → List Text
unfolding push
lines [] = [] ∷ []
lines (c ∷ s) = let rest = lines s in if c == 10 then [] ∷ rest else push c rest

abbrev pub HasNoBreak : Text → Type 0
HasNoBreak s = any_of is_break s ≡ false

-- A text with no break, a line feed, and a rest.
lines-append : (s rest : Text) → HasNoBreak s → lines (s ++ 10 ∷ rest) ≡ s ∷ lines rest
unfolding lines
lines-append [] rest h = refl
lines-append (c ∷ s) rest h = ground (arith, lines-append s rest)

any_of-append :
    (p : ℕ → Bool) (s t : Text)
    → any_of p s ≡ false
    → any_of p t ≡ false
    → any_of p (s ++ t) ≡ false
any_of-append p [] t h k = k
any_of-append p (c ∷ s) t h k = ground (arith, any_of-append p s t)

digits-HasNoBreak : (s : Text) → All IsDigit s → HasNoBreak s
digits-HasNoBreak [] h = refl
digits-HasNoBreak (c ∷ s) h = ground (arith, digits-HasNoBreak s h.1)

two_empty : lines (10 ∷ []) ≡ [] ∷ [] ∷ []
unfolding lines
two_empty = refl

field_line :
    (name : Text) (value rest : Text)
    → HasNoBreak name
    → HasNoBreak value
    → lines (name ++ value ++ 10 ∷ rest) ≡ (name ++ value) ∷ lines rest
field_line name value rest h k =
    lines-append (name ++ value) rest (any_of-append is_break name value h k)

event_frame-ok :
    (e : Event) (frame : Text)
    → event_frame e ≡ ok frame
    → HasNoBreak e.event_type
      × (frame
          ≡ codes "id: "
            ++ decimal e.sequence
            ++ 10
              ∷ (codes "event: "
                  ++ e.event_type
                  ++ 10 ∷ (codes "data: " ++ e.json ++ 10 ∷ 10 ∷ [])))
unfolding event_frame
event_frame-ok e frame made = ground arith

-- A frame has exactly the lines of its fields: no event type can add a line of its own, and the
-- event ends in an empty line, if the JSON text has no line break (JSON escapes them).
pub event_frame-lines :
    (e : Event) (frame : Text)
    → event_frame e ≡ ok frame
    → HasNoBreak e.json
    → lines frame
      ≡ (codes "id: " ++ decimal e.sequence)
        ∷ (codes "event: " ++ e.event_type)
        ∷ (codes "data: " ++ e.json)
        ∷ []
        ∷ []
        ∷ []
event_frame-lines e frame made plain =
    let (safe, shown) = event_frame-ok e frame made in
    let number = digits-HasNoBreak (decimal e.sequence) (decimal-All e.sequence) in
    let tail = codes "data: " ++ e.json ++ 10 ∷ 10 ∷ [] in
    ap lines shown
    ∙ field_line (codes "id: ") (decimal e.sequence) (codes "event: " ++ e.event_type ++ 10 ∷ tail)
        refl number
    ∙ ap (◌∷◌ (codes "id: " ++ decimal e.sequence)) (
        field_line (codes "event: ") e.event_type tail refl safe
        ∙ ap (◌∷◌ (codes "event: " ++ e.event_type)) (
            field_line (codes "data: ") e.json (10 ∷ []) refl plain
            ∙ ap (◌∷◌ (codes "data: " ++ e.json)) two_empty))
