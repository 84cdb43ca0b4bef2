-- ===== src/Realtime/Route/Cursor.antt =====
-- The cursor of a request is the sequence that the frame of an event gave as its id.
use crmtsi_app.Common.{
  ℕ, zero, suc, ◌+◌, ◌/◌, ◌%◌, ◌^◌, ◌≤◌, ◌<◌, ◌≡◌, refl, ap, ◌∙◌, true, [], ◌∷◌, some, ltb, every,
  is_digit, Text, decimal, decimal-All, digits_onto, All, arith, Bool-cases, inl, inr, ◌++◌, ok,
  codes, any_of, false, Result-cases, ltb→lt,
}
use crmtsi_app.Realtime.Protocol.{Event, event_frame, safe_field, is_break}
use crmtsi_app.Realtime.Route.{number_onto, parse_cursor}

number_onto-digits_onto :
    (fuel n : ℕ) (acc : Text)
    → n < fuel
    → number_onto 0 (digits_onto fuel n acc) ≡ number_onto n acc
unfolding digits_onto number_onto
number_onto-digits_onto zero n acc h = absurd (omega (arith, h))
number_onto-digits_onto (suc fuel) n acc h = elim (Bool-cases (ltb n 10)) [
  | inl small ↦ rw small (ap (λ (k : ℕ). number_onto k acc) (omega arith))
  | inr large ↦ rw large (
      number_onto-digits_onto fuel (n / 10) ((b'0' + n % 10) ∷ acc) (ground (arith, h, large))
      ∙ ap (λ (k : ℕ). number_onto k acc) (omega arith))
]

number_onto-decimal : (n : ℕ) → number_onto 0 (decimal n) ≡ n
unfolding decimal
number_onto-decimal n =
    number_onto-digits_onto (suc n) n [] (omega arith) ∙ (unfold number_onto in refl)

every-digit : (t : Text) → All (λ c. (b'0' ≤ c) × (c ≤ b'9')) t → every is_digit t ≡ true
every-digit [] h = refl
every-digit (c ∷ t) h = ground (arith, h, every-digit t h.1)

parsed :
    (n : ℕ) (t : Text)
    → n < 2 ^ 53
    → every is_digit t ≡ true
    → number_onto 0 t ≡ n
    → parse_cursor (some t) ≡ some n
unfolding parse_cursor
parsed n [] h d e = ap some ((unfold number_onto in refl) ∙ e)
parsed n (c ∷ t) h d e = ground (arith, h, d, e)

parse_cursor-decimal : (n : ℕ) → n < 2 ^ 53 → parse_cursor (some (decimal n)) ≡ some n
parse_cursor-decimal n h =
    parsed n (decimal n) h (every-digit (decimal n) (decimal-All n)) (number_onto-decimal n)

no_break : (t : Text) → All (λ c. (b'0' ≤ c) × (c ≤ b'9')) t → any_of is_break t ≡ false
no_break [] h = refl
no_break (c ∷ t) h = ground (arith, h, no_break t h.1)

event_frame-id :
    (e : Event) (frame : Text)
    → event_frame e ≡ ok frame
    → (e.sequence < 2 ^ 53)
      × ((rest : Text) × (frame ≡ codes "id: " ++ (decimal e.sequence ++ 10 ∷ rest)))
unfolding event_frame
event_frame-id e frame h = elim (Bool-cases (ltb e.sequence (2 ^ 53))) [
  | inr large ↦ absurd (cc (rw large at h))
  | inl safe ↦ elim (Result-cases (safe_field e.event_type)) [
    | inl (code, invalid) ↦ absurd (cc (rw (safe, invalid) at h))
    | inr (kind, valid) ↦ (
      ltb→lt e.sequence (2 ^ 53) safe,
      (
        codes "event: " ++ (kind ++ (10 ∷ (codes "data: " ++ (e.json ++ (10 ∷ 10 ∷ []))))),
        cc (rw (safe, valid) at h),
      ),
    )
  ]
]

-- Every frame begins with a line of a field `id`, and a request whose last event id is the text of
-- that field, up to the end of the line, has the sequence of the frame's event as its cursor.
pub parse_cursor-event_frame :
    (e : Event) (frame : Text)
    → event_frame e ≡ ok frame
    → (id rest : Text) × (frame ≡ codes "id: " ++ (id ++ 10 ∷ rest))
      × (any_of is_break id ≡ false)
      × (parse_cursor (some id) ≡ some e.sequence)
parse_cursor-event_frame e frame h =
    let (safe, (rest, begins)) = event_frame-id e frame h in
    (
      decimal e.sequence,
      rest,
      begins,
      no_break (decimal e.sequence) (decimal-All e.sequence),
      parse_cursor-decimal e.sequence safe,
    )
