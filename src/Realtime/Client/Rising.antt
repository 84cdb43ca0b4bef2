-- ===== src/Realtime/Client/Rising.antt =====
-- Events are handed on once, and those of an aggregate by rising versions.
use crmtsi_app.Common.{
  ℕ, ◌≡◌, ◌≤◌, ◌<◌, ap, ◌∙◌, true, false, Option, none, some, List, [], ◌∷◌, str_eq, str_eq_refl,
  str_eq_sym, eq_iff, has, leb, if_intro, arith, Bool-cases, inl, inr, All, All-impl,
}
use crmtsi_app.Realtime.Client.{
  Aggregate, Event, Message, Handled, Client, start, key_of, known, accept, take_version,
  take_aggregate, take_event, receive, receive_all,
}

-- The handled messages, the last first: each has an id that no one before it has, and a version above
-- those of its aggregate before it.
abbrev pub Rising : List Handled → Type 0
Rising [] = Unit
Rising (h ∷ hs) =
    All (λ g. str_eq g.key h.key ≡ true → g.version < h.version) hs
    × (All (λ g. str_eq g.event_id h.event_id ≡ false) hs × Rising hs)

abbrev IsRecorded : Client → Handled → Type 0
IsRecorded c g =
    (g.version ≤ known g.key c.aggregate_versions) × (has c.seen_event_ids g.event_id ≡ true)

abbrev Inv : Client → Type 0
Inv c = All (IsRecorded c) c.handled × Rising c.handled

module _ (m : Message) (e : Event) (a : Aggregate) (v : ℕ) (c : Client) where
  module _ (new : has c.seen_event_ids e.event_id ≡ false)
      (above : known (key_of a) c.aggregate_versions < v) where
    below : (g : Handled) → IsRecorded c g → str_eq g.key (key_of a) ≡ true → g.version < v
    below g h same =
        let keys = ap (λ k. known k c.aggregate_versions) ((eq_iff g.key (key_of a)).0 same) in
        omega (arith, h.0, keys, above)

    fresh : (g : Handled) → IsRecorded c g → str_eq g.event_id e.event_id ≡ false
    fresh g h = elim (Bool-cases (str_eq g.event_id e.event_id)) [
      | inr other ↦ other
      | inl same ↦ let ids = ap (has c.seen_event_ids) ((eq_iff g.event_id e.event_id).0 same) in cc
    ]

    stays-IsRecorded : (g : Handled) → IsRecorded c g → IsRecorded (accept m e a v c) g
    stays-IsRecorded g h = (
      if_intro (λ n. g.version ≤ n) (str_eq (key_of a) g.key) v (known g.key c.aggregate_versions)
          (λ same. omega (arith, below g h (str_eq_sym g.key (key_of a) ∙ same))) (λ _. h.0),
      ground (arith, h.1),
    )

    accept-Inv : Inv c → Inv (accept m e a v c)
    accept-Inv (recorded, rising) = (
      (
        ground (arith, str_eq_refl (key_of a), str_eq_refl e.event_id),
        All-impl (IsRecorded c) (IsRecorded (accept m e a v c)) stays-IsRecorded c.handled recorded,
      ),
      (
        All-impl (IsRecorded c) (λ g. str_eq g.key (key_of a) ≡ true → g.version < v) below
            c.handled recorded,
        (
          All-impl (IsRecorded c) (λ g. str_eq g.event_id e.event_id ≡ false) fresh c.handled
              recorded,
          rising,
        ),
      ),
    )

receive-Inv : (m : Message) (c : Client) → Inv c → Inv (receive m c)
unfolding receive
receive-Inv m c h = event m.event
  where
    version :
        (e : Event) (a : Aggregate) (v : Option ℕ)
        → has c.seen_event_ids e.event_id ≡ false
        → Inv (take_version m e a v c)
    version e a none new = h
    version e a (some v) new =
        if_intro Inv (leb v (known (key_of a) c.aggregate_versions)) c (accept m e a v c) (λ _. h)
          (λ above. accept-Inv m e a v c new (ground (arith, above)) h)

    aggregate : (e : Event) (a : Option Aggregate) → Inv (take_aggregate m e a c)
    aggregate e none = h
    aggregate e (some a) =
        if_intro Inv (has c.seen_event_ids e.event_id) c (take_version m e a a.version c) (λ _. h)
          (λ new. version e a a.version new)

    event : (o : Option Event) → Inv (take_event m o c)
    event none = h
    event (some e) =
        if_intro Inv (str_eq e.event_id "") c (take_aggregate m e e.aggregate c) (λ _. h)
          (λ _. aggregate e e.aggregate)

receive_all-Inv : (ms : List Message) (c : Client) → Inv c → Inv (receive_all ms c)
unfolding receive_all
receive_all-Inv [] c h = h
receive_all-Inv (m ∷ ms) c h = receive_all-Inv ms (receive m c) (receive-Inv m c h)

-- Whatever messages a new client receives, in whatever order, it hands on no event id twice, and those
-- of an aggregate in the order of rising versions.
pub receive_all-Rising : (ms : List Message) → Rising (receive_all ms start).handled
receive_all-Rising ms = (receive_all-Inv ms start (tt, tt)).1
