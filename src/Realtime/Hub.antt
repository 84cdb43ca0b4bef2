-- ===== src/Realtime/Hub.antt =====
-- modules/realtime/sse-hub.js: who is sent a published event.
mod Examples
pub mod Isolation
pub mod Revocation
use crmtsi_app.Common.{
  ℕ, ◌+◌, String, Bool, true, false, not, ◌&&◌, ◌||◌, List, [], ◌∷◌, ◌++◌, Option, none, some,
  Result, ok, err, if◌then◌else◌, ◌==◌, every, has, find_first, codes, decimal, Text, ◌≡◌, refl,
  Bool-cases, inl, inr,
}
use crmtsi_app.Realtime.Protocol.{Event, event_frame}
use crmtsi_app.Realtime.Registry.{Session, Limits, Connection, Stream, entries, send_to, close}

pub record Audience : Type 0 where
  pub team_ids : List String
  pub capabilities : List String

unfoldable pub audience_allows : Session → Audience → Bool
audience_allows session audience =
    every (has session.team_ids) audience.team_ids
    && every (λ c. has session.capabilities "*" || has session.capabilities c) audience.capabilities

pub record Published : Type 0 where
  pub event : Event
  pub audience : Audience

-- The notice that a subscriber gets in place of an event that it may not read.
pub revocation : Event → Event
revocation e = record {
  sequence = e.sequence;
  event_type = codes "system.permission-revoked";
  json =
      123
      ∷ 34
      ∷ (codes "eventId"
          ++ (34
              ∷ 58
              ∷ 34
              ∷ (codes "permission-revoked-" ++ (decimal e.sequence ++ 34 ∷ 125 ∷ []))));
}

-- `authorize` is the answer of the hub's policy for 'realtime:read'.
module _ {Response : Type 0} (stream : Stream Response) (limits : Limits)
    (authorize : Session → Published → Bool) where
  abbrev pub has_id : ℕ → Connection Response → Bool
  has_id id c = c.id == id

  revoke : ℕ → List (Connection Response) → Result Text → List (Connection Response) × Result ℕ
  revoke id cs (err e) = (cs, err e)
  revoke id cs (ok frame) = (close stream limits id (send_to stream limits id frame cs).0, ok 0)

  deliver : ℕ → List (Connection Response) → Result Text → List (Connection Response) × Result ℕ
  deliver id cs (err e) = (cs, err e)
  deliver id cs (ok frame) =
      let (cs', sent) = send_to stream limits id frame cs in (cs', ok (if sent then 1 else 0))

  -- One round of the loop, for a connection of the snapshot; a frame that cannot be made is thrown.
  publish_to :
      Published
      → ℕ
      → List (Connection Response)
      → Option (Connection Response)
      → List (Connection Response) × Result ℕ
  unfolding revoke deliver
  publish_to p id cs none = (cs, ok 0)
  publish_to p id cs (some c) =
      if not (audience_allows c.session p.audience)
      then (cs, ok 0)
      else if not (authorize c.session p)
      then revoke id cs (event_frame (revocation p.event))
      else deliver id cs (event_frame p.event)

  pub publish_one :
      Published → ℕ → List (Connection Response) → List (Connection Response) × Result ℕ
  unfolding publish_to
  publish_one p id cs = publish_to p id cs (find_first (has_id id) cs)

  -- The loop over the snapshot of connections, with the number delivered.
  pub publish_loop :
      Published → List ℕ → ℕ → List (Connection Response) → List (Connection Response) × Result ℕ
  publish_loop p [] delivered cs = (cs, ok delivered)
  publish_loop p (id ∷ ids) delivered cs =
      let (cs', r) = publish_one p id cs in
      elim r [ err e ↦ (cs', err e) | ok n ↦ publish_loop p ids (delivered + n) cs' ]

  pub publish :
      String → Published → List (Connection Response) → List (Connection Response) × Result ℕ
  publish tenant_id p cs = publish_loop p (entries stream limits tenant_id cs) 0 cs

  -- The effects that a round can have.
  pub data Round (p : Published) (id : ℕ) (cs : List (Connection Response))
      : List (Connection Response) × Result ℕ → Type 0 where
    absent : find_first (has_id id) cs ≡ none → Round p id cs (cs, ok 0)
    excluded :
        (c : Connection Response)
        → find_first (has_id id) cs ≡ some c
        → audience_allows c.session p.audience ≡ false
        → Round p id cs (cs, ok 0)
    revoked :
        (c : Connection Response) (frame : Text)
        → find_first (has_id id) cs ≡ some c
        → audience_allows c.session p.audience ≡ true
        → authorize c.session p ≡ false
        → Round p id cs (close stream limits id (send_to stream limits id frame cs).0, ok 0)
    sent :
        (c : Connection Response) (frame : Text) (n : ℕ)
        → find_first (has_id id) cs ≡ some c
        → audience_allows c.session p.audience ≡ true
        → authorize c.session p ≡ true
        → Round p id cs ((send_to stream limits id frame cs).0, ok n)
    threw :
        (c : Connection Response) (e : String)
        → find_first (has_id id) cs ≡ some c
        → audience_allows c.session p.audience ≡ true
        → Round p id cs (cs, err e)

  revoke-Round :
      (p : Published) (id : ℕ) (cs : List (Connection Response)) (c : Connection Response)
      (r : Result Text)
      → find_first (has_id id) cs ≡ some c
      → audience_allows c.session p.audience ≡ true
      → authorize c.session p ≡ false
      → Round p id cs (revoke id cs r)
  unfolding revoke
  revoke-Round p id cs c (err e) f a d = threw c e f a
  revoke-Round p id cs c (ok frame) f a d = revoked c frame f a d

  deliver-Round :
      (p : Published) (id : ℕ) (cs : List (Connection Response)) (c : Connection Response)
      (r : Result Text)
      → find_first (has_id id) cs ≡ some c
      → audience_allows c.session p.audience ≡ true
      → authorize c.session p ≡ true
      → Round p id cs (deliver id cs r)
  unfolding deliver
  deliver-Round p id cs c (err e) f a d = threw c e f a
  deliver-Round p id cs c (ok frame) f a d = sent c frame _ f a d

  publish_to-Round :
      (p : Published) (id : ℕ) (cs : List (Connection Response)) (o : Option (Connection Response))
      → find_first (has_id id) cs ≡ o
      → Round p id cs (publish_to p id cs o)
  unfolding publish_to
  publish_to-Round p id cs none f = absent f
  publish_to-Round p id cs (some c) f = elim (Bool-cases (audience_allows c.session p.audience)) [
    | inl a ↦ elim (Bool-cases (authorize c.session p)) [
      | inl y ↦ rw (a, y) (deliver-Round p id cs c (event_frame p.event) f a y)
      | inr n ↦ rw (a, n) (revoke-Round p id cs c (event_frame (revocation p.event)) f a n)
    ]
    | inr b ↦ rw b (excluded c f b)
  ]

  pub publish_one-Round :
      (p : Published) (id : ℕ) (cs : List (Connection Response))
      → Round p id cs (publish_one p id cs)
  unfolding publish_one
  publish_one-Round p id cs = publish_to-Round p id cs (find_first (has_id id) cs) refl
