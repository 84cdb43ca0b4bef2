-- ===== src/Realtime/Client/Paging.antt =====
-- `replayBeyondLimit`: the page reads what it missed, one bounded replay after the other.
use crmtsi_app.Common.{
  ℕ, zero, suc, ◌≤◌, ◌<◌, ◌≡◌, refl, sym, ap, ◌∙◌, subst, String, Bool, false, not, ◌&&◌, List, [],
  ◌∷◌, ◌++◌, map, Option, none, some, if◌then◌else◌, ◌==◌, keep, take, drop, any_of, length, arith,
  Bool-cases, inl, inr, ltb, true, ◌⊎◌,
}
use mathlib.Core.List.{map-append}
use crmtsi_app.Realtime.Hub.{Audience}
use crmtsi_app.Realtime.Store.{
  Row, Store, Query, bounded, is_after, is_expired, is_visible, live_after, replay_events, Call,
  empty_store, run,
}
use crmtsi_app.Realtime.Store.Order.{
  Rising, Rising-keep, last_sequence, keep-last_sequence, live_after-later, expired-later,
  live_after-Rising, run-IsOrdered, last_sequence-le,
}
use crmtsi_app.Realtime.Client.{Client, Message, receive, receive_all}
use crmtsi_app.Realtime.Store.Pages.{
  take-keep, keep_swap, take-drop, drop-all, last_sequence-append, length-drop_pos,
}

-- What `fetchPage` answers.
pub record Page : Type 0 where
  pub events : List Row
  pub has_more : Bool

abbrev pub page_size_of : ℕ → ℕ
page_size_of size = if size == 0 then 1000 else size

-- `message_of` is the message that the page makes of an event, whose data it writes as JSON and
-- reads again. A cursor is the number that its text stands for.
module _ (message_of : Row → Message) where
  -- What a page is taken for; `rest` is the loop from the next cursor.
  pub take_page :
      List Row → Bool → (ℕ → Client → Option (ℕ × Client)) → ℕ → Client → Option (ℕ × Client)
  take_page [] has_more rest cursor c = some (cursor, c)
  take_page (e ∷ es) has_more rest cursor c =
      let taken = receive_all (map message_of (e ∷ es)) c in
      let last = last_sequence cursor (e ∷ es) in
      if not has_more then some (last, taken) else rest last taken

module _ (message_of : Row → Message) (fetch_page : ℕ → ℕ → Page) (replay_page_size : ℕ) where
  -- `none` means that the fuel ran out.
  unfoldable pub replay_beyond_limit : (fuel : ℕ) → ℕ → Client → Option (ℕ × Client)
  unfolding take_page
  replay_beyond_limit zero cursor c = none
  replay_beyond_limit (suc fuel) cursor c =
      let page = fetch_page cursor (page_size_of replay_page_size) in
      take_page message_of page.events page.has_more (replay_beyond_limit fuel) cursor c

receive_all-append :
    (xs ys : List Message) (c : Client)
    → receive_all (xs ++ ys) c ≡ receive_all ys (receive_all xs c)
unfolding receive_all
receive_all-append [] ys c = refl
receive_all-append (m ∷ xs) ys c = receive_all-append xs ys (receive m c)

abbrev pub query : String → Option Audience → Bool → ℕ → ℕ → Query
query t audience expand cursor size = record {
  tenant_id = t;
  cursor = cursor;
  limit = size;
  audience = audience;
  expand = expand;
}

replay-keep :
    (s : Store) (now : ℕ) (q : Query)
    → any_of (λ r. is_after q.tenant_id q.cursor r && is_expired now r) s.rows ≡ false
    → (replay_events now q s).events
      ≡ keep
          (is_visible q.audience)
          (take (bounded q.limit q.expand) (live_after q.tenant_id q.cursor now s.rows))
unfolding replay_events
replay-keep s now q fresh = rw fresh refl

module _ (message_of : Row → Message) where
  -- What a page and the rows after it make together.
  page-rest :
      (n cursor : ℕ) (c : Client) (rows : List Row)
      → let last = last_sequence cursor (take n rows) in
        (last_sequence cursor rows ≡ last_sequence last (drop n rows))
        × (receive_all (map message_of rows) c
            ≡ receive_all
                (map message_of (drop n rows))
                (receive_all (map message_of (take n rows)) c))
  page-rest n cursor c rows = (
    ap (last_sequence cursor) (sym (take-drop n rows))
        ∙ last_sequence-append cursor (take n rows) (drop n rows),
    ap (λ (l : List Row). receive_all (map message_of l) c) (sym (take-drop n rows))
        ∙ ap (λ (l : List Message). receive_all l c)
            (map-append message_of (take n rows) (drop n rows))
        ∙ receive_all-append (map message_of (take n rows)) (map message_of (drop n rows)) c,
  )

  -- What the loop answers for rows that are missed.
  abbrev answer_for : ℕ → Client → List Row → Option (ℕ × Client)
  answer_for cursor c rows = some (last_sequence cursor rows, receive_all (map message_of rows) c)

  page-answer_for :
      (n cursor : ℕ) (c : Client) (rows : List Row)
      → let last = last_sequence cursor (take n rows) in
        let taken = receive_all (map message_of (take n rows)) c in
        answer_for last taken (drop n rows) ≡ answer_for cursor c rows
  page-answer_for n cursor c rows =
      let (same_last, same_client) = page-rest n cursor c rows in
      cc (sym same_last, sym same_client)

  take_page-answer_for :
      (n cursor : ℕ) (c : Client) (rows : List Row) (has_more : Bool)
      (rest : ℕ → Client → Option (ℕ × Client))
      → (0 < length rows → 0 < n)
      → (has_more ≡ false → length rows ≤ n)
      → (0 < length rows
          → let last = last_sequence cursor (take n rows) in
            let taken = receive_all (map message_of (take n rows)) c in
            rest last taken ≡ answer_for last taken (drop n rows))
      → take_page message_of (take n rows) has_more rest cursor c ≡ answer_for cursor c rows
  unfolding take_page receive_all
  take_page-answer_for zero cursor c [] has_more rest h told go = refl
  take_page-answer_for zero cursor c (r ∷ rows) has_more rest h told go =
      absurd (omega (arith, h (omega arith)))
  take_page-answer_for (suc n) cursor c [] has_more rest h told go = refl
  take_page-answer_for (suc n) cursor c (r ∷ rows) has_more rest h told go =
      elim (Bool-cases has_more) [
        | inl more ↦ rw more (go (omega arith) ∙ page-answer_for (suc n) cursor c (r ∷ rows))
        | inr done ↦ rw done (
            ap
              (answer_for (last_sequence cursor (take (suc n) (r ∷ rows)))
                (receive_all (map message_of (take (suc n) (r ∷ rows))) c))
              (sym (drop-all (suc n) (r ∷ rows) (told done)))
            ∙ page-answer_for (suc n) cursor c (r ∷ rows))
      ]

-- The events that are missed, of the audience.
abbrev pub missed_by : ℕ → String → Option Audience → Store → ℕ → List Row
missed_by now t audience s cursor = keep (is_visible audience) (live_after t cursor now s.rows)

module _ (now size : ℕ) (t : String) (audience : Option Audience) (expand : Bool)
    (fetch_page : ℕ → ℕ → Page) (s : Store) where
  abbrev seen_after : ℕ → List Row
  seen_after = missed_by now t audience s

  abbrev page_at : ℕ → Page
  page_at cursor = fetch_page cursor (page_size_of size)

  -- What the server answers: the replay of the store for the audience, and that there is no more only
  -- where the page has all that is left.
  pub record IsReplay : Type 0 where
    pub replays :
        (cursor : ℕ)
        → (page_at cursor).events
          ≡ (replay_events now (query t audience expand cursor (page_size_of size)) s).events
    pub ends :
        (cursor : ℕ)
        → ((page_at cursor).has_more ≡ true) ⊎ (seen_after cursor ≡ (page_at cursor).events)

  abbrev at_most : ℕ → ℕ
  at_most cursor = length (page_at cursor).events

  module _ (answers : IsReplay) (rising : Rising 0 s.rows) where
    page-take :
        (cursor : ℕ)
        → any_of (λ r. is_after t cursor r && is_expired now r) s.rows ≡ false
        → (page_at cursor).events ≡ take (at_most cursor) (seen_after cursor)
    page-take cursor fresh =
        let n = bounded (page_size_of size) expand in
        let rows = live_after t cursor now s.rows in
        let same =
          answers.replays cursor
          ∙ replay-keep s now (query t audience expand cursor (page_size_of size)) fresh in
        same
        ∙ take-keep (is_visible audience) n rows
        ∙ ap (λ (l : List Row). take (length l) (seen_after cursor)) (sym same)

    seen-Rising : (cursor : ℕ) → Rising cursor (seen_after cursor)
    seen-Rising cursor =
        Rising-keep (is_visible audience) cursor (live_after t cursor now s.rows)
          (live_after-Rising t cursor now 0 s.rows rising)

    -- The events after the last one of a page.
    seen_after-page :
        (n cursor : ℕ)
        → seen_after (last_sequence cursor (take n (seen_after cursor)))
          ≡ drop n (seen_after cursor)
    seen_after-page n cursor =
        let last = last_sequence cursor (take n (seen_after cursor)) in
        ap (keep (is_visible audience)) (
          live_after-later t cursor last now s.rows
            (last_sequence-le n cursor (seen_after cursor) (seen-Rising cursor)))
        ∙ keep_swap (is_visible audience) (λ r. ltb last r.sequence)
            (live_after t cursor now s.rows)
        ∙ keep-last_sequence n cursor (seen_after cursor) (seen-Rising cursor)

    -- The loop, by the events that are missed.
    replay_seen :
        (message_of : Row → Message) (fuel cursor : ℕ) (c : Client)
        → any_of (λ r. is_after t cursor r && is_expired now r) s.rows ≡ false
        → ((k : ℕ) → (seen_after k ≡ []) ⊎ (0 < length (page_at k).events))
        → length (seen_after cursor) < fuel
        → replay_beyond_limit message_of fetch_page size fuel cursor c
          ≡ some (
            last_sequence cursor (seen_after cursor),
            receive_all (map message_of (seen_after cursor)) c,
          )
    unfolding replay_beyond_limit
    replay_seen message_of zero cursor c fresh shown enough = absurd (omega arith)
    replay_seen message_of (suc fuel) cursor c fresh shown enough =
        let n = at_most cursor in
        let seen = seen_after cursor in
        let last = last_sequence cursor (take n seen) in
        let taken = receive_all (map message_of (take n seen)) c in
        let left = seen_after-page n cursor in
        let some_page : 0 < length seen → 0 < n = λ some_left. elim (shown cursor) [
          | inl nothing ↦ absurd (omega (arith, some_left, ap (λ (l : List Row). length l) nothing))
          | inr shows ↦ shows
        ] in
        ap
          (λ (l : List Row).
            take_page message_of l (page_at cursor).has_more
              (replay_beyond_limit message_of fetch_page size fuel) cursor c)
          (page-take cursor fresh)
        ∙ take_page-answer_for message_of n cursor c seen (page_at cursor).has_more
            (replay_beyond_limit message_of fetch_page size fuel) some_page
            (λ done. elim (answers.ends cursor) [
              | inl more ↦ absurd (cc (more, done))
              | inr all ↦ omega (arith, ap (λ (l : List Row). length l) all)
            ])
            (λ some_left.
              replay_seen message_of fuel last taken
                (expired-later t cursor last now s.rows
                  (last_sequence-le n cursor seen (seen-Rising cursor)) fresh)
                shown
                (subst (λ (l : List Row). length l < fuel) (sym left)
                  (omega (arith, enough, length-drop_pos n seen (some_page some_left) some_left)))
              ∙ ap (answer_for message_of last taken) left)

-- Where all pages are replays, at one time and for one audience, of one store that calls have filled from
-- empty, and say that there is no more only where they have all that is left, no event of the tenant
-- after the cursor has expired, and no page is empty as long as events of the audience are left, the
-- loop ends with more rounds than there are events of the audience after the cursor. What the page then
-- has received, in whatever portions, is what it receives from all of those events in their order; the
-- cursor is that of the last.
pub replay_beyond_limit_ends :
    (message_of : Row → Message) (now size fuel cursor : ℕ) (t : String)
    (audience : Option Audience) (expand : Bool) (fetch_page : ℕ → ℕ → Page) (calls : List Call)
    (c : Client)
    → let s = run calls empty_store in
      let seen = missed_by now t audience s in
      IsReplay now size t audience expand fetch_page s
      → any_of (λ r. is_after t cursor r && is_expired now r) s.rows ≡ false
      → ((k : ℕ) → (seen k ≡ []) ⊎ (0 < length (fetch_page k (page_size_of size)).events))
      → length (seen cursor) < fuel
      → replay_beyond_limit message_of fetch_page size fuel cursor c
        ≡ some (last_sequence cursor (seen cursor), receive_all (map message_of (seen cursor)) c)
replay_beyond_limit_ends message_of now size fuel cursor t audience expand fetch_page calls c
      answers fresh shown enough =
    let s = run calls empty_store in
    replay_seen now size t audience expand fetch_page s answers
      (run-IsOrdered calls empty_store (tt, tt, omega arith)).0 message_of fuel cursor c fresh shown
      enough
