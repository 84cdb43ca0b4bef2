-- ===== src/Webhook/Reclaim.antt =====
-- An event that was claimed again: the worker that had it can no longer report on it.
use crmtsi_app.Common.{
  ℕ, ◌≡◌, ◌≢◌, refl, sym, ap, String, Bool, false, Option, none, some, List, [], ◌∷◌, map, arith,
  eq_iff, str_eq, Text, Bool-cases, inl, inr,
}
use crmtsi_app.Outbox.{Thrown}
use crmtsi_app.Webhook.{
  Event, lease_row, finish_claim, next_event, claim_next_webhook, has_lease, sql_eq, processed_row,
  failed_row, row_count, mark_webhook_processed, mark_webhook_failed,
}

sql_eq-differs :
    (token : String) (t : Option String) → t ≢ some token → sql_eq (some token) t ≡ false
sql_eq-differs token none h = refl
sql_eq-differs token (some u) h = ground (arith, eq_iff token u, unequal)
  where
    unequal : token ≢ u
    unequal e = h (ap some (sym e))

module _ (now : ℕ) (worker token id : String) (held : Event) (same : held.id ≡ id)
    (other : held.lease_token ≢ some token) where
  stale_row : (r : Event) → has_lease held (lease_row now worker token id r) ≡ false
  unfolding lease_row
  stale_row r = elim (Bool-cases (str_eq r.id id)) [
    | inl hit ↦ rw hit (ground (arith, sql_eq-differs token held.lease_token other))
    | inr miss ↦ rw miss (elsewhere r miss)
  ]
    where
      elsewhere : (r : Event) → str_eq r.id id ≡ false → has_lease held r ≡ false
      elsewhere r miss = ground (arith, miss, same, eq_iff r.id id, eq_iff r.id held.id)

  processed-same :
      (rows : List Event)
      → let leased_rows = map (lease_row now worker token id) rows in
        map (processed_row held) leased_rows ≡ leased_rows
  unfolding processed_row
  processed-same [] = refl
  processed-same (r ∷ rows) = ground (arith, stale_row r, processed-same rows)

  failed-same :
      (dead : Bool) (at : ℕ) (reason : Text) (rows : List Event)
      → let leased_rows = map (lease_row now worker token id) rows in
        map (failed_row held dead at reason) leased_rows ≡ leased_rows
  unfolding failed_row
  failed-same dead at reason [] = refl
  failed-same dead at reason (r ∷ rows) =
      ground (arith, stale_row r, failed-same dead at reason rows)

  row_count-zero :
      (rows : List Event) → row_count held (map (lease_row now worker token id) rows) ≡ 0
  unfolding row_count
  row_count-zero [] = refl
  row_count-zero (r ∷ rows) = ground (arith, stale_row r, row_count-zero rows)

-- After a claim gave an event to a worker under a new token, another worker that holds the event
-- under an older token reports in vain: neither its success nor its failure is accepted, and
-- neither changes a row.
pub stale_report_refused :
    (now later : ℕ) (worker token : String) (locked : String → Bool) (rows : List Event)
    (held event : Event) (error : Option Thrown)
    → (claim_next_webhook now worker token locked rows).1 ≡ some event
    → held.id ≡ event.id
    → held.lease_token ≢ some token
    → let rows' = (claim_next_webhook now worker token locked rows).0 in
      (mark_webhook_processed held rows' ≡ (rows', false))
      × ((mark_webhook_failed held error later rows').0 ≡ rows')
      × ((mark_webhook_failed held error later rows').1 ≡ false)
unfolding claim_next_webhook mark_webhook_processed mark_webhook_failed
stale_report_refused now later worker token locked rows held event error given same other =
    by_claim (next_event now locked rows) given
  where
    by_claim :
        (o : Option Event)
        → (finish_claim now worker token rows o).1 ≡ some event
        → let rows' = (finish_claim now worker token rows o).0 in
          (mark_webhook_processed held rows' ≡ (rows', false))
          × ((mark_webhook_failed held error later rows').0 ≡ rows')
          × ((mark_webhook_failed held error later rows').1 ≡ false)
    by_claim none e = cc
    by_claim (some k) e =
        let id_same : held.id ≡ k.id = cc in
        let zero_rows = row_count-zero now worker token k.id held id_same other rows in
        (
          ground (arith, processed-same now worker token k.id held id_same other rows, zero_rows),
          failed-same now worker token k.id held id_same other _ _ _ rows,
          ground (arith, zero_rows),
        )
