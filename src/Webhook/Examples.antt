-- ===== src/Webhook/Examples.antt =====
-- An event whose first worker went away for more than two minutes.
use crmtsi_app.Common.{◌≡◌, ◌≢◌, refl, String, Bool, false, none, some, [], ◌∷◌, arith, eq_iff}
use crmtsi_app.Webhook.{
  pending, Event, leased, lease_row, next_event, claim_next_webhook, mark_webhook_processed,
  mark_webhook_failed, Processing, done, process_one_webhook,
}
use crmtsi_app.Webhook.Reclaim.{stale_report_refused}

abbrev event : Event
event = record {
  id = "event-1";
  channel_id = "channel";
  tenant_id = "tenant";
  payload = "{}";
  status = pending;
  attempts = 0;
  max_attempts = 8;
  available_at = 0;
  received_at = 0;
  locked_at = none;
  locked_by = none;
  lease_token = none;
  processing_error = none;
}

abbrev first : Event
first = leased 10 "one" "token-1" event

abbrev second : Event
second = leased 130000 "two" "token-2" first

abbrev unlocked : String → Bool
unlocked _ = false

too_early : (claim_next_webhook 120010 "two" "token-2" unlocked (first ∷ [])).1 ≡ none
unfolding claim_next_webhook next_event
too_early = refl

abbrev processing_ends : Processing
processing_ends _ = none

round_ends :
    (process_one_webhook processing_ends "one" unlocked 10 20 "token-1" (event ∷ [])).1
    ≡ some (record { id = "event-1"; outcome = done })
unfolding process_one_webhook claim_next_webhook next_event lease_row
round_ends = refl

tokens_differ : first.lease_token ≢ some "token-2"
tokens_differ e = ground (arith, e, eq_iff "token-1" "token-2")

stale_report_refused_example :
    (mark_webhook_processed first (second ∷ []) ≡ (second ∷ [], false))
    × ((mark_webhook_failed first none 140000 (second ∷ [])).0 ≡ second ∷ [])
    × ((mark_webhook_failed first none 140000 (second ∷ [])).1 ≡ false)
unfolding claim_next_webhook next_event lease_row
stale_report_refused_example =
    stale_report_refused 130000 140000 "two" "token-2" unlocked (first ∷ []) first second none refl
      refl tokens_differ
