-- ===== src/Outbox/Worker/Examples.antt =====
-- A round of the worker on a small table.
use crmtsi_app.Common.{
  In, In-cons_inv, inl, inr, arith, eq_iff, String, ◌≡◌, refl, Option, none, some, [], ◌∷◌, ok,
  str_eq, if◌then◌else◌,
}
use crmtsi_app.Outbox.{Db, claim_next_job, next_job, mark_delivered, sent_row, lease_row, expire}
use crmtsi_app.Outbox.Examples.{table, messages, unlocked}
use crmtsi_app.Outbox.Worker.{
  ChannelRow, Config, delivered, Adapter, sent, send, process_one, merge_channel_credentials,
}
use crmtsi_app.Outbox.Worker.Rounds.{given, Leaves, process_one-Leaves}
use crmtsi_app.Outbox.Protocol.{System, Reach, start, next, claims}

-- A channel of a provider whose adapter sends texts.
abbrev find_channel : String → String → Option ChannelRow
find_channel id tenant = some (record { provider = "waha"; config = []; ciphertext = "sealed" })

abbrev decrypt : String → Option Config
decrypt _ = some (("token", "secret") ∷ [])

abbrev adapter : Adapter
adapter = record {
  send_text = some (λ _ _. delivered "wamid");
  send_template = none;
  send_media = none;
}

abbrev adapters : String → Option Adapter
adapters provider = if str_eq provider "waha" then some adapter else none

merged :
    merge_channel_credentials (("a", "1") ∷ ("b", "2") ∷ []) (("b", "3") ∷ [])
    ≡ ("a", "1") ∷ ("b", "3") ∷ []
unfolding merge_channel_credentials
merged = refl

abbrev waiting : Db
waiting = record { jobs = table; messages = messages }

round_answers :
    (process_one find_channel decrypt adapters (λ db. db) waiting "worker" unlocked 30 31 "token").1
    ≡ ok (some (record { id = "job-1"; status = sent }))
unfolding process_one claim_next_job next_job send
round_answers = refl

-- Before the report another worker claims, so late that the lease is swept.
abbrev begun : System
begun = record { db = waiting; held = []; used = [] }

abbrev after_claim : System
after_claim = given begun "token" (claim_next_job 30 "worker" "token" unlocked table)

abbrev overtaken : System
overtaken =
    given after_claim "second"
      (claim_next_job 200_000 "other" "second" unlocked after_claim.db.jobs)

second_is_new : ¬ In {A = String} "second" ("token" ∷ [])
second_is_new m = elim (In-cons_inv m) [
  | inl same ↦ ground (arith, same, eq_iff "second" "token")
  | inr none_left ↦ elim none_left [ ]
]

-- The round answers that the job is sent, and its row says that the outcome is not known.
lease_is_lost :
    (process_one find_channel decrypt adapters
      (λ _. overtaken.db)
      waiting
      "worker"
      unlocked
      30
      200_001
      "token")
    ≡ (overtaken.db, ok (some (record { id = "job-1"; status = sent })))
unfolding process_one claim_next_job next_job send mark_delivered sent_row lease_row expire
lease_is_lost = refl

process_one-Leaves_example :
    let out =
      process_one find_channel decrypt adapters
        (λ _. overtaken.db)
        waiting
        "worker"
        unlocked
        30
        200_001
        "token" in
    Leaves 30 200_001 "worker" "token" unlocked
      (send find_channel decrypt adapters)
      waiting
      overtaken.db
      out
    × ((after : System) × Reach begun after × (after.db ≡ out.0))
process_one-Leaves_example =
    process_one-Leaves find_channel decrypt adapters begun overtaken "worker" "token" unlocked 30
      200_001 (λ m. elim m [ ])
      (next start (claims 200_000 "other" "second" unlocked second_is_new))
