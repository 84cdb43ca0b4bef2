-- ===== src/Inbox/Processor/Once.antt =====
-- An event of a channel is stored once, however often and whenever it is processed.
use crmtsi_app.Common.{
  ◌≡◌, refl, sym, ap, ◌∙◌, inl, inr, subst, String, true, false, List, [], ◌∷◌, map, ok, str_eq,
  any_of, arith,
}
use crmtsi_app.Inbox.Processor.{
  Message, Inbox, Inbound, DeliveryStatus, message_event, delivery_event, other_event, Context,
  Draw, is_message, stored, process_inbound, delivered, process_webhook_event, Call, processes,
  sets_status, step, run,
}
use crmtsi_app.Inbox.Processor.Stored.{
  process_inbound-Stored, process_inbound-ok, any_of-delivered, process_delivery-messages,
  update_status-left,
}

abbrev Known : String → String → Inbox → Type 0
Known channel provider inbox = any_of (is_message channel provider) inbox.messages ≡ true

step-Known :
    (channel provider : String) (c : Call) (inbox : Inbox)
    → Known channel provider inbox
    → Known channel provider (step c inbox)
unfolding step
step-Known channel provider (processes x d (message_event m)) inbox h =
    unfold process_webhook_event in
    elim (process_inbound-Stored x d m inbox) [
      | inl same ↦ subst (Known channel provider) (sym same) h
      | inr stored ↦ subst (Known channel provider) (sym stored.left) (ground (arith, h))
    ]
step-Known channel provider (processes x d (delivery_event s)) inbox h =
    unfold process_webhook_event in
    elim (process_delivery-messages x d.now s inbox) [
      | inl same ↦ ap (any_of (is_message channel provider)) same ∙ h
      | inr marked ↦
          ap (any_of (is_message channel provider)) marked
          ∙ any_of-delivered channel provider x s inbox.messages
          ∙ h
    ]
step-Known channel provider (processes x d other_event) inbox h = unfold process_webhook_event in h
step-Known channel provider (sets_status t id status event_id now) inbox h =
    ap (any_of (is_message channel provider))
      (update_status-left t id status event_id now inbox).messages
    ∙ h

run-Known :
    (channel provider : String) (calls : List Call) (inbox : Inbox)
    → Known channel provider inbox
    → Known channel provider (run calls inbox)
unfolding run
run-Known channel provider [] inbox h = h
run-Known channel provider (c ∷ calls) inbox h =
    run-Known channel provider calls (step c inbox) (step-Known channel provider c inbox h)

Known-unchanged :
    (x : Context) (d : Draw) (m : Inbound) (inbox : Inbox)
    → str_eq x.tenant_id "" ≡ false
    → Known x.channel_id m.provider_event_id inbox
    → process_inbound x d m inbox ≡ (inbox, ok tt)
unfolding process_inbound
Known-unchanged x d m inbox given known = rw (given, known) refl

-- Once an inbound event was processed, then after any further calls an event of the same channel with
-- the same identity, whatever else it holds, is answered the same and changes nothing.
pub process_inbound_once :
    (x : Context) (d again : Draw) (m repeated : Inbound) (inbox : Inbox) (calls : List Call)
    → (process_inbound x d m inbox).1 ≡ ok tt
    → repeated.provider_event_id ≡ m.provider_event_id
    → let later = run calls (process_inbound x d m inbox).0 in
      process_inbound x again repeated later ≡ (later, ok tt)
process_inbound_once x d again m repeated inbox calls h same =
    let (given, known) = process_inbound-ok x d m inbox h in
    let later = run calls (process_inbound x d m inbox).0 in
    Known-unchanged x again repeated later given (
      subst (λ (id : String). Known x.channel_id id later) (sym same)
        (run-Known x.channel_id m.provider_event_id calls (process_inbound x d m inbox).0 known))

-- No two messages with one identity of one channel.
abbrev pub Unique : List Message → Type 0
Unique [] = Unit {0}
Unique (m ∷ messages) =
    (any_of (is_message m.channel_id m.provider_message_id) messages ≡ false) × Unique messages

Unique-delivered :
    (x : Context) (s : DeliveryStatus) (messages : List Message)
    → Unique messages
    → Unique (map (delivered x s) messages)
Unique-delivered x s [] h = tt
Unique-delivered x s (m ∷ messages) h = (
  ground (arith, h, any_of-delivered m.channel_id m.provider_message_id x s messages),
  Unique-delivered x s messages h.1,
)

step-Unique : (c : Call) (inbox : Inbox) → Unique inbox.messages → Unique (step c inbox).messages
unfolding step
step-Unique (processes x d (message_event m)) inbox h =
    unfold process_webhook_event in
    elim (process_inbound-Stored x d m inbox) [
      | inl same ↦ subst (λ (i : Inbox). Unique i.messages) (sym same) h
      | inr stored ↦ subst (λ (i : Inbox). Unique i.messages) (sym stored.left) (stored.unknown, h)
    ]
step-Unique (processes x d (delivery_event s)) inbox h =
    unfold process_webhook_event in
    elim (process_delivery-messages x d.now s inbox) [
      | inl same ↦ subst Unique (sym same) h
      | inr marked ↦ subst Unique (sym marked) (Unique-delivered x s inbox.messages h)
    ]
step-Unique (processes x d other_event) inbox h = unfold process_webhook_event in h
step-Unique (sets_status t id status event_id now) inbox h =
    subst Unique (sym (update_status-left t id status event_id now inbox).messages) h

pub run-Unique :
    (calls : List Call) (inbox : Inbox) → Unique inbox.messages → Unique (run calls inbox).messages
unfolding run
run-Unique [] inbox h = h
run-Unique (c ∷ calls) inbox h = run-Unique calls (step c inbox) (step-Unique c inbox h)
