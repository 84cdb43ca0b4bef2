-- ===== src/Inbox/Processor/Conversations.antt =====
-- A message stands in a conversation of its own tenant and channel.
use crmtsi_app.Common.{
  ℕ, ◌≡◌, refl, sym, ◌∙◌, subst, inl, inr, String, true, Option, none, some, List, [], ◌∷◌, map, ok,
  ltb, any_of, arith, eq_iff, Bool-cases, Option-cases, In, here, there, In-map, All, All-map,
  All-impl,
}
use crmtsi_app.Inbox.Processor.{
  Status, Conversation, Message, Inbox, empty_inbox, Inbound, DeliveryStatus, message_event,
  delivery_event, other_event, Context, Draw, epoch_to_date, is_for, has_id, last_open, touched,
  new_conversation, conversation_for, new_message, process_inbound, delivered, process_delivery,
  process_webhook_event, Call, processes, sets_status, with_status, update_status, step, run,
}
use crmtsi_app.Inbox.Processor.Stored.{
  Stored, process_inbound-Stored, process_delivery-messages, process_delivery-conversations,
  update_status-left,
}
use crmtsi_app.Inbox.Processor.Once.{Unique, run-Unique}

pub record HasHome (cs : List Conversation) (m : Message) : Type 0 where
  pub home : Conversation
  pub found : In home cs
  pub same_id : home.id ≡ m.conversation_id
  pub same_tenant : home.tenant_id ≡ m.tenant_id
  pub same_channel : home.channel ≡ m.channel_id

-- What a change of conversations keeps of each.
abbrev Keeps : (Conversation → Conversation) → Type 0
Keeps f =
    (c : Conversation)
    → ((f c).id ≡ c.id) × ((f c).tenant_id ≡ c.tenant_id) × ((f c).channel ≡ c.channel)

HasHome-map :
    (f : Conversation → Conversation)
    → Keeps f
    → (cs : List Conversation) (m : Message) → HasHome cs m
    → HasHome (map f cs) m
HasHome-map f keeps cs m h = record {
  home = f h.home;
  found = In-map f h.found;
  same_id = (keeps h.home).0 ∙ h.same_id;
  same_tenant = (keeps h.home).1 ∙ h.same_tenant;
  same_channel = (keeps h.home).2 ∙ h.same_channel;
}

HasHome-cons :
    (c : Conversation) (cs : List Conversation) (m : Message) → HasHome cs m → HasHome (c ∷ cs) m
HasHome-cons c cs m h = record {
  home = h.home;
  found = there h.found;
  same_id = h.same_id;
  same_tenant = h.same_tenant;
  same_channel = h.same_channel;
}

touched-Keeps : (id : String) (t now : ℕ) → Keeps (touched id t now)
touched-Keeps id t now c = (ground arith, ground arith, ground arith)

with_status-Keeps :
    (t id : String) (status : Status) (now : ℕ) → Keeps (with_status t id status now)
with_status-Keeps t id status now c = (ground arith, ground arith, ground arith)

-- The open conversation that is found is one of the contact's.
last_open-some :
    (x : Context) (phone : String) (cs : List Conversation) (c : Conversation)
    → last_open x phone cs ≡ some c
    → In c cs × (is_for x phone c ≡ true)
unfolding last_open
last_open-some x phone [] c h = absurd (cc h)
last_open-some x phone (d ∷ cs) c h = elim (Bool-cases (is_for x phone d)) [
  | inr other ↦ let (m, e) = last_open-some x phone cs c (rw other at h) in (there m, e)
  | inl mine ↦ elim (Option-cases (last_open x phone cs)) [
    | inl alone ↦
        let same : d ≡ c = cc (rw (mine, alone) at h) in
        subst (λ (k : Conversation). In k (d ∷ cs) × (is_for x phone k ≡ true)) same (here, mine)
    | inr (e, more) ↦
        let (m, f) = last_open-some x phone cs e more in
        elim (Bool-cases (ltb d.updated_at e.updated_at)) [
          | inl later ↦
              let same : e ≡ c = cc (rw (mine, more, later) at h) in
              subst (λ (k : Conversation). In k (d ∷ cs) × (is_for x phone k ≡ true)) same
                (there m, f)
          | inr sooner ↦
              let same : d ≡ c = cc (rw (mine, more, sooner) at h) in
              subst (λ (k : Conversation). In k (d ∷ cs) × (is_for x phone k ≡ true)) same
                (here, mine)
        ]
  ]
]

module _ (x : Context) (d : Draw) (m : Inbound) where
  -- The conversations that a message is stored with have a home for it, and keep those of the others.
  abbrev Prepared : List Conversation → String × List Conversation → Type 0
  Prepared cs found =
      HasHome found.1 (new_message x d m found.0)
      × ((n : Message) → HasHome cs n → HasHome found.1 n)

  conversation_for-Prepared :
      (o : Option Conversation) (cs : List Conversation) (found : String × List Conversation)
      → last_open x m.phone cs ≡ o
      → conversation_for x d m o cs ≡ ok found
      → Prepared cs found
  unfolding conversation_for
  conversation_for-Prepared (some c) cs found e h =
      let (at, fits) = last_open-some x m.phone cs c e in
      let same : (c.id, cs) ≡ found = cc h in
      subst (Prepared cs) same (
        record {
          home = c;
          found = at;
          same_id = refl;
          same_tenant = ground (arith, fits, eq_iff c.tenant_id x.tenant_id);
          same_channel = ground (arith, fits, eq_iff c.channel x.channel_id);
        },
        λ n k. k,
      )
  conversation_for-Prepared none cs found e h =
      elim (Bool-cases (any_of (has_id d.conversation_id) cs)) [
        | inl taken ↦ absurd (cc (rw taken at h))
        | inr free ↦
            let same : (d.conversation_id, new_conversation x d m ∷ cs) ≡ found =
              cc (rw free at h) in
            subst (Prepared cs) same (
              record {
                home = new_conversation x d m;
                found = here;
                same_id = refl;
                same_tenant = refl;
                same_channel = refl;
              },
              λ n k. HasHome-cons (new_conversation x d m) cs n k,
            )
      ]

abbrev AtHome : Inbox → Type 0
AtHome inbox = All (HasHome inbox.conversations) inbox.messages

AtHome-map :
    (f : Conversation → Conversation)
    → Keeps f
    → (cs : List Conversation) (messages : List Message) → All (HasHome cs) messages
    → All (HasHome (map f cs)) messages
AtHome-map f keeps cs messages =
    All-impl (HasHome cs) (HasHome (map f cs)) (HasHome-map f keeps cs) messages

HasHome-delivered :
    (x : Context) (s : DeliveryStatus) (cs : List Conversation) (m : Message)
    → HasHome cs m
    → HasHome cs (delivered x s m)
HasHome-delivered x s cs m h = record {
  home = h.home;
  found = h.found;
  same_id = ground (arith, h.same_id);
  same_tenant = ground (arith, h.same_tenant);
  same_channel = ground (arith, h.same_channel);
}

Stored-AtHome :
    (x : Context) (d : Draw) (m : Inbound) (inbox after : Inbox)
    → Stored x d m inbox after
    → AtHome inbox
    → AtHome after
Stored-AtHome x d m inbox after stored h =
    let (home, others) =
      conversation_for-Prepared x d m (last_open x m.phone inbox.conversations) inbox.conversations
        (stored.conversation_id, stored.conversations) refl stored.found in
    subst AtHome (sym stored.left) (
      AtHome-map (touched stored.conversation_id (epoch_to_date d.now m.timestamp) d.now)
        (touched-Keeps stored.conversation_id (epoch_to_date d.now m.timestamp) d.now)
        stored.conversations (new_message x d m stored.conversation_id ∷ inbox.messages)
        (
          home,
          All-impl (HasHome inbox.conversations) (HasHome stored.conversations) others
              inbox.messages h,
        ))

delivery-AtHome :
    (x : Context) (now : ℕ) (s : DeliveryStatus) (inbox : Inbox)
    → AtHome inbox
    → AtHome (process_delivery x now s inbox).0
delivery-AtHome x now s inbox h =
    let after = (process_delivery x now s inbox).0 in
    let same = process_delivery-conversations x now s inbox in
    subst (λ (cs : List Conversation). All (HasHome cs) after.messages) (sym same)
      (elim (process_delivery-messages x now s inbox) [
        | inl kept ↦ subst (All (HasHome inbox.conversations)) (sym kept) h
        | inr marked ↦ subst (All (HasHome inbox.conversations)) (sym marked) (
            All-map (HasHome inbox.conversations) (delivered x s) inbox.messages (
              All-impl (HasHome inbox.conversations)
                (λ m. HasHome inbox.conversations (delivered x s m))
                (HasHome-delivered x s inbox.conversations) inbox.messages h))
      ])

status-AtHome :
    (t id : String) (status : Status) (event_id : String) (now : ℕ) (inbox : Inbox)
    → AtHome inbox
    → AtHome (update_status t id status event_id now inbox).0
status-AtHome t id status event_id now inbox h =
    let after = (update_status t id status event_id now inbox).0 in
    let left = update_status-left t id status event_id now inbox in
    subst (λ (ms : List Message). All (HasHome after.conversations) ms) (sym left.messages)
      (elim left.conversations [
        | inl same ↦
            subst (λ (cs : List Conversation). All (HasHome cs) inbox.messages) (sym same) h
        | inr changed ↦
            subst (λ (cs : List Conversation). All (HasHome cs) inbox.messages) (sym changed)
              (AtHome-map (with_status t id status now) (with_status-Keeps t id status now)
                inbox.conversations inbox.messages h)
      ])

step-AtHome : (c : Call) (inbox : Inbox) → AtHome inbox → AtHome (step c inbox)
unfolding step
step-AtHome (processes x d (message_event m)) inbox h =
    unfold process_webhook_event in
    elim (process_inbound-Stored x d m inbox) [
      | inl same ↦ subst AtHome (sym same) h
      | inr stored ↦ Stored-AtHome x d m inbox (process_inbound x d m inbox).0 stored h
    ]
step-AtHome (processes x d (delivery_event s)) inbox h =
    unfold process_webhook_event in delivery-AtHome x d.now s inbox h
step-AtHome (processes x d other_event) inbox h = unfold process_webhook_event in h
step-AtHome (sets_status t id status event_id now) inbox h =
    status-AtHome t id status event_id now inbox h

run-AtHome : (calls : List Call) (inbox : Inbox) → AtHome inbox → AtHome (run calls inbox)
unfolding run
run-AtHome [] inbox h = h
run-AtHome (c ∷ calls) inbox h = run-AtHome calls (step c inbox) (step-AtHome c inbox h)

-- From an empty inbox, after any calls with whatever identities drawn, every message stands in a
-- conversation of its own tenant and channel, and no two messages have one identity of one channel.
pub messages_at_home :
    (calls : List Call)
    → let inbox = run calls empty_inbox in
      All (HasHome inbox.conversations) inbox.messages × Unique inbox.messages
messages_at_home calls = (run-AtHome calls empty_inbox tt, run-Unique calls empty_inbox tt)
