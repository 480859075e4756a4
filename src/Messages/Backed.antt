-- ===== src/Messages/Backed.antt =====
-- The copies in memory and the rows of the store (backend/services/message.service.js): a message
-- counts as sent in memory exactly if the store has it.
use relay_chatapp.Base.{
  ◌≡◌, ◌≢◌, refl, sym, ◌∙◌, ℕ, false, Option, none, some, Text, text_dec, get, put, get-put, inl,
  inr, Option-cases, option_cases, arith,
}
use relay_chatapp.Messages.Life.{sent}
use relay_chatapp.Messages.Rows.{
  Db, set_state, get_message, idempotency_key, persist_message, update_message_state,
  mark_message_delivered,
}
use relay_chatapp.Messages.Delivery.{Deliveries}
use relay_chatapp.Messages.Service.{
  Message, Chat, Intake, Ack, Sending, new_message, store_new, refusal_of, known_message,
  is_persisted, draft_of, mark_self, accept_incoming_message, persist_new, sent_message,
}
use relay_chatapp.Messages.Stored.{
  has, has-change_row, has-of-change_row, get-insert_draft, persist_message_cases,
  has-of-change_row-none,
}
use relay_chatapp.Messages.Step.{IsUnused}

pub record IsBacked (c : Chat) : Type 0 where
  pub backed :
      (id : Text) (m : Message)
      → get text_dec id c.memory ≡ some m
      → is_persisted m.state ≡ has id c.db
  -- a message lies under its id
  pub named : (id : Text) (m : Message) → get text_dec id c.memory ≡ some m → m.message_id ≡ id

-- A call that leaves memory alone, and the rows of the messages in it.
pub same_memory-IsBacked :
    (c d : Chat)
    → d.memory ≡ c.memory
    → ((id : Text) → get text_dec id c.memory ≢ none → has id d.db ≡ has id c.db)
    → IsBacked c
    → IsBacked d
same_memory-IsBacked c d e same b = record {
  backed = λ id m h.
      let at : get text_dec id c.memory ≡ some m = rw (← e) h in
      b.backed id m at ∙ sym (same id (λ none_at. cc));
  named = λ id m h. b.named id m (rw (← e) h);
}

store_new-IsBacked :
    (now : ℕ) (p : Sending) (c : Chat)
    → IsUnused p.fresh_id c
    → IsBacked c
    → IsBacked (store_new now p c)
unfolding store_new
store_new-IsBacked now p c u b = record {
  backed = λ id m h.
      ground
        (arith, get-put text_dec p.fresh_id id (new_message now p) c.memory, b.backed id m, u.1);
  named = λ id m h.
      ground (arith, get-put text_dec p.fresh_id id (new_message now p) c.memory, b.named id m);
}

pub accept-IsBacked :
    (max_length now : ℕ) (p : Sending) (c : Chat)
    → IsUnused p.fresh_id c
    → IsBacked c
    → IsBacked (accept_incoming_message max_length now p c).0
unfolding accept_incoming_message
accept-IsBacked max_length now p c u b =
    option_cases (λ (x : Chat × Intake). IsBacked x.0) (refusal_of max_length p)
      (λ _.
        option_cases (λ (x : Chat × Intake). IsBacked x.0)
          (known_message (idempotency_key p.sender_id p.client_message_id) c)
          (λ _. store_new-IsBacked now p c u b) (λ _ _. b))
      (λ _ _. b)

-- the rows after `persistMessage`: those of other ids stay
has-persist_message :
    (now : ℕ) (m : Message) (q : Text) (db : Db) {db' : Db}
    → persist_message now (draft_of m) db ≡ some db'
    → q ≢ m.message_id
    → has q db' ≡ has q db
has-persist_message now m q db h apart = elim (persist_message_cases now (draft_of m) db h) [
  | inl e ↦ rw e
  | inr (_, e) ↦ rw (e, get-insert_draft now (draft_of m) q db) (ground arith)
]

-- The message was not stored, as the update found no row.
has-persist_message-none :
    (now at : ℕ) (m : Message) (q : Text) (db : Db) {db' : Db}
    → persist_message now (draft_of m) db ≡ some db'
    → update_message_state at m.message_id sent db' ≡ none
    → has q db' ≡ has q db
unfolding update_message_state
has-persist_message-none now at m q db {db'} h k =
    elim (persist_message_cases now (draft_of m) db h) [
      | inl e ↦ rw e
      | inr (_, e) ↦
          let gone = has-of-change_row-none m.message_id _ db' k in
          ground (arith, get-insert_draft now (draft_of m) m.message_id db)
    ]

pub has-mark_self : (m : Message) (q : Text) (db : Db) → has q (mark_self m db) ≡ has q db
unfolding mark_message_delivered get_message
has-mark_self m q db =
    elim (text_dec m.recipient_id m.sender_id)
      as (λ x.
        has q (elim x [ yes _ ↦ mark_message_delivered m.message_id m.sender_id db | no _ ↦ db ])
        ≡ has q db) [ yes _ ↦ refl | no _ ↦ refl ]

named-sent_message :
    (m : Message) (c : Chat)
    → IsBacked c
    → (sent_message (get text_dec m.message_id c.memory) m).message_id ≡ m.message_id
named-sent_message m c b = elim (Option-cases (get text_dec m.message_id c.memory)) [
  | inl gone ↦ rw gone refl
  | inr (stored, at) ↦ rw at (b.named m.message_id stored at)
]

persisted-IsBacked :
    (now : ℕ → ℕ) (m : Message) (c : Chat) (deliveries : Deliveries) {db db' : Db}
    → persist_message (now 0) (draft_of m) c.db ≡ some db
    → update_message_state (now 2) m.message_id sent db ≡ some db'
    → IsBacked c
    → IsBacked (record c {
      db = mark_self m db';
      deliveries = deliveries;
      memory =
          put text_dec m.message_id (sent_message (get text_dec m.message_id c.memory) m) c.memory;
    })
unfolding update_message_state
persisted-IsBacked now m c deliveries {db} {db'} e e' b = record {
  backed = λ id x h. ground (
    arith,
    has-mark_self m id db',
    has-change_row m.message_id id (set_state (now 2) sent) db e',
    has-of-change_row m.message_id (set_state (now 2) sent) db e',
    has-persist_message (now 0) m id c.db e,
    get-put text_dec m.message_id id (sent_message (get text_dec m.message_id c.memory) m) c.memory,
    b.backed id x,
  );
  named = λ id x h. ground (
    arith,
    get-put text_dec m.message_id id (sent_message (get text_dec m.message_id c.memory) m) c.memory,
    b.named id x,
    named-sent_message m c b,
  );
}

pub persist_new-IsBacked :
    (now : ℕ → ℕ) (m stored : Message) (c : Chat)
    → get text_dec m.message_id c.memory ≡ some stored
    → is_persisted stored.state ≡ false
    → IsBacked c
    → IsBacked (persist_new now m c).0
unfolding persist_new
persist_new-IsBacked now m stored c at new b =
    option_cases (λ (x : Chat × Option Ack). IsBacked x.0)
      (persist_message (now 0) (draft_of m) c.db) (λ _. b)
      (λ db e.
        option_cases (λ (x : Chat × Option Ack). IsBacked x.0)
          (update_message_state (now 2) m.message_id sent db)
          (λ none_there.
            same_memory-IsBacked c _ refl
              (λ id _. has-persist_message-none (now 0) (now 2) m id c.db e none_there) b)
          (λ db' e'. persisted-IsBacked now m c _ e e' b))
