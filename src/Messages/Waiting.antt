-- ===== src/Messages/Waiting.antt =====
-- An acknowledged message waits for its recipient (getUndeliveredMessagesSync of
-- backend/storage/message.store.js).
use relay_chatapp.Base.{
  ◌≡◌, ◌≢◌, refl, ℕ, ◌≤◌, Bool, true, false, Option, none, some, [], Text, text_dec, get, get-put,
  length, In, inl, inr, option_cases, if_cases, arith,
}
use relay_chatapp.Messages.Life.{sent, is_delivered_or_read, to_direct_chat_id}
use relay_chatapp.Messages.Rows.{
  direct, Db, Draft, Row, get_message, set_state, update_message_state, insert_draft,
  is_message_delivered, mark_message_delivered,
}
use relay_chatapp.Messages.Queries.{rows_of, is_undelivered, get_undelivered_messages}
use relay_chatapp.Messages.Service.{
  Message, Chat, Ack, draft_of, mark_self, has_valid_shape, is_persisted, persist_and_return_ack,
}
use relay_chatapp.Messages.Stored.{
  has, get-change_row, has-of-change_row, get-insert_draft, persist_message_cases,
  tracking-change_row,
}
use relay_chatapp.Messages.Step.{Reach}
use relay_chatapp.Messages.Backed.{IsBacked}
use relay_chatapp.Messages.Reached.{reach-IsBacked}
use relay_chatapp.Messages.Offered.{In-get_undelivered_messages}
use relay_chatapp.Messages.Acks.{Persisted, persist_new_outcome}

new_row-untracked :
    (now : ℕ) (d : Draft) (user : Text) (db : Db)
    → is_message_delivered d.message_id user (insert_draft now d db) ≡ false
unfolding is_message_delivered insert_draft
new_row-untracked now d user db =
    ground (arith, get-put text_dec d.message_id d.message_id [] db.delivery_tracking)

apart-has_valid_shape : (m : Message) → has_valid_shape m ≡ true → m.recipient_id ≢ m.sender_id
unfolding has_valid_shape
apart-has_valid_shape m h e = ground arith

mark_self-apart : (m : Message) (db : Db) → m.recipient_id ≢ m.sender_id → mark_self m db ≡ db
mark_self-apart m db apart =
    elim (text_dec m.recipient_id m.sender_id)
      as (λ x.
        elim x [ yes _ ↦ mark_message_delivered m.message_id m.sender_id db | no _ ↦ db ] ≡ db) [
          | yes e ↦ absurd (apart e)
          | no _ ↦ refl
        ]

-- the direct message `m`, as sent, field by field
pub record IsCopy (m : Message) (d : Draft) : Type 0 where
  pub same_id : d.message_id ≡ m.message_id
  pub sender : d.sender_id ≡ m.sender_id
  pub recipient : d.recipient_id ≡ m.recipient_id
  pub content : d.content ≡ m.content
  pub time : d.timestamp ≡ m.timestamp
  pub client_id : d.client_message_id ≡ m.client_message_id
  pub as_sent : d.state ≡ sent
  pub chat : d.chat_id ≡ to_direct_chat_id m.sender_id m.recipient_id
  pub no_room : (d.message_type ≡ direct) × (d.room_id ≡ none)

draft_of-IsCopy : (m : Message) → IsCopy m (draft_of m)
draft_of-IsCopy m = record {
  same_id = refl;
  sender = refl;
  recipient = refl;
  content = refl;
  time = refl;
  client_id = refl;
  as_sent = refl;
  chat = refl;
  no_room = (refl, refl);
}

-- The row that a first acknowledgement leaves: what was sent, for its recipient to fetch.
pub record Waits (m : Message) (db : Db) : Type 0 where
  pub row : Row
  pub stored : get_message m.message_id db ≡ some row
  pub copy : IsCopy m row.draft
  pub waiting : is_undelivered m.recipient_id none db row ≡ true

inserted-Waits :
    (now at : ℕ) (m : Message) (db : Db) {updated : Db}
    → has_valid_shape m ≡ true
    → update_message_state at m.message_id sent (insert_draft now (draft_of m) db) ≡ some updated
    → Waits m (mark_self m updated)
unfolding update_message_state is_undelivered is_message_delivered is_delivered_or_read
inserted-Waits now at m db {updated} shape h =
    let written = insert_draft now (draft_of m) db in
    let new : get_message m.message_id written
        ≡ some (record { draft = draft_of m; updated_at = now; created_at = now }) =
      ground (arith, get-insert_draft now (draft_of m) m.message_id db) in
    rw (mark_self-apart m updated (apart-has_valid_shape m shape)) (record {
      row = set_state at sent (record { draft = draft_of m; updated_at = now; created_at = now });
      stored =
          ground (arith, get-change_row m.message_id m.message_id (set_state at sent) written h);
      copy = draft_of-IsCopy m;
      waiting = ground (
        arith,
        new_row-untracked now (draft_of m) m.recipient_id db,
        tracking-change_row m.message_id (set_state at sent) written h,
      );
    })

Persisted-Waits :
    (now : ℕ → ℕ) (m : Message) (c : Chat) (x : Chat × Option Ack)
    → has_valid_shape m ≡ true
    → has m.message_id c.db ≡ false
    → Persisted now m c x
    → Waits m x.0.db
unfolding update_message_state
Persisted-Waits now m c x shape new p =
    elim (persist_message_cases (now 0) (draft_of m) c.db p.write) [
      | inl old ↦
          let there = has-of-change_row m.message_id (set_state (now 2) sent) p.written p.update in
          absurd (ground (arith, old))
      | inr (_, e) ↦ rw p.kept (inserted-Waits (now 0) (now 2) m c.db shape (rw (← e) p.update))
    ]

abbrev FirstWaits : Message → Chat × Option Ack → Type 0
FirstWaits m x = (a : Ack) → x.1 ≡ some a → a.duplicate ≡ false → Waits m x.0.db

first_ack-Waits :
    (now : ℕ → ℕ) (m : Message) (c : Chat)
    → get text_dec m.message_id c.memory ≡ some m
    → IsBacked c
    → FirstWaits m (persist_and_return_ack now m c)
unfolding persist_and_return_ack
first_ack-Waits now m c at b =
    if_cases (FirstWaits m) (has_valid_shape m)
      (λ shape.
        option_cases (FirstWaits m) (get text_dec m.message_id c.memory) (λ gone. absurd (cc gone))
          (λ old e.
            if_cases (FirstWaits m) (is_persisted old.state) (λ _ a h d. absurd (ground arith))
              (λ new a h _. elim (persist_new_outcome now m c) [
                | inl failed ↦ absurd (cc failed.threw)
                | inr p ↦
                    Persisted-Waits now m c _ shape (ground (arith, b.backed m.message_id old)) p
              ])))
      (λ _ a h. absurd (cc h))

-- The first acknowledgement of a message in memory, on a server that started empty: the store then
-- has a row with the message's id, sender, recipient, content, time and client id, in their
-- direct chat, as SENT, and gives it to the recipient among the undelivered messages,
-- in any order of ids, if the limit leaves room for all rows.
pub acknowledged_waits :
    (now : ℕ → ℕ) (m : Message) (a : Ack) (first : Text → Text → Bool) (limit : ℕ) {c : Chat}
    → Reach c
    → get text_dec m.message_id c.memory ≡ some m
    → (persist_and_return_ack now m c).1 ≡ some a
    → a.duplicate ≡ false
    → length (rows_of (persist_and_return_ack now m c).0.db) ≤ limit
    → (row : Row) × (get_message m.message_id (persist_and_return_ack now m c).0.db ≡ some row)
      × IsCopy m row.draft
      × In row (
          get_undelivered_messages first m.recipient_id none limit
            (persist_and_return_ack now m c).0.db)
acknowledged_waits now m a first limit {c} r at h new room =
    let w = first_ack-Waits now m c at (reach-IsBacked r) a h new in
    (
      w.row,
      w.stored,
      w.copy,
      In-get_undelivered_messages first m.recipient_id none limit m.message_id w.row _ w.stored
          w.waiting room,
    )
