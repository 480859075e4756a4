-- ===== src/Messages/Restart.antt =====
-- A repeated send after a restart of the server (acceptIncomingMessage and persistAndReturnAck of
-- backend/services/message.service.js), and deleted messages in a replay.
use relay_chatapp.Base.{
  ◌≡◌, refl, sym, subst, ◌∙◌, ℕ, ◌≤◌, Bool, In, length, true, false, Option, none, some, [], ◌∷◌,
  Text, text_dec, get, option_cases, if_cases, arith,
}
use relay_chatapp.Messages.Life.{sent, deleted, is_blank, is_delivered_or_read}
use relay_chatapp.Messages.Rows.{
  Db, Row, idempotency_key, row_of_key, get_message, persist_message, update_message_state,
  change_row, set_state, soft_delete_message, is_message_delivered,
}
use relay_chatapp.Messages.Queries.{rows_of, is_undelivered, get_undelivered_messages}
use relay_chatapp.Messages.Offered.{In-get_undelivered_messages, given-is_undelivered}
use relay_chatapp.Messages.Service.{
  Message, Chat, Sending, Ack, Intake, refused, duplicate, accepted, new_message, store_new,
  text_or_none, refusal_of, known_message, draft_of, is_persisted, has_valid_shape,
  accept_incoming_message, persist_new, persist_and_return_ack,
}
use relay_chatapp.Messages.Handler.{
  Answer, nack, internal_error, validation_error, nack_of, persist_and_answer, handle_message_send,
}
use relay_chatapp.Messages.Acks.{new_message-held}
use relay_chatapp.Messages.Stored.{get-change_row, tracking-change_row}

same_key :
    (sender : Text) (id : Option Text)
    → idempotency_key sender (text_or_none id) ≡ idempotency_key sender id
unfolding idempotency_key is_blank
same_key sender none = refl
same_key sender (some []) = refl
same_key sender (some (c ∷ s)) = refl

-- the row of the client's id is there, and no row of the message: nothing is written
persist_message-known :
    (now : ℕ) (m : Message) (r : Row) (db : Db) {db' : Db}
    → get_message m.message_id db ≡ none
    → row_of_key (idempotency_key m.sender_id m.client_message_id) db ≡ some r
    → persist_message now (draft_of m) db ≡ some db'
    → db' ≡ db
unfolding persist_message
persist_message-known now m r db new known h = ground arith

persist_new-known :
    (now : ℕ → ℕ) (m : Message) (r : Row) (c : Chat)
    → get_message m.message_id c.db ≡ none
    → row_of_key (idempotency_key m.sender_id m.client_message_id) c.db ≡ some r
    → ((persist_new now m c).1 ≡ none) × ((persist_new now m c).0.db ≡ c.db)
unfolding persist_new update_message_state change_row
persist_new-known now m r c new known =
    option_cases (λ (x : Chat × Option Ack). (x.1 ≡ none) × (x.0.db ≡ c.db))
      (persist_message (now 0) (draft_of m) c.db) (λ _. (refl, refl))
      (λ db e.
        let same = persist_message-known (now 0) m r c.db new known e in
        option_cases (λ (x : Chat × Option Ack). (x.1 ≡ none) × (x.0.db ≡ c.db))
          (update_message_state (now 2) m.message_id sent db) (λ _. (refl, same))
          (λ db' e'. absurd (ground (arith, same, new))))

abbrev Unanswered : Chat → Chat × Option Ack → Type 0
Unanswered c x = (x.1 ≡ none) × (x.0.db ≡ c.db)

persist-known :
    (now : ℕ → ℕ) (at : ℕ) (p : Sending) (r : Row) (c : Chat)
    → get_message p.fresh_id c.db ≡ none
    → row_of_key (idempotency_key p.sender_id p.client_message_id) c.db ≡ some r
    → Unanswered c (persist_and_return_ack now (new_message at p) (store_new at p c))
unfolding persist_and_return_ack store_new
persist-known now at p r c new known =
    let key = same_key p.sender_id p.client_message_id in
    let unanswered =
      persist_new-known now (new_message at p) r (store_new at p c) new (rw key known) in
    if_cases (Unanswered c) (has_valid_shape (new_message at p))
      (λ _.
        option_cases (Unanswered c) (get text_dec p.fresh_id (store_new at p c).memory)
          (λ _. unanswered)
          (λ stored e.
            let held = new_message-held at p c in
            if_cases (Unanswered c) (is_persisted stored.state)
              (λ done.
                let same : some stored ≡ some (new_message at p) = sym e ∙ held in
                absurd (ground arith))
              (λ _. unanswered)))
      (λ _. (refl, refl))

accept-new :
    (max_length now : ℕ) (p : Sending) (c : Chat)
    → refusal_of max_length p ≡ none
    → known_message (idempotency_key p.sender_id p.client_message_id) c ≡ none
    → accept_incoming_message max_length now p c ≡ (store_new now p c, accepted (new_message now p))
unfolding accept_incoming_message
accept-new max_length now p c ok gone = rw (accept_incoming_message, ok, gone) refl

abbrev Refuses : Chat → Chat × Answer → Type 0
Refuses c x = (x.1 ≡ nack internal_error) × (x.0.db ≡ c.db)

-- A server that has restarted, so that its maps are empty, with a store that has a message of the
-- client's id: a client that sends the message again, with a valid payload, is told of an internal
-- error, whatever new id the server draws, and the store stays as it is.
pub retry_after_restart :
    (max_length now : ℕ) (later : ℕ → ℕ) (p : Sending) (r : Row) (c : Chat)
    → c.memory ≡ []
    → get_message p.fresh_id c.db ≡ none
    → row_of_key (idempotency_key p.sender_id p.client_message_id) c.db ≡ some r
    → nack_of max_length false p ≡ none
    → refusal_of max_length p ≡ none
    → ((handle_message_send max_length now later false p c).1 ≡ nack internal_error)
      × ((handle_message_send max_length now later false p c).0.db ≡ c.db)
unfolding handle_message_send persist_and_answer known_message get
retry_after_restart max_length now later p r c empty new known valid ok =
    let gone : known_message (idempotency_key p.sender_id p.client_message_id) c ≡ none =
      forgotten _ in
    let unanswered = persist-known later now p r c new known in
    let taken = accept-new max_length now p c ok gone in
    option_cases (Refuses c) (nack_of max_length false p)
      (λ _.
        subst
          (λ (x : Chat × Intake). Refuses c (elim (x.1) [
            | refused _ ↦ (x.0, nack validation_error)
            | duplicate m ↦ persist_and_answer later m x.0
            | accepted m ↦ persist_and_answer later m x.0
          ]))
          (sym taken) (rw (unanswered.0) refl, unanswered.1))
      (λ code bad. absurd (cc (bad, valid)))
  where
    forgotten : (key : Option Text) → known_message key c ≡ none
    forgotten none = refl
    forgotten (some key) = ground (arith, empty)

still_undelivered :
    (now : ℕ) (id user : Text) (after : Option Text) (r : Row) (db : Db) {db' : Db}
    → get_message id db ≡ some r
    → r.draft.message_id ≡ id
    → soft_delete_message now id db ≡ some db'
    → is_undelivered user after db r ≡ true
    → (get_message id db' ≡ some (set_state now deleted r))
      × (is_undelivered user after db' (set_state now deleted r) ≡ true)
unfolding soft_delete_message update_message_state is_undelivered is_message_delivered
    is_delivered_or_read
still_undelivered now id user after r db at own h waits = (
  ground (arith, get-change_row id id (set_state now deleted) db h),
  ground (arith, tracking-change_row id (set_state now deleted) db h),
)

-- A message, stored under its own id, that its sender deletes before the recipient has fetched it
-- stays among the messages that the store gives the recipient, with its content: if it was given before, it is given after,
-- as deleted, where the limit leaves room for all rows.
pub deleted_still_given :
    (now : ℕ) (first : Text → Text → Bool) (id user : Text) (after : Option Text) (limit : ℕ)
    (r : Row) (db : Db) {db' : Db}
    → get_message id db ≡ some r
    → r.draft.message_id ≡ id
    → In r (get_undelivered_messages first user after limit db)
    → soft_delete_message now id db ≡ some db'
    → length (rows_of db') ≤ limit
    → (s : Row) × In s (get_undelivered_messages first user after limit db')
      × (get_message id db' ≡ some s)
      × (s.draft.state ≡ deleted)
      × (s.draft.content ≡ r.draft.content)
deleted_still_given now first id user after limit r db {db'} at own given h room =
    let (there, waits) =
      still_undelivered now id user after r db at own h
        (given-is_undelivered first user after limit r db given) in
    (
      set_state now deleted r,
      In-get_undelivered_messages first user after limit id (set_state now deleted r) db' there
          waits room,
      there,
      refl,
      refl,
    )
