-- ===== src/Messages/Moves.antt =====
-- Each call on the messages keeps memory and store together: the receipts of
-- backend/services/message.service.js, the replay and the writes for rooms.
use relay_chatapp.Base.{
  ◌≡◌, ◌≢◌, refl, ℕ, true, Option, none, some, List, [], ◌∷◌, Text, text_dec, get, put, get-put,
  inl, inr, Option-cases, Bool-cases, option_cases, if_cases, All, arith,
}
use relay_chatapp.Messages.Life.{
  MessageState, sending, sent, delivered, read, deleted, failed, is_valid_transition,
}
use relay_chatapp.Messages.Rows.{
  Db, Row, Draft, set_state, change_row, persist_message, update_message_state,
  mark_message_delivered,
}
use relay_chatapp.Messages.Service.{
  Message, Chat, Ack, is_persisted, persist_and_return_ack, has_valid_shape,
}
use relay_chatapp.Messages.Receipts.{
  deliver, confirm_delivered, read_message, confirm_read, advance_memory, persist_read_cursor,
  rollback_persisted_messages,
}
use relay_chatapp.Messages.Replay.{mark_replayed}
use relay_chatapp.Messages.Outcomes.{
  confirm_delivered_outcome, confirm_read_outcome, memory-persist_read_cursor,
  db-persist_read_cursor,
}
use relay_chatapp.Messages.Stored.{
  has, has-change_row, get-delete_messages, persist_message_cases, get-insert_draft,
}
use relay_chatapp.Messages.Step.{IsForeign}
use relay_chatapp.Messages.Backed.{IsBacked, same_memory-IsBacked, persist_new-IsBacked}

pub persist-IsBacked :
    (now : ℕ → ℕ) (m stored : Message) (c : Chat)
    → get text_dec m.message_id c.memory ≡ some stored
    → IsBacked c
    → IsBacked (persist_and_return_ack now m c).0
unfolding persist_and_return_ack
persist-IsBacked now m stored c at b =
    if_cases (λ (x : Chat × Option Ack). IsBacked x.0) (has_valid_shape m)
      (λ _.
        option_cases (λ (x : Chat × Option Ack). IsBacked x.0) (get text_dec m.message_id c.memory)
          (λ gone. absurd (cc gone))
          (λ old e.
            if_cases (λ (x : Chat × Option Ack). IsBacked x.0) (is_persisted old.state) (λ _. b)
              (λ new. persist_new-IsBacked now m old c e new b)))
      (λ _. b)

-- A step of the copy in memory between states that both count as sent.
advance-IsBacked :
    (id : Text) (state : MessageState) (c d : Chat)
    → ((s : MessageState)
        → is_valid_transition s state ≡ true
        → is_persisted s ≡ is_persisted state)
    → d.memory ≡ advance_memory id state c.memory
    → ((q : Text) → has q d.db ≡ has q c.db)
    → IsBacked c
    → IsBacked d
unfolding advance_memory
advance-IsBacked id state c d keeps e same b = elim (Option-cases (get text_dec id c.memory)) [
  | inl gone ↦ same_memory-IsBacked c d (ground arith) (λ q _. same q) b
  | inr (m, at) ↦ elim (Bool-cases (is_valid_transition m.state state)) [
    | inr stays ↦ same_memory-IsBacked c d (ground arith) (λ q _. same q) b
    | inl moves ↦
        let moved : d.memory ≡ put text_dec id (record m { state = state }) c.memory =
          ground arith in
        record {
          backed = λ q x h.
              let h' : get text_dec q (put text_dec id (record m { state = state }) c.memory)
                  ≡ some x =
                rw (← moved) h in
              ground (
                arith,
                get-put text_dec id q (record m { state = state }) c.memory,
                keeps m.state moves,
                same q,
                b.backed q x,
                b.backed id m,
              );
          named = λ q x h.
              let h' : get text_dec q (put text_dec id (record m { state = state }) c.memory)
                  ≡ some x =
                rw (← moved) h in
              ground (
                arith,
                get-put text_dec id q (record m { state = state }) c.memory,
                b.named q x,
                b.named id m,
              );
        }
  ]
]

to_delivered : (s : MessageState) → is_valid_transition s delivered ≡ true → is_persisted s ≡ true
unfolding is_valid_transition
to_delivered sending h = h
to_delivered sent h = refl
to_delivered delivered h = refl
to_delivered read h = refl
to_delivered deleted h = h
to_delivered failed h = h

to_read : (s : MessageState) → is_valid_transition s read ≡ true → is_persisted s ≡ true
unfolding is_valid_transition
to_read sending h = h
to_read sent h = refl
to_read delivered h = refl
to_read read h = refl
to_read deleted h = h
to_read failed h = h

deliver-IsBacked :
    (now : ℕ → ℕ) (id user : Text) (r : Row) (c : Chat) {d : Chat}
    → deliver now id user r c ≡ some d
    → IsBacked c
    → IsBacked d
unfolding deliver update_message_state mark_message_delivered
deliver-IsBacked now id user r c {d} h b =
    elim (Option-cases (update_message_state (now 0) id delivered c.db)) [
      | inl gone ↦ absurd (ground arith)
      | inr (db, e) ↦
          advance-IsBacked id delivered c d to_delivered (ground arith)
            (λ q. ground (arith, has-change_row id q (set_state (now 0) delivered) c.db e)) b
    ]

pub confirm_delivered-IsBacked :
    (now : ℕ → ℕ) (id user : Text) (c : Chat)
    → IsBacked c
    → IsBacked (confirm_delivered now id user c).0
confirm_delivered-IsBacked now id user c b = elim (confirm_delivered_outcome now id user c) [
  | inl same ↦ rw same b
  | inr move ↦ rw move.1 (deliver-IsBacked now id user move.0.row c move.0.done b)
]

read_message-IsBacked :
    (now : ℕ → ℕ) (id user : Text) (r : Row) (c : Chat) {d : Chat}
    → read_message now id user r c ≡ some d
    → IsBacked c
    → IsBacked d
unfolding read_message update_message_state mark_message_delivered
read_message-IsBacked now id user r c {d} h b =
    elim (Option-cases (update_message_state (now 0) id read c.db)) [
      | inl gone ↦ absurd (ground arith)
      | inr (db, e) ↦
          advance-IsBacked id read c d to_read (ground arith)
            (λ q. ground (arith, has-change_row id q (set_state (now 0) read) c.db e)) b
    ]

persist_read_cursor-IsBacked :
    (user : Text) (r : Row) (id : Text) (c : Chat)
    → IsBacked c
    → IsBacked (persist_read_cursor user r id c)
persist_read_cursor-IsBacked user r id c b =
    same_memory-IsBacked c _ (memory-persist_read_cursor user r id c)
      (λ q _. rw (db-persist_read_cursor user r id c)) b

pub confirm_read-IsBacked :
    (now : ℕ → ℕ) (id user : Text) (c : Chat) → IsBacked c → IsBacked (confirm_read now id user c).0
confirm_read-IsBacked now id user c b = elim (confirm_read_outcome now id user c) [
  | inl same ↦ rw same b
  | inr (inl (r, again)) ↦ rw again (persist_read_cursor-IsBacked user r id c b)
  | inr (inr move) ↦ rw move.1 (
      persist_read_cursor-IsBacked user move.0.row id move.0.after
        (read_message-IsBacked now id user move.0.row c move.0.done b))
]

pub replayed-IsBacked :
    (now : ℕ → ℕ) (id user : Text) (c : Chat) {d : Chat}
    → mark_replayed now id user c ≡ some d
    → IsBacked c
    → IsBacked d
unfolding mark_replayed update_message_state mark_message_delivered
replayed-IsBacked now id user c {d} h b =
    elim (Option-cases (update_message_state (now 0) id delivered c.db)) [
      | inl gone ↦ absurd (ground arith)
      | inr (db, e) ↦
          same_memory-IsBacked c d (ground arith)
            (λ q _. ground (arith, has-change_row id q (set_state (now 0) delivered) c.db e)) b
    ]

-- A row under an id that is not in memory.
pub foreign-IsBacked :
    (now : ℕ) (row : Draft) (c d : Chat) {db : Db}
    → IsForeign row.message_id c
    → persist_message now row c.db ≡ some db
    → d.memory ≡ c.memory
    → d.db ≡ db
    → IsBacked c
    → IsBacked d
foreign-IsBacked now row c d foreign h same e = same_memory-IsBacked c d same (λ q known.
    elim (persist_message_cases now row c.db h) [
      | inl old ↦ rw (e, old)
      | inr (_, new) ↦ rw (e, new, get-insert_draft now row q c.db) (ground (arith, foreign, known))
    ])

pub rollback-IsBacked :
    (ids : List Text) (c : Chat)
    → All (λ id. IsForeign id c) ids
    → IsBacked c
    → IsBacked (rollback_persisted_messages ids c)
unfolding rollback_persisted_messages
rollback-IsBacked ids c foreign =
    same_memory-IsBacked c _ refl
      (λ q known. rw (get-delete_messages ids q c.db (apart ids q known foreign)))
  where
    apart :
        (ids : List Text) (q : Text)
        → get text_dec q c.memory ≢ none
        → All (λ id. IsForeign id c) ids
        → All (λ id. q ≢ id) ids
    apart [] q known h = tt
    apart (id ∷ ids) q known h = ((λ e. known (rw e h.0)), apart ids q known h.1)

pub change-IsBacked :
    (id : Text) (f : Row → Row) (c : Chat) {db : Db}
    → change_row id f c.db ≡ some db
    → IsBacked c
    → IsBacked (record c { db = db })
change-IsBacked id f c h = same_memory-IsBacked c _ refl (λ q _. has-change_row id q f c.db h)
