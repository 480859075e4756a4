-- ===== src/Messages/KnownOn.antt =====
-- No call forgets the message that a client's id names (clientMessageIdMap in
-- backend/services/message.service.js).
use relay_chatapp.Base.{
  ◌≡◌, refl, ℕ, Option, some, List, Text, text_dec, get, get-put, inl, inr, Option-cases,
  option_cases, if_cases, arith,
}
use relay_chatapp.Messages.Life.{MessageState, delivered, read, sent}
use relay_chatapp.Messages.Rows.{Row, persist_message, update_message_state}
use relay_chatapp.Messages.Service.{
  Message, Chat, Ack, draft_of, has_valid_shape, is_persisted, persist_new, persist_and_return_ack,
  sent_message,
}
use relay_chatapp.Messages.Receipts.{
  RoomWrite, deliver, read_message, advance_memory, persist_read_cursor,
  persist_room_message_for_recipient, persist_room_message_canonical, rollback_persisted_messages,
}
use relay_chatapp.Messages.Replay.{mark_replayed}
use relay_chatapp.Messages.Stored.{is_some}
use relay_chatapp.Messages.Outcomes.{
  confirm_delivered_outcome, confirm_read_outcome, memory-persist_read_cursor,
}
use relay_chatapp.Messages.Step.{
  Step, accept, persist, delivered_by, read_by, replayed, room_row, room_history, rollback, fails,
  edit, remove,
}
use relay_chatapp.Messages.Known.{IsKnown, kept-IsKnown, accept-IsKnown}

persist_new-kept :
    (key id : Text) (now : ℕ → ℕ) (m : Message) (c : Chat)
    → IsKnown key id c
    → IsKnown key id (persist_new now m c).0
unfolding persist_new
persist_new-kept key id now m c k =
    option_cases (λ (x : Chat × Option Ack). IsKnown key id x.0)
      (persist_message (now 0) (draft_of m) c.db) (λ _. k)
      (λ db e.
        option_cases (λ (x : Chat × Option Ack). IsKnown key id x.0)
          (update_message_state (now 2) m.message_id sent db)
          (λ _. kept-IsKnown key id c _ refl refl k)
          (λ db' e'. record {
            keyed = k.keyed;
            kept = ground (
              arith,
              get-put text_dec m.message_id id (sent_message (get text_dec m.message_id c.memory) m)
                  c.memory,
              k.kept,
            );
            solid = k.solid;
          }))

persist-IsKnown :
    (key id : Text) (now : ℕ → ℕ) (m : Message) (c : Chat)
    → IsKnown key id c
    → IsKnown key id (persist_and_return_ack now m c).0
unfolding persist_and_return_ack
persist-IsKnown key id now m c k =
    if_cases (λ (x : Chat × Option Ack). IsKnown key id x.0) (has_valid_shape m)
      (λ _.
        option_cases (λ (x : Chat × Option Ack). IsKnown key id x.0)
          (get text_dec m.message_id c.memory) (λ _. persist_new-kept key id now m c k)
          (λ old _.
            if_cases (λ (x : Chat × Option Ack). IsKnown key id x.0) (is_persisted old.state)
              (λ _. k) (λ _. persist_new-kept key id now m c k)))
      (λ _. k)

is_some-advance_memory :
    (q id : Text) (state : MessageState) (memory : List (Text × Message))
    → is_some (get text_dec q (advance_memory id state memory)) ≡ is_some (get text_dec q memory)
unfolding advance_memory
is_some-advance_memory q id state memory = elim (Option-cases (get text_dec id memory)) [
  | inl gone ↦ ground arith
  | inr (m, at) ↦ ground (arith, get-put text_dec id q (record m { state = state }) memory)
]

deliver-IsKnown :
    (key id : Text) (now : ℕ → ℕ) (q user : Text) (r : Row) (c : Chat) {d : Chat}
    → deliver now q user r c ≡ some d
    → IsKnown key id c
    → IsKnown key id d
unfolding deliver
deliver-IsKnown key id now q user r c {d} h =
    let same : d.memory ≡ advance_memory q delivered c.memory = ground arith in
    kept-IsKnown key id c d (ground arith)
      (rw same (is_some-advance_memory id q delivered c.memory))

read_message-IsKnown :
    (key id : Text) (now : ℕ → ℕ) (q user : Text) (r : Row) (c : Chat) {d : Chat}
    → read_message now q user r c ≡ some d
    → IsKnown key id c
    → IsKnown key id d
unfolding read_message
read_message-IsKnown key id now q user r c {d} h =
    let same : d.memory ≡ advance_memory q read c.memory = ground arith in
    kept-IsKnown key id c d (ground arith) (rw same (is_some-advance_memory id q read c.memory))

persist_read_cursor-IsKnown :
    (key id user : Text) (r : Row) (q : Text) (c : Chat)
    → IsKnown key id c
    → IsKnown key id (persist_read_cursor user r q c)
unfolding persist_read_cursor
persist_read_cursor-IsKnown key id user r q c =
    kept-IsKnown key id c (persist_read_cursor user r q c) (ground arith)
      (rw (memory-persist_read_cursor user r q c) refl)

replayed-IsKnown :
    (key id : Text) (now : ℕ → ℕ) (q user : Text) (c : Chat) {d : Chat}
    → mark_replayed now q user c ≡ some d
    → IsKnown key id c
    → IsKnown key id d
unfolding mark_replayed
replayed-IsKnown key id now q user c {d} h =
    let same : d.memory ≡ c.memory = ground arith in
    kept-IsKnown key id c d (ground arith) (rw same refl)

room_row-IsKnown :
    (key id : Text) (now : ℕ → ℕ) (w : RoomWrite) (c : Chat) {d : Chat}
    → persist_room_message_for_recipient now w c ≡ some d
    → IsKnown key id c
    → IsKnown key id d
unfolding persist_room_message_for_recipient
room_row-IsKnown key id now w c {d} h =
    let same : d.memory ≡ c.memory = ground arith in
    kept-IsKnown key id c d (ground arith) (rw same refl)

room_history-IsKnown :
    (key id : Text) (now : ℕ → ℕ) (w : RoomWrite) (c : Chat) {d : Chat}
    → persist_room_message_canonical now w c ≡ some d
    → IsKnown key id c
    → IsKnown key id d
unfolding persist_room_message_canonical
room_history-IsKnown key id now w c {d} h =
    let same : d.memory ≡ c.memory = ground arith in
    kept-IsKnown key id c d (ground arith) (rw same refl)

pub step-IsKnown : (key id : Text) {c d : Chat} → Step c d → IsKnown key id c → IsKnown key id d
unfolding rollback_persisted_messages
step-IsKnown key id {c} (accept max_length now p u) k = accept-IsKnown key id max_length now p c k
step-IsKnown key id {c} (persist now m stored at) k = persist-IsKnown key id now m c k
step-IsKnown key id {c} (delivered_by now q user) k =
    elim (confirm_delivered_outcome now q user c) [
      | inl same ↦ rw same k
      | inr (m, e) ↦ rw e (deliver-IsKnown key id now q user m.row c m.done k)
    ]
step-IsKnown key id {c} (read_by now q user) k = elim (confirm_read_outcome now q user c) [
  | inl same ↦ rw same k
  | inr (inl (r, e)) ↦ rw e (persist_read_cursor-IsKnown key id user r q c k)
  | inr (inr (m, e)) ↦ rw e (
      persist_read_cursor-IsKnown key id user m.row q m.after
        (read_message-IsKnown key id now q user m.row c m.done k))
]
step-IsKnown key id {c} {d} (replayed now q user row at h) k =
    replayed-IsKnown key id now q user c h k
step-IsKnown key id {c} (room_row now w foreign h) k = room_row-IsKnown key id now w c h k
step-IsKnown key id {c} (room_history now w foreign h) k = room_history-IsKnown key id now w c h k
step-IsKnown key id {c} (rollback ids foreign) k = kept-IsKnown key id c _ refl refl k
step-IsKnown key id {c} (edit now q content h) k = kept-IsKnown key id c _ refl refl k
step-IsKnown key id {c} (fails now q h) k = kept-IsKnown key id c _ refl refl k
step-IsKnown key id {c} (remove now q h) k = kept-IsKnown key id c _ refl refl k
