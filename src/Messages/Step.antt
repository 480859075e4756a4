-- ===== src/Messages/Step.antt =====
-- What may happen to a chat, one call after another. The calls of a message run from its receipt
-- to its acknowledgement with other calls between them. A generated id is new to both stores, and
-- the room handler draws its ids apart from those of direct messages. A replay may mark a row that
-- has been read since the store gave it; a send that fails marks the row FAILED in whatever state.
use relay_chatapp.Base.{◌≡◌, ℕ, false, none, some, List, Text, text_dec, get, All}
use relay_chatapp.Messages.Life.{failed, is_delivered_or_read}
use relay_chatapp.Messages.Rows.{
  Db, Row, get_message, edit_message_content, soft_delete_message, update_message_state,
}
use relay_chatapp.Messages.Service.{
  Message, Chat, no_chat, Sending, accept_incoming_message, persist_and_return_ack,
}
use relay_chatapp.Messages.Receipts.{
  RoomWrite, confirm_delivered, confirm_read, persist_room_message_for_recipient,
  persist_room_message_canonical, rollback_persisted_messages,
}
use relay_chatapp.Messages.Replay.{mark_replayed}

abbrev pub IsUnused : Text → Chat → Type 0
IsUnused id c = (get text_dec id c.memory ≡ none) × (get_message id c.db ≡ none)

abbrev pub IsForeign : Text → Chat → Type 0
IsForeign id c = get text_dec id c.memory ≡ none

pub data Step (c : Chat) : Chat → Type 0 where
  accept :
      (max_length now : ℕ) (p : Sending)
      → IsUnused p.fresh_id c
      → Step c (accept_incoming_message max_length now p c).0
  persist :
      (now : ℕ → ℕ) (m stored : Message)
      → get text_dec m.message_id c.memory ≡ some stored
      → Step c (persist_and_return_ack now m c).0
  delivered_by : (now : ℕ → ℕ) (id user : Text) → Step c (confirm_delivered now id user c).0
  read_by : (now : ℕ → ℕ) (id user : Text) → Step c (confirm_read now id user c).0
  replayed :
      (now : ℕ → ℕ) (id user : Text) (row : Row) {d : Chat}
      → get_message id c.db ≡ some row
      → mark_replayed now id user c ≡ some d
      → Step c d
  room_row :
      (now : ℕ → ℕ) (w : RoomWrite) {d : Chat}
      → IsForeign w.message_id c
      → persist_room_message_for_recipient now w c ≡ some d
      → Step c d
  room_history :
      (now : ℕ → ℕ) (w : RoomWrite) {d : Chat}
      → IsForeign w.room_message_id c
      → persist_room_message_canonical now w c ≡ some d
      → Step c d
  rollback :
      (ids : List Text)
      → All (λ id. IsForeign id c) ids
      → Step c (rollback_persisted_messages ids c)
  fails :
      (now : ℕ) (id : Text) {db : Db}
      → update_message_state now id failed c.db ≡ some db
      → Step c (record c { db = db })
  edit :
      (now : ℕ) (id content : Text) {db : Db}
      → edit_message_content now id content c.db ≡ some db
      → Step c (record c { db = db })
  remove :
      (now : ℕ) (id : Text) {db : Db}
      → soft_delete_message now id c.db ≡ some db
      → Step c (record c { db = db })

pub data Reach : Chat → Type 0 where
  start : Reach no_chat
  next : {c d : Chat} → Reach c → Step c d → Reach d

-- A replay marks its row before the row is delivered or read otherwise.
unfoldable pub IsTimely : {c d : Chat} → Step c d → Type 0
IsTimely (replayed now id user row at h) = is_delivered_or_read row.draft.state ≡ false
IsTimely _ = Unit
