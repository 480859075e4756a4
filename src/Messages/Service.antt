-- ===== src/Messages/Service.antt =====
-- The life of a message on the server: backend/services/message.service.js.
use relay_chatapp.Base.{
  ℕ, zero, suc, Bool, true, false, ◌||◌, Option, none, some, List, [], Text, text_dec, length, ltb,
  get, put, if◌then◌else◌,
}
use relay_chatapp.Messages.Life.{
  MessageState, sending, sent, delivered, read, deleted, failed, is_blank, missing,
  to_direct_chat_id,
}
use relay_chatapp.Messages.Rows.{
  direct, Draft, Db, no_messages, idempotency_key, persist_message, update_message_state,
  mark_message_delivered,
}
use relay_chatapp.Messages.Delivery.{Deliveries, no_deliveries, create_delivery}
use relay_chatapp.Messages.RoomCounts.{Mark}

-- the message of `messageStore`; all of them are direct
pub record Message : Type 0 where
  pub message_id : Text
  pub sender_id : Text
  pub recipient_id : Text
  pub content : Text
  pub timestamp : ℕ
  pub state : MessageState
  pub client_message_id : Option Text

-- A row of backend/chat/readCursorStore.mongo.js, under the user and the chat.
pub record Cursor : Type 0 where
  pub last_message : Text
  pub last_read_at : ℕ

-- What the service and the stores under it keep: `messageStore` and `clientMessageIdMap`, the
-- database, the deliveries, the marks of the room messages and the read cursors.
pub record Chat : Type 0 where
  pub memory : List (Text × Message)
  pub client_ids : List (Text × Text)
  pub db : Db
  pub deliveries : Deliveries
  pub marks : List (Text × Mark)
  pub cursors : List ((Text × Text) × Cursor)

abbrev pub no_chat : Chat
no_chat = record {
  memory = [];
  client_ids = [];
  db = no_messages;
  deliveries = no_deliveries;
  marks = [];
  cursors = [];
}

pub data Refusal : Type 0 where
  no_sender : Refusal
  no_receiver : Refusal
  same_user : Refusal
  no_content : Refusal
  content_too_long : Refusal

pub data Intake : Type 0 where
  refused : Refusal → Intake
  duplicate : Message → Intake
  accepted : Message → Intake

-- the message that the client's id of an earlier send names
unfoldable pub known_message : Option Text → Chat → Option Message
unfolding get text_dec
known_message none c = none
known_message (some key) c = elim (get text_dec key c.client_ids) [
  | none ↦ none
  | some id ↦ if missing id then none else get text_dec id c.memory
]

-- `clientMessageId || undefined`
abbrev pub text_or_none : Option Text → Option Text
text_or_none none = none
text_or_none (some id) = if missing id then none else some id

abbrev pub put_client_id : Option Text → Text → List (Text × Text) → List (Text × Text)
put_client_id none id ids = ids
put_client_id (some key) id ids = put text_dec key id ids

-- What the client sends, and the id that `generateMessageId` draws for it.
pub record Sending : Type 0 where
  pub sender_id : Text
  pub receiver_id : Text
  pub client_message_id : Option Text
  pub content : Text
  pub fresh_id : Text

abbrev pub new_message : ℕ → Sending → Message
new_message now p = record {
  message_id = p.fresh_id;
  sender_id = p.sender_id;
  recipient_id = p.receiver_id;
  content = p.content;
  timestamp = now;
  state = sending;
  client_message_id = text_or_none p.client_message_id;
}

unfoldable pub store_new : ℕ → Sending → Chat → Chat
unfolding put text_dec idempotency_key
store_new now p c = record c {
  memory = put text_dec p.fresh_id (new_message now p) c.memory;
  client_ids =
      put_client_id (idempotency_key p.sender_id p.client_message_id) p.fresh_id c.client_ids;
}

-- the checks of `acceptIncomingMessage`
unfoldable pub refusal_of : ℕ → Sending → Option Refusal
unfolding is_blank text_dec
refusal_of max_length p =
    if is_blank p.sender_id
    then some no_sender
    else if is_blank p.receiver_id
    then some no_receiver
    else elim (text_dec p.sender_id p.receiver_id) [
      | yes _ ↦ some same_user
      | no _ ↦
          if is_blank p.content
          then some no_content
          else if ltb max_length (length p.content)
          then some content_too_long
          else none
    ]

unfoldable pub accept_incoming_message : ℕ → ℕ → Sending → Chat → Chat × Intake
unfolding refusal_of known_message idempotency_key store_new
accept_incoming_message max_length now p c = elim (refusal_of max_length p) [
  | some why ↦ (c, refused why)
  | none ↦ elim (known_message (idempotency_key p.sender_id p.client_message_id) c) [
    | some m ↦ (c, duplicate m)
    | none ↦ (store_new now p c, accepted (new_message now p))
  ]
]

-- A MESSAGE_ACK; its state is SENT.
pub record Ack : Type 0 where
  pub message_id : Text
  pub client_message_id : Option Text
  pub timestamp : ℕ
  pub duplicate : Bool

abbrev pub is_persisted : MessageState → Bool
is_persisted sending = false
is_persisted sent = true
is_persisted delivered = true
is_persisted read = true
is_persisted deleted = false
is_persisted failed = false

unfoldable pub has_valid_shape : Message → Bool
unfolding is_blank text_dec
has_valid_shape m =
    if is_blank m.message_id || is_blank m.sender_id || is_blank m.recipient_id
    then false
    else elim (text_dec m.sender_id m.recipient_id) [ yes _ ↦ false | no _ ↦ true ]

-- the row that `persistAndReturnAck` writes
abbrev pub draft_of : Message → Draft
draft_of m = record {
  message_id = m.message_id;
  sender_id = m.sender_id;
  recipient_id = m.recipient_id;
  content = m.content;
  timestamp = m.timestamp;
  state = sent;
  message_type = direct;
  room_id = none;
  room_message_id = none;
  chat_id = to_direct_chat_id m.sender_id m.recipient_id;
  client_message_id = m.client_message_id;
}

abbrev pub time_or : ℕ → ℕ → ℕ
time_or zero t = t
time_or (suc n) t = suc n

abbrev pub first_ack : Message → Ack
first_ack m = record {
  message_id = m.message_id;
  client_message_id = m.client_message_id;
  timestamp = m.timestamp;
  duplicate = false;
}

abbrev pub second_ack : Message → Message → Ack
second_ack stored m = record {
  message_id = m.message_id;
  client_message_id = m.client_message_id;
  timestamp = time_or stored.timestamp m.timestamp;
  duplicate = true;
}

-- `stored.state = SENT`, or the message itself where none is stored
abbrev pub sent_message : Option Message → Message → Message
sent_message none m = record m { state = sent }
sent_message (some stored) m = record stored { state = sent }

abbrev pub mark_self : Message → Db → Db
mark_self m db = elim (text_dec m.recipient_id m.sender_id) [
  | yes _ ↦ mark_message_delivered m.message_id m.sender_id db
  | no _ ↦ db
]

-- The state may change before the call throws (`none`).
unfoldable pub persist_new : (ℕ → ℕ) → Message → Chat → Chat × Option Ack
unfolding persist_message create_delivery update_message_state mark_message_delivered get put
    text_dec
persist_new now m c = elim (persist_message (now 0) (draft_of m) c.db) [
  | none ↦ (c, none)
  | some db ↦
      let deliveries = create_delivery (now 1) m.message_id m.recipient_id c.deliveries in
      elim (update_message_state (now 2) m.message_id sent db) [
        | none ↦ (record c { db = db; deliveries = deliveries }, none)
        | some db' ↦ (
          record c {
            db = mark_self m db';
            deliveries = deliveries;
            memory =
                put text_dec m.message_id (sent_message (get text_dec m.message_id c.memory) m)
                  c.memory;
          },
          some (first_ack m),
        )
      ]
]

unfoldable pub persist_and_return_ack : (ℕ → ℕ) → Message → Chat → Chat × Option Ack
unfolding has_valid_shape persist_new get text_dec
persist_and_return_ack now m c =
    if has_valid_shape m
    then elim (get text_dec m.message_id c.memory) [
      | none ↦ persist_new now m c
      | some stored ↦
          let first = persist_new now m c in
          if is_persisted stored.state then (c, some (second_ack stored m)) else first
    ]
    else (c, none)
