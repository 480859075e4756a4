-- ===== src/Messages/Receipts.antt =====
-- The receipts of backend/services/message.service.js: confirmDeliveredAndReturnAck,
-- confirmReadAndReturnAck and what they call; and the writes for rooms.
use relay_chatapp.Base.{
  ℕ, Bool, true, false, not, ◌||◌, Option, none, some, List, Text, text_dec, ℕ_discrete, leb, get,
  put, trim, if◌then◌else◌,
}
use relay_chatapp.Messages.Life.{
  MessageState, sent, delivered, read, is_valid_transition, is_delivered_or_read, is_blank, missing,
  to_direct_chat_id, to_room_chat_id,
}
use relay_chatapp.Messages.Rows.{
  direct, in_room, Draft, Row, get_message, persist_message, update_message_state,
  mark_message_delivered, delete_messages,
}
use relay_chatapp.Messages.Delivery.{
  DeliveryState, Deliveries, create_delivery, transition_state, force_mark_as_read,
}
use relay_chatapp.Messages.RoomCounts.{Mark, set_mark}
use relay_chatapp.Messages.Service.{Message, Cursor, Chat}

pub data Problem : Type 0 where
  ids_required : Problem
  not_found : Problem
  not_authorized : Problem
  room_read : Problem
  invalid_transition : MessageState → Problem

-- What the payloads of a confirmation say: the state that the reader and the sender are told,
-- whether it was so already, the time and the room.
pub record Receipt : Type 0 where
  pub state : MessageState
  pub sender_state : MessageState
  pub already : Bool
  pub timestamp : ℕ
  pub room_id : Option Text
  pub room_message_id : Option Text

pub data Confirmation : Type 0 where
  failed : Problem → Confirmation
  confirmed : Receipt → Confirmation

abbrev pub receipt : Row → MessageState → MessageState → Bool → ℕ → Confirmation
receipt r state sender_state already at = confirmed (record {
  state = state;
  sender_state = sender_state;
  already = already;
  timestamp = at;
  room_id = r.draft.room_id;
  room_message_id = r.draft.room_message_id;
})

-- `dbMessage.roomId || dbMessage.messageType === 'room'`
abbrev pub is_room_row : Row → Bool
is_room_row r = elim (r.draft.room_id) [
  | none ↦ elim (r.draft.message_type) [ direct ↦ false | in_room ↦ true ]
  | some room ↦
      not (missing room) || (elim (r.draft.message_type) [ direct ↦ false | in_room ↦ true ])
]

-- the copy in memory follows if its own state allows the step
unfoldable pub advance_memory : Text → MessageState → List (Text × Message) → List (Text × Message)
unfolding get put text_dec is_valid_transition
advance_memory id state memory = elim (get text_dec id memory) [
  | none ↦ memory
  | some m ↦
      if is_valid_transition m.state state
      then put text_dec id (record m { state = state }) memory
      else memory
]

-- the change that confirmDeliveredAndReturnAck makes; `none` is a thrown error
unfoldable pub deliver : (ℕ → ℕ) → Text → Text → Row → Chat → Option Chat
unfolding update_message_state mark_message_delivered transition_state advance_memory set_mark
deliver now id user r c = elim (update_message_state (now 0) id delivered c.db) [
  | none ↦ none
  | some db ↦ some (record c {
    db = mark_message_delivered id user db;
    deliveries = (transition_state (now 1) id user DeliveryState.delivered c.deliveries).0;
    memory = advance_memory id delivered c.memory;
    marks = if is_room_row r then set_mark id Mark.delivered c.marks else c.marks;
  })
]

unfoldable pub confirm_delivered : (ℕ → ℕ) → Text → Text → Chat → Chat × Option Confirmation
unfolding get_message text_dec is_delivered_or_read is_valid_transition deliver
confirm_delivered now id user c =
    if missing id || missing user
    then (c, some (failed ids_required))
    else elim (get_message id c.db) [
      | none ↦ (c, some (failed not_found))
      | some r ↦ elim (text_dec r.draft.recipient_id user) [
        | no _ ↦ (c, some (failed not_authorized))
        | yes _ ↦
            if is_delivered_or_read r.draft.state
            then (c, some (receipt r r.draft.state delivered true (now 0)))
            else if is_valid_transition r.draft.state delivered
            then elim (deliver now id user r c) [
              | none ↦ (c, none)
              | some c' ↦ (c', some (receipt r delivered delivered false (now 2)))
            ]
            else (c, some (failed (invalid_transition r.draft.state)))
      ]
    ]

unfoldable pub cursor_dec : Discrete (Text × Text)
cursor_dec = hlevel ℕ_discrete

abbrev pub is_stale : Option Cursor → Text → ℕ → Bool
is_stale none id at = false
is_stale (some k) id at =
    leb at k.last_read_at || (elim (text_dec k.last_message id) [ yes _ ↦ true | no _ ↦ false ])

-- `persistReadCursorForDm`, with the row of `upsertCursor`
unfoldable pub persist_read_cursor : Text → Row → Text → Chat → Chat
unfolding text_dec cursor_dec get put to_direct_chat_id trim
persist_read_cursor reader r id c =
    let chat = to_direct_chat_id r.draft.sender_id r.draft.recipient_id in
    let key : Text × Text = (trim reader, trim chat) in
    if missing r.draft.sender_id || missing r.draft.recipient_id || is_room_row r
    then c
    else if missing chat || is_stale (get cursor_dec key c.cursors) id r.draft.timestamp
    then c
    else record c {
      cursors =
          put cursor_dec key (record { last_message = id; last_read_at = r.draft.timestamp })
            c.cursors;
    }

-- the delivery goes to READ, by force where its state does not allow it
unfoldable pub read_delivery : (ℕ → ℕ) → Text → Text → Deliveries → Deliveries
unfolding transition_state force_mark_as_read
read_delivery now id user ds =
    let (ds', done) = transition_state (now 1) id user DeliveryState.read ds in
    let forced = (force_mark_as_read (now 2) id user ds').0 in if done then ds' else forced

-- the change that confirmReadAndReturnAck makes; `none` is a thrown error
unfoldable pub read_message : (ℕ → ℕ) → Text → Text → Row → Chat → Option Chat
unfolding update_message_state mark_message_delivered read_delivery advance_memory set_mark
read_message now id user r c = elim (update_message_state (now 0) id read c.db) [
  | none ↦ none
  | some db ↦ some (record c {
    db = mark_message_delivered id user db;
    deliveries = read_delivery now id user c.deliveries;
    memory = advance_memory id read c.memory;
    marks = if is_room_row r then set_mark id Mark.read c.marks else c.marks;
  })
]

abbrev pub is_read : MessageState → Bool
is_read read = true
is_read _ = false

unfoldable pub confirm_read : (ℕ → ℕ) → Text → Text → Chat → Chat × Option Confirmation
unfolding get_message text_dec is_valid_transition read_message persist_read_cursor
confirm_read now id user c =
    if missing id || missing user
    then (c, some (failed ids_required))
    else elim (get_message id c.db) [
      | none ↦ (c, some (failed not_found))
      | some r ↦
          if is_room_row r
          then (c, some (failed room_read))
          else elim (text_dec r.draft.recipient_id user) [
            | no _ ↦ (c, some (failed not_authorized))
            | yes _ ↦
                if is_read r.draft.state
                then (persist_read_cursor user r id c, some (receipt r read read true (now 0)))
                else if is_valid_transition r.draft.state read
                then elim (read_message now id user r c) [
                  | none ↦ (c, none)
                  | some c' ↦
                      (persist_read_cursor user r id c', some (receipt r read read false (now 3)))
                ]
                else (c, some (failed (invalid_transition r.draft.state)))
          ]
    ]

-- What the room handler gives to persist.
pub record RoomWrite : Type 0 where
  pub message_id : Text
  pub sender_id : Text
  pub recipient_id : Text
  pub content : Text
  pub timestamp : ℕ
  pub room_id : Text
  pub room_message_id : Text
  pub client_message_id : Option Text

-- `effectiveClientMessageId`
abbrev pub client_id_or : Option Text → Text → Text
client_id_or none id = id
client_id_or (some k) id = if is_blank k then id else k

unfoldable pub room_draft : Text → Text → RoomWrite → Draft
unfolding is_blank to_room_chat_id
room_draft id recipient w = record {
  message_id = id;
  sender_id = w.sender_id;
  recipient_id = recipient;
  content = w.content;
  timestamp = w.timestamp;
  state = sent;
  message_type = in_room;
  room_id = some w.room_id;
  room_message_id = some w.room_message_id;
  chat_id = to_room_chat_id w.room_id;
  client_message_id = some (client_id_or w.client_message_id id);
}

-- `none` is a thrown error
unfoldable pub persist_room_message_for_recipient : (ℕ → ℕ) → RoomWrite → Chat → Option Chat
unfolding persist_message create_delivery room_draft
persist_room_message_for_recipient now w c =
    if missing w.message_id || missing w.sender_id || missing w.recipient_id || missing w.content
    then none
    else elim (persist_message (now 0) (room_draft w.message_id w.recipient_id w) c.db) [
      | none ↦ none
      | some db ↦ some (record c {
        db = db;
        deliveries = create_delivery (now 1) w.message_id w.recipient_id c.deliveries;
      })
    ]

unfoldable pub persist_room_message_canonical : (ℕ → ℕ) → RoomWrite → Chat → Option Chat
unfolding persist_message room_draft
persist_room_message_canonical now w c =
    if missing w.room_id || missing w.room_message_id || missing w.sender_id
    then none
    else elim (persist_message (now 0) (room_draft w.room_message_id w.room_id w) c.db) [
      | none ↦ none
      | some db ↦ some (record c { db = db })
    ]

unfoldable pub rollback_persisted_messages : List Text → Chat → Chat
unfolding delete_messages
rollback_persisted_messages ids c = record c { db = delete_messages ids c.db }
