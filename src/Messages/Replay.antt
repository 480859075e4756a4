-- ===== src/Messages/Replay.antt =====
-- The replay after a reconnect: backend/services/replay.service.js with the cache of
-- backend/websocket/state/messageStore.js, and `getOrLoadMessage` of
-- backend/websocket/services/message.service.js.
use relay_chatapp.Base.{
  ℕ, zero, suc, Bool, true, false, not, ◌&&◌, ◌||◌, Option, none, some, List, [], ◌∷◌, Text,
  text_dec, keep, length, get, put, if◌then◌else◌,
}
use relay_chatapp.Messages.Life.{delivered, is_delivered_or_read, missing}
use relay_chatapp.Messages.Rows.{
  direct, in_room, Draft, Row, Db, get_message, update_message_state, mark_message_delivered,
  is_message_delivered,
}
use relay_chatapp.Messages.Queries.{get_undelivered_messages, get_delivered_recipient_ids}
use relay_chatapp.Messages.Delivery.{
  DeliveryState, transition_state, is_pending_replay, record_delivery_failure, replay_failed,
}
use relay_chatapp.Messages.RoomCounts.{Entry, Progress, hydrate, record_delivery}
use relay_chatapp.Messages.Service.{Chat}

-- What goes to the sockets of a sender.
pub data Notice : Type 0 where
  state_update : Text → Notice
  room_update : Text → Text → Progress → Notice

-- The chat with the transport cache, the counts of the room messages and the notices, the last
-- one first. An entry of the cache is the row's data under its id.
pub record Hub : Type 0 where
  pub chat : Chat
  pub cache : List (Text × Draft)
  pub counts : List (Text × Entry)
  pub notices : List (Text × Notice)

-- A MESSAGE_RECEIVE or ROOM_MESSAGE with `isReplay`; its state is DELIVERED.
abbrev pub Replayed : Type 0
Replayed = Draft

pub data ReplayError : Type 0 where
  auth_required : ReplayError
  invalid_last_message_id : ReplayError

pub record ReplayResult : Type 0 where
  pub messages : List Replayed
  pub last_message_id : Option Text
  pub requested_after : Option Text

pub data ReplayAnswer : Type 0 where
  replay_error : ReplayError → ReplayAnswer
  replay_complete : ReplayResult → ReplayAnswer

-- the rows read again, with the state that the store has now
unfoldable pub reread : Db → List Row → List Row
unfolding get_message
reread db [] = []
reread db (r ∷ l) = elim (get_message r.draft.message_id db) [
  | none ↦ reread db l
  | some q ↦ record r { draft = record (r.draft) { state = q.draft.state } } ∷ reread db l
]

abbrev pub is_seen : Option Draft → Bool
is_seen none = false
is_seen (some d) = is_delivered_or_read d.state

-- the three guards of the loop
unfoldable pub may_replay : Text → Row → Hub → Bool
unfolding is_pending_replay is_message_delivered is_delivered_or_read get text_dec
may_replay user r h =
    is_pending_replay r.draft.message_id user h.chat.deliveries
    && not (is_message_delivered r.draft.message_id user h.chat.db)
    && not (is_seen (get text_dec r.draft.message_id h.cache))

-- `syncMessage` where the cache has no entry
unfoldable pub sync_missing : Row → Hub → Hub
unfolding get put text_dec
sync_missing r h = elim (get text_dec r.draft.message_id h.cache) [
  | none ↦ record h { cache = put text_dec r.draft.message_id r.draft h.cache }
  | some _ ↦ h
]

unfoldable pub sync_delivered : Text → Hub → Hub
unfolding get put text_dec
sync_delivered id h = elim (get text_dec id h.cache) [
  | none ↦ h
  | some d ↦ record h { cache = put text_dec id (record d { state = delivered }) h.cache }
]

unfoldable pub others : Text → List Text → List Text
unfolding keep text_dec
others sender members = keep (λ m. elim (text_dec m sender) [ yes _ ↦ false | no _ ↦ true ]) members

abbrev pub is_unknown : Option Entry → Bool
is_unknown none = true
is_unknown (some e) = elim (e.total_count) [ zero ↦ true | suc n ↦ false ]

-- the counts, filled from the store where the cache lost them
unfoldable pub fill_counts : Text → Text → Text → ℕ → Hub → List (Text × Entry)
unfolding get text_dec hydrate get_delivered_recipient_ids
fill_counts room_message room sender total h =
    if is_unknown (get text_dec room_message h.counts)
    then hydrate room_message room sender (get_delivered_recipient_ids room_message h.chat.db) total
        h.counts
    else h.counts

abbrev pub add_notice : Bool → Text × Notice → List (Text × Notice) → List (Text × Notice)
add_notice true n notices = n ∷ notices
add_notice false n notices = notices

-- the part of the loop for a room message
unfoldable pub count_replay : (Text → List Text) → Text → Row → Text → Text → Hub → Hub
unfolding others fill_counts record_delivery
count_replay members user r room room_message h =
    let sender = r.draft.sender_id in
    let total = length (others sender (members room)) in
    let (counts, p) =
      record_delivery room_message room sender user total
        (fill_counts room_message room sender total h) in
    record h {
      counts = counts;
      notices = add_notice p.complete (sender, room_update room room_message p) h.notices;
    }

-- who is told of the replay
unfoldable pub tell_sender : (Text → List Text) → Text → Row → Hub → Hub
unfolding count_replay
tell_sender members user r h = elim (r.draft.message_type) [
  | direct ↦ record h {
    notices =
        add_notice (not (missing r.draft.sender_id))
          (r.draft.sender_id, state_update r.draft.message_id) h.notices;
  }
  | in_room ↦ elim (r.draft.room_id) [
    | none ↦ h
    | some room ↦ elim (r.draft.room_message_id) [
      | none ↦ h
      | some room_message ↦
          if missing room || missing room_message || missing r.draft.sender_id
          then h
          else count_replay members user r room room_message h
    ]
  ]
]

abbrev pub with_chat : Chat → Hub → Hub
with_chat c h = record h { chat = c }

-- The chat once the message is marked; `none` where the store throws.
unfoldable pub mark_replayed : (ℕ → ℕ) → Text → Text → Chat → Option Chat
unfolding update_message_state mark_message_delivered transition_state
mark_replayed now id user c = elim (update_message_state (now 0) id delivered c.db) [
  | none ↦ none
  | some db ↦ some (record c {
    db = mark_message_delivered id user db;
    deliveries = (transition_state (now 1) id user DeliveryState.delivered c.deliveries).0;
  })
]

-- One message that passed the guards, and whether it goes out.
unfoldable pub replay_row : (Text → List Text) → (ℕ → ℕ) → Text → Row → Hub → Hub × Bool
unfolding sync_missing mark_replayed sync_delivered tell_sender record_delivery_failure
replay_row members now user r h =
    let h' = sync_missing r h in
    elim (mark_replayed now r.draft.message_id user h'.chat) [
      | none ↦ (
        with_chat
            (record (h'.chat) {
              deliveries =
                  record_delivery_failure r.draft.message_id user replay_failed h'.chat.deliveries;
            })
            h',
        false,
      )
      | some c ↦
          (tell_sender members user r (sync_delivered r.draft.message_id (with_chat c h')), true)
    ]

-- the loop
unfoldable pub replay_rows :
    (Text → List Text) → (ℕ → ℕ) → Text → List Row → Hub → Hub × List Replayed
unfolding may_replay replay_row
replay_rows members now user [] h = (h, [])
replay_rows members now user (r ∷ l) h =
    let (h', out) = if may_replay user r h then replay_row members now user r h else (h, false) in
    let (h'', rest) = replay_rows members now user l h' in
    (h'', if out then record (r.draft) { state = delivered } ∷ rest else rest)

-- the id of the last message of the list
unfoldable pub last_replayed : List Replayed → Option Text → Option Text
last_replayed [] last = last
last_replayed (d ∷ l) last = last_replayed l (some d.message_id)

abbrev pub limit_or_default : ℕ → ℕ
limit_or_default zero = 100
limit_or_default (suc n) = suc n

unfoldable pub replay_after :
    (Text → Text → Bool)
    → (Text → List Text)
    → (ℕ → ℕ)
    → Text
    → Option Text
    → ℕ
    → Hub
    → Hub × ReplayAnswer
unfolding get_undelivered_messages reread replay_rows last_replayed
replay_after first members now user after limit h =
    let rows = get_undelivered_messages first user after (limit_or_default limit) h.chat.db in
    let (h', messages) = replay_rows members now user (reread h.chat.db rows) h in
    (
      h',
      replay_complete (record {
        messages = messages;
        last_message_id = last_replayed messages after;
        requested_after = after;
      }),
    )

-- `lastMessageId` where it is no empty text
abbrev pub cursor_of : Option Text → Option Text
cursor_of none = none
cursor_of (some id) = if missing id then none else some id

unfoldable pub replay_messages :
    (Text → Text → Bool)
    → (Text → List Text)
    → (ℕ → ℕ)
    → Text
    → Option Text
    → ℕ
    → Hub
    → Hub × ReplayAnswer
unfolding get_message replay_after
replay_messages first members now user last limit h =
    if missing user then (h, replay_error auth_required) else elim (cursor_of last) [
      | none ↦ replay_after first members now user none limit h
      | some id ↦ elim (get_message id h.chat.db) [
        | none ↦ (h, replay_error invalid_last_message_id)
        | some _ ↦ replay_after first members now user (some id) limit h
      ]
    ]

unfoldable pub get_undelivered_count : (Text → Text → Bool) → Text → Option Text → Hub → ℕ
unfolding get_undelivered_messages
get_undelivered_count first user last h =
    if missing user
    then 0
    else length (get_undelivered_messages first user (cursor_of last) 1 h.chat.db)

-- `getOrLoadMessage`: from the cache, or from the store into the cache
unfoldable pub get_or_load_message : Text → Hub → Hub × Option Draft
unfolding get put text_dec get_message
get_or_load_message id h = elim (get text_dec id h.cache) [
  | some d ↦ (h, some d)
  | none ↦ elim (get_message id h.chat.db) [
    | none ↦ (h, none)
    | some r ↦ (record h { cache = put text_dec id r.draft h.cache }, some r.draft)
  ]
]
