-- ===== src/Messages/Queries.antt =====
-- The queries of backend/storage/message.store.js. How `localeCompare` orders ids is a parameter,
-- `first a b` for `a.localeCompare(b) <= 0`.
use relay_chatapp.Base.{
  ℕ, zero, suc, Bool, true, false, not, ◌&&◌, ◌||◌, Option, none, some, List, [], ◌∷◌, Text,
  text_dec, add, keep, map, length, ltb, leb, get, put, trim, if◌then◌else◌,
}
use relay_chatapp.Messages.Life.{is_delivered_or_read, is_before, missing}
use relay_chatapp.Messages.Rows.{Row, Db, users_or_none, is_message_delivered}

abbrev pub rows_of : Db → List Row
rows_of db = map (λ e. e.1) db.message_by_id

abbrev pub is_text : Text → Text → Bool
is_text s t = elim (text_dec s t) [ yes _ ↦ true | no _ ↦ false ]

abbrev pub is_room : Text → Option Text → Bool
is_room id none = false
is_room id (some room) = is_text room id

unfoldable pub insert_row : (Row → Row → Bool) → Row → List Row → List Row
insert_row before r [] = r ∷ []
insert_row before r (q ∷ l) =
    let rest = insert_row before r l in if before r q then r ∷ q ∷ l else q ∷ rest

-- `list.sort(cmp)`, which is stable; `before a b` stands for `cmp(a, b) <= 0`
unfoldable pub sort_rows : (Row → Row → Bool) → List Row → List Row
unfolding insert_row
sort_rows before [] = []
sort_rows before (r ∷ l) = insert_row before r (sort_rows before l)

-- `list.slice(0, n)`
unfoldable pub first_rows : ℕ → List Row → List Row
first_rows zero l = []
first_rows (suc n) [] = []
first_rows (suc n) (r ∷ l) = r ∷ first_rows n l

abbrev pub is_after : Option Text → Text → Bool
is_after none id = true
is_after (some after) id = missing after || is_before after id

unfoldable pub is_undelivered : Text → Option Text → Db → Row → Bool
unfolding text_dec is_before is_message_delivered is_delivered_or_read
is_undelivered recipient after db r =
    is_text r.draft.recipient_id recipient
    && is_after after r.draft.message_id
    && not (is_message_delivered r.draft.message_id recipient db)
    && not (is_delivered_or_read r.draft.state)

abbrev pub by_id : (Text → Text → Bool) → Row → Row → Bool
by_id first r q = first r.draft.message_id q.draft.message_id

unfoldable pub get_undelivered_messages :
    (Text → Text → Bool) → Text → Option Text → ℕ → Db → List Row
unfolding keep is_undelivered sort_rows first_rows
get_undelivered_messages first recipient after limit db =
    first_rows limit
      (sort_rows (by_id first) (keep (is_undelivered recipient after db) (rows_of db)))

abbrev pub by_time : Row → Row → Bool
by_time r q = leb r.draft.timestamp q.draft.timestamp

unfoldable pub get_messages_for_recipient : Text → Db → List Row
unfolding keep sort_rows text_dec
get_messages_for_recipient user db =
    sort_rows by_time (keep (λ r. is_text r.draft.recipient_id user) (rows_of db))

unfoldable pub get_messages_for_sender : Text → Db → List Row
unfolding keep sort_rows text_dec
get_messages_for_sender user db =
    sort_rows by_time (keep (λ r. is_text r.draft.sender_id user) (rows_of db))

unfoldable pub get_messages_by_chat_id : Text → Db → List Row
unfolding keep sort_rows text_dec
get_messages_by_chat_id chat db =
    if missing chat
    then []
    else sort_rows by_time (keep (λ r. is_text r.draft.chat_id chat) (rows_of db))

-- `message.roomMessageId || messageId`
abbrev pub room_row_id : Row → Text
room_row_id r = elim (r.draft.room_message_id) [
  | none ↦ r.draft.message_id
  | some id ↦ if missing id then r.draft.message_id else id
]

-- the first row of each room message
unfoldable pub one_per_room_message : List Row → List (Text × Row) → List (Text × Row)
unfolding get put text_dec
one_per_room_message [] seen = seen
one_per_room_message (r ∷ l) seen =
    one_per_room_message l (elim (get text_dec (room_row_id r) seen) [
      | none ↦ put text_dec (room_row_id r) r seen
      | some _ ↦ seen
    ])

unfoldable pub get_messages_by_room_id : Text → Db → List Row
unfolding keep sort_rows one_per_room_message text_dec
get_messages_by_room_id room db =
    if missing room
    then []
    else sort_rows by_time (
        map (λ e. e.1)
          (one_per_room_message (keep (λ r. is_room room r.draft.room_id) (rows_of db)) []))

unfoldable pub add_all_users : List Text → List Text → List Text
unfolding add text_dec
add_all_users [] users = users
add_all_users (u ∷ more) users = add_all_users more (add text_dec u users)

-- the loop of `getDeliveredRecipientIdsForRoomMessageSync`
unfoldable pub receivers : Text → (Text → List Text) → List Row → List Text → List Text
unfolding add_all_users add text_dec is_delivered_or_read
receivers room_message tracked [] users = users
receivers room_message tracked (r ∷ l) users = receivers room_message tracked l (
    if is_room room_message r.draft.room_message_id || is_room room_message r.draft.room_id
    then add_all_users (tracked r.draft.message_id) (
        if is_delivered_or_read r.draft.state && not (missing r.draft.recipient_id)
        then add text_dec r.draft.recipient_id users
        else users)
    else users)

unfoldable pub get_delivered_recipient_ids : Text → Db → List Text
unfolding receivers get text_dec
get_delivered_recipient_ids room_message db =
    if missing room_message
    then []
    else receivers room_message (λ id. users_or_none (get text_dec id db.delivery_tracking))
        (rows_of db) []

pub record Page : Type 0 where
  pub messages : List Row
  pub next_cursor : Option Text
  pub has_more : Bool

-- `Math.min(100, Math.max(1, parseInt(options.limit, 10) || 50))`
unfoldable pub page_limit : ℕ → ℕ
page_limit zero = 50
page_limit (suc n) = if ltb 100 (suc n) then 100 else suc n

-- the rows that follow the one of the id
unfoldable pub rows_after : Text → List Row → Option (List Row)
unfolding text_dec
rows_after id [] = none
rows_after id (r ∷ l) = elim (text_dec r.draft.message_id id) [
  | yes _ ↦ some l
  | no _ ↦ rows_after id l
]

-- the rows from `startIndex` on
unfoldable pub rows_from : Option Text → List Row → List Row
unfolding rows_after trim
rows_from none l = l
rows_from (some id) l =
    if missing (trim id) then l else elim (rows_after (trim id) l) [ none ↦ l | some rest ↦ rest ]

unfoldable pub last_id : List Row → Option Text
last_id [] = none
last_id (r ∷ l) = elim (last_id l) [ none ↦ some r.draft.message_id | some id ↦ some id ]

unfoldable pub page_of : ℕ → List Row → Page
unfolding first_rows last_id
page_of limit rest = record {
  messages = first_rows limit rest;
  next_cursor = if ltb limit (length rest) then last_id (first_rows limit rest) else none;
  has_more = ltb limit (length rest);
}

-- newest first, and for one time the greater id first
abbrev pub newest_first : (Text → Text → Bool) → Row → Row → Bool
newest_first first r q =
    if ltb q.draft.timestamp r.draft.timestamp
    then true
    else if ltb r.draft.timestamp q.draft.timestamp
    then false
    else first q.draft.message_id r.draft.message_id

unfoldable pub history : (Text → Text → Bool) → Text → Db → List Row
unfolding keep sort_rows text_dec
history first recipient db =
    sort_rows (newest_first first) (keep (λ r. is_text r.draft.recipient_id recipient) (rows_of db))

unfoldable pub get_history_paginated : (Text → Text → Bool) → Text → ℕ → Option Text → Db → Page
unfolding history rows_from page_of page_limit
get_history_paginated first recipient limit before db =
    page_of (page_limit limit) (rows_from before (history first recipient db))
