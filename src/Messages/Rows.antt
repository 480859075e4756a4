-- ===== src/Messages/Rows.antt =====
-- The stored messages: the maps of backend/storage/message.store.js and the calls that change
-- them. The file that `persist` writes is left out.
use relay_chatapp.Base.{
  ℕ, Bool, ◌||◌, Option, none, some, List, [], ◌∷◌, ◌++◌, Text, codes, text_dec, contains, add, get,
  put, drop_key, if◌then◌else◌,
}
use relay_chatapp.Messages.Life.{MessageState, deleted, missing, is_blank}

pub data Kind : Type 0 where
  direct : Kind
  in_room : Kind

-- what `persistMessage` takes
pub record Draft : Type 0 where
  pub message_id : Text
  pub sender_id : Text
  pub recipient_id : Text
  pub content : Text
  pub timestamp : ℕ
  pub state : MessageState
  pub message_type : Kind
  pub room_id : Option Text
  pub room_message_id : Option Text
  pub chat_id : Text
  pub client_message_id : Option Text

pub record Row : Type 0 where
  pub draft : Draft
  pub updated_at : ℕ
  pub created_at : ℕ

pub record Db : Type 0 where
  pub message_by_id : List (Text × Row)
  pub client_message_ids : List (Text × Text)
  pub delivery_tracking : List (Text × List Text)

abbrev pub no_messages : Db
no_messages = record { message_by_id = []; client_message_ids = []; delivery_tracking = [] }

unfoldable pub idempotency_key : Text → Option Text → Option Text
unfolding is_blank
idempotency_key sender none = none
idempotency_key sender (some id) = if is_blank id then none else some (sender ++ codes ":" ++ id)

unfoldable pub get_message : Text → Db → Option Row
unfolding get text_dec
get_message id db = get text_dec id db.message_by_id

-- the row that the client's id of the message names
unfoldable pub row_of_key : Option Text → Db → Option Row
unfolding get_message get text_dec
row_of_key none db = none
row_of_key (some key) db = elim (get text_dec key db.client_message_ids) [
  | none ↦ none
  | some id ↦ if missing id then none else get_message id db
]

abbrev pub put_key : Option Text → Text → List (Text × Text) → List (Text × Text)
put_key none id keys = keys
put_key (some key) id keys = put text_dec key id keys

unfoldable pub insert_draft : ℕ → Draft → Db → Db
unfolding put text_dec idempotency_key
insert_draft now d db = record {
  message_by_id =
      put text_dec d.message_id (record { draft = d; updated_at = now; created_at = now })
        db.message_by_id;
  client_message_ids =
      put_key (idempotency_key d.sender_id d.client_message_id) d.message_id db.client_message_ids;
  delivery_tracking = put text_dec d.message_id [] db.delivery_tracking;
}

-- `none` is the error that the call throws.
unfoldable pub persist_message : ℕ → Draft → Db → Option Db
unfolding get_message row_of_key idempotency_key insert_draft
persist_message now d db =
    if missing d.message_id || missing d.sender_id || missing d.recipient_id || missing d.content
    then none
    else elim (get_message d.message_id db) [
      | some _ ↦ some db
      | none ↦ elim (row_of_key (idempotency_key d.sender_id d.client_message_id) db) [
        | some _ ↦ some db
        | none ↦ some (insert_draft now d db)
      ]
    ]

abbrev pub set_state : ℕ → MessageState → Row → Row
set_state now state row = record row {
  draft = record (row.draft) { state = state };
  updated_at = now;
}

-- A stored message is an object: a change to it shows in the map. `none` where there is none.
unfoldable pub change_row : Text → (Row → Row) → Db → Option Db
unfolding get_message put text_dec
change_row id f db = elim (get_message id db) [
  | none ↦ none
  | some r ↦ some (record db { message_by_id = put text_dec id (f r) db.message_by_id })
]

-- `none` is the error that the call throws.
unfoldable pub update_message_state : ℕ → Text → MessageState → Db → Option Db
unfolding change_row
update_message_state now id state db = change_row id (set_state now state) db

abbrev pub users_or_none : Option (List Text) → List Text
users_or_none none = []
users_or_none (some users) = users

unfoldable pub mark_message_delivered : Text → Text → Db → Db
unfolding get put add text_dec
mark_message_delivered id user db = record db {
  delivery_tracking =
      put text_dec id (add text_dec user (users_or_none (get text_dec id db.delivery_tracking)))
        db.delivery_tracking;
}

unfoldable pub is_message_delivered : Text → Text → Db → Bool
unfolding get contains text_dec
is_message_delivered id user db =
    contains text_dec user (users_or_none (get text_dec id db.delivery_tracking))

-- the loop of `deleteMessageSync`: the first key of the message goes
unfoldable pub drop_first_key : Text → List (Text × Text) → List (Text × Text)
unfolding text_dec
drop_first_key id [] = []
drop_first_key id ((key, mid) ∷ keys) = elim (text_dec mid id) [
  | yes _ ↦ keys
  | no _ ↦ (key, mid) ∷ drop_first_key id keys
]

unfoldable pub delete_message : Text → Db → Db
unfolding drop_key drop_first_key text_dec
delete_message id db = record {
  message_by_id = drop_key text_dec id db.message_by_id;
  client_message_ids = drop_first_key id db.client_message_ids;
  delivery_tracking = drop_key text_dec id db.delivery_tracking;
}

-- `deleteMessages` of db.file.js
unfoldable pub delete_messages : List Text → Db → Db
unfolding delete_message
delete_messages [] db = db
delete_messages (id ∷ ids) db = delete_messages ids (delete_message id db)

abbrev pub set_content : ℕ → Text → Row → Row
set_content now content r = record r {
  draft = record (r.draft) { content = content };
  updated_at = now;
}

unfoldable pub edit_message_content : ℕ → Text → Text → Db → Option Db
unfolding change_row
edit_message_content now id content db = change_row id (set_content now content) db

unfoldable pub soft_delete_message : ℕ → Text → Db → Option Db
unfolding update_message_state
soft_delete_message now id db = update_message_state now id deleted db
