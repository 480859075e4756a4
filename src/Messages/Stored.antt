-- ===== src/Messages/Stored.antt =====
-- Which messages the store has, after each of its calls (backend/storage/message.store.js).
use relay_chatapp.Base.{
  ◌≡◌, ◌≢◌, ◌⊎◌, refl, ◌∙◌, ℕ, Bool, true, false, Option, none, some, List, [], ◌∷◌, Text, text_dec,
  put, get-put, get-drop_key, inl, inr, Option-cases, All, arith,
}
use relay_chatapp.Messages.Rows.{
  Draft, Row, Db, change_row, get_message, idempotency_key, row_of_key, insert_draft,
  persist_message, delete_message, delete_messages,
}

abbrev pub is_some {ℓ} : {A : Type ℓ} → Option A → Bool
is_some none = false
is_some (some a) = true

abbrev pub has : Text → Db → Bool
has id db = is_some (get_message id db)

abbrev pub map_row : (Row → Row) → Option Row → Option Row
map_row f none = none
map_row f (some r) = some (f r)

-- the rows after a change of one
pub get-change_row :
    (id q : Text) (f : Row → Row) (db : Db) {db' : Db}
    → change_row id f db ≡ some db'
    → get_message q db'
      ≡ (elim (text_dec q id) [ yes _ ↦ map_row f (get_message q db) | no _ ↦ get_message q db ])
unfolding change_row get_message
get-change_row id q f db {db'} h = elim (Option-cases (get_message id db)) [
  | inl e ↦ absurd (ground arith)
  | inr (r, e) ↦
      let same : record db { message_by_id = put text_dec id (f r) db.message_by_id } ≡ db' =
        ground arith in
      rw (← same) (rw (get-put text_dec id q (f r) db.message_by_id) (ground arith))
]

pub has-change_row :
    (id q : Text) (f : Row → Row) (db : Db) {db' : Db}
    → change_row id f db ≡ some db'
    → has q db' ≡ has q db
has-change_row id q f db h = rw (get-change_row id q f db h) (ground arith)

pub has-of-change_row :
    (id : Text) (f : Row → Row) (db : Db) {db' : Db}
    → change_row id f db ≡ some db'
    → has id db ≡ true
unfolding change_row
has-of-change_row id f db h = ground arith

pub has-of-change_row-none :
    (id : Text) (f : Row → Row) (db : Db) → change_row id f db ≡ none → has id db ≡ false
unfolding change_row
has-of-change_row-none id f db h = ground arith

pub get-insert_draft :
    (now : ℕ) (d : Draft) (q : Text) (db : Db)
    → get_message q (insert_draft now d db) ≡ (elim (text_dec q d.message_id) [
      | yes _ ↦ some (record { draft = d; updated_at = now; created_at = now })
      | no _ ↦ get_message q db
    ])
unfolding insert_draft get_message
get-insert_draft now d q db = get-put text_dec d.message_id q _ db.message_by_id

-- A message is persisted, or one with its client's id is there, or it is there itself.
pub persist_message_cases :
    (now : ℕ) (d : Draft) (db : Db) {db' : Db}
    → persist_message now d db ≡ some db'
    → (db' ≡ db) ⊎ ((get_message d.message_id db ≡ none) × (db' ≡ insert_draft now d db))
unfolding persist_message
persist_message_cases now d db h = elim (Option-cases (get_message d.message_id db)) [
  | inl e ↦ elim (Option-cases (row_of_key (idempotency_key d.sender_id d.client_message_id) db)) [
    | inl k ↦ inr (e, ground arith)
    | inr (r, k) ↦ inl (ground arith)
  ]
  | inr (r, e) ↦ inl (ground arith)
]

pub get-delete_messages :
    (ids : List Text) (q : Text) (db : Db)
    → All (λ id. q ≢ id) ids
    → get_message q (delete_messages ids db) ≡ get_message q db
unfolding delete_messages delete_message get_message
get-delete_messages [] q db h = refl
get-delete_messages (id ∷ ids) q db h =
    get-delete_messages ids q (delete_message id db) h.1
    ∙ rw (get-drop_key text_dec id q db.message_by_id) (ground arith)

pub tracking-change_row :
    (id : Text) (f : Row → Row) (db : Db) {db' : Db}
    → change_row id f db ≡ some db'
    → db'.delivery_tracking ≡ db.delivery_tracking
unfolding change_row
tracking-change_row id f db h = ground arith
