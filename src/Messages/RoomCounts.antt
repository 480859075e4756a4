-- ===== src/Messages/RoomCounts.antt =====
-- Who has received a room message: backend/websocket/state/roomDeliveryStore.js, and the marks of
-- backend/websocket/state/deliveryStore.js.
use relay_chatapp.Base.{
  ℕ, zero, suc, Bool, ◌&&◌, Option, none, some, List, [], ◌∷◌, Text, text_dec, add, length, leb,
  ltb, get, put, if◌then◌else◌,
}
use relay_chatapp.Messages.Life.{missing}

pub data Mark : Type 0 where
  sent : Mark
  delivered : Mark
  read : Mark

-- `stateOrder`
abbrev pub mark_order : Mark → ℕ
mark_order sent = 1
mark_order delivered = 2
mark_order read = 3

abbrev pub order_or_zero : Option Mark → ℕ
order_or_zero none = 0
order_or_zero (some m) = mark_order m

unfoldable pub set_mark : Text → Mark → List (Text × Mark) → List (Text × Mark)
unfolding get put text_dec
set_mark id m marks =
    if missing id
    then marks
    else if leb (order_or_zero (get text_dec id marks)) (mark_order m)
    then put text_dec id m marks
    else marks

pub record Entry : Type 0 where
  pub room_id : Text
  pub sender_id : Text
  pub total_count : ℕ
  pub delivered_set : List Text

abbrev pub fill_total : ℕ → Entry → Entry
fill_total total e = elim (e.total_count) [ zero ↦ record e { total_count = total } | suc n ↦ e ]

-- the entry that the call returns
unfoldable pub entry_of : Text → Text → Text → ℕ → List (Text × Entry) → Entry
unfolding get text_dec
entry_of id room sender total entries = elim (get text_dec id entries) [
  | none ↦ record { room_id = room; sender_id = sender; total_count = total; delivered_set = [] }
  | some e ↦ fill_total total e
]

unfoldable pub init_or_get : Text → Text → Text → ℕ → List (Text × Entry) → List (Text × Entry)
unfolding entry_of put text_dec
init_or_get id room sender total entries =
    put text_dec id (entry_of id room sender total entries) entries

abbrev pub receive : Text → Text → Entry → Entry
receive sender member e = if missing member then e else elim (text_dec member sender) [
  | yes _ ↦ e
  | no _ ↦ record e { delivered_set = add text_dec member e.delivered_set }
]

pub record Progress : Type 0 where
  pub complete : Bool
  pub delivered_count : ℕ
  pub total_count : ℕ

abbrev pub progress : Entry → Progress
progress e = record {
  complete = ltb 0 e.total_count && leb e.total_count (length e.delivered_set);
  delivered_count = length e.delivered_set;
  total_count = e.total_count;
}

unfoldable pub record_delivery :
    Text → Text → Text → Text → ℕ → List (Text × Entry) → List (Text × Entry) × Progress
unfolding entry_of put add text_dec
record_delivery id room sender member total entries =
    let e = receive sender member (entry_of id room sender total entries) in
    (put text_dec id e entries, progress e)

unfoldable pub receive_all : Text → List Text → Entry → Entry
unfolding add text_dec
receive_all sender [] e = e
receive_all sender (member ∷ members) e = receive_all sender members (receive sender member e)

unfoldable pub hydrate :
    Text → Text → Text → List Text → ℕ → List (Text × Entry) → List (Text × Entry)
unfolding entry_of receive_all put text_dec
hydrate id room sender members total entries =
    let e =
      receive_all sender members
        (record (entry_of id room sender total entries) { delivered_set = [] }) in
    put text_dec id (record e { total_count = total }) entries
