-- ===== src/Rooms/State.antt =====
-- The state of roomManager.js: the rooms, the index from users to rooms, and the store's calls.
use relay_chatapp.Base.{
  ℕ, ◌+◌, Bool, true, false, Option, none, some, List, [], ◌∷◌, ◌++◌, Text, text_dec, trim,
  contains, add, remove, get, put, drop_key, if◌then◌else◌,
}
use relay_chatapp.Rooms.Objects.{to_object}

pub data Role : Type 0 where
  owner admin member : Role

pub record Meta : Type 0 where
  pub name : Text
  pub thumbnail_url : Option Text
  pub created_at : ℕ
  pub created_by : Text

pub record Room : Type 0 where
  pub members : List Text
  pub roles : List (Text × Role)
  pub meta : Meta
  pub updated_at : ℕ
  pub version : ℕ
  pub joined_at : List (Text × ℕ)

-- A record of the room store. A field that a record may lack is an option; the objects are the
-- entries that Object.entries lists.
pub record StoredRoom : Type 0 where
  pub id : Text
  pub meta : Option Meta
  pub members : List Text
  pub roles : List (Text × Role)
  pub joined_at : List (Text × ℕ)
  pub version : Option ℕ
  pub updated_at : Option ℕ

pub data StoreCall : Type 0 where
  upsert : StoredRoom → StoreCall
  delete : Text → StoreCall

-- `saved` holds the calls made of the room store, in order.
pub record State : Type 0 where
  pub rooms : List (Text × Room)
  pub user_rooms : List (Text × List Text)
  pub saved : List StoreCall

pub record Config : Type 0 where
  pub max_rooms : ℕ
  pub max_members : ℕ
  pub auto_create : Bool
  pub auto_delete_empty : Bool
  pub max_name : ℕ
  pub max_url : ℕ

pub data Error : Type 0 where
  room_id_required room_exists max_rooms_reached ids_required room_not_found room_full : Error
  user_not_in_room not_a_member cannot_update_meta cannot_add cannot_remove cannot_delete : Error
  cannot_change_roles cannot_promote_owner cannot_modify_owner invalid_role : Error

-- `{ success: true }`, `{ success: true, alreadyMember: true }` and `{ success: false, error }`;
-- `crashed` stands for an exception that the operation does not catch.
pub data Outcome : Type 0 where
  done already_member crashed : Outcome
  failed : Error → Outcome

-- A clock: the successive values of `Date.now()` in one call.
abbrev pub Clock : Type 0
Clock = ℕ → ℕ

abbrev pub is_empty {ℓ} : {A : Type ℓ} → List A → Bool
is_empty [] = true
is_empty (x ∷ xs) = false

-- The roles and the join times become objects.
unfoldable pub to_store_record : Text → Room → StoredRoom
unfolding to_object
to_store_record id room = record {
  id = id;
  meta = some room.meta;
  members = room.members;
  roles = to_object room.roles;
  joined_at = to_object room.joined_at;
  version = some room.version;
  updated_at = some room.updated_at;
}

unfoldable pub persist_room : Text → State → State
unfolding to_store_record get text_dec
persist_room id s = elim (get text_dec id s.rooms) [
  | none ↦ s
  | some room ↦ record s { saved = s.saved ++ upsert (to_store_record id room) ∷ [] }
]

abbrev pub bump_version : ℕ → Room → Room
bump_version now room = record room { version = room.version + 1; updated_at = now }

-- `if (!userRooms.has(u)) userRooms.set(u, new Set()); userRooms.get(u).add(roomId)`
unfoldable pub index_room : Text → Text → List (Text × List Text) → List (Text × List Text)
unfolding get put add text_dec
index_room id u index = elim (get text_dec u index) [
  | none ↦ put text_dec u (add text_dec id []) index
  | some set ↦ put text_dec u (add text_dec id set) index
]

-- the body of the loop of `deleteRoomInternal`
unfoldable pub unindex_room : Text → Text → List (Text × List Text) → List (Text × List Text)
unfolding get put remove drop_key text_dec
unindex_room id u index = elim (get text_dec u index) [
  | none ↦ index
  | some set ↦
      let left = remove text_dec id set in
      if is_empty left then drop_key text_dec u index else put text_dec u left index
]

unfoldable pub unindex_members :
    Text → List Text → List (Text × List Text) → List (Text × List Text)
unfolding unindex_room
unindex_members id [] index = index
unindex_members id (u ∷ us) index = unindex_members id us (unindex_room id u index)

unfoldable pub delete_room_internal : Text → State → State
unfolding get drop_key text_dec unindex_members
delete_room_internal id s = elim (get text_dec id s.rooms) [
  | none ↦ s
  | some room ↦ record s {
    rooms = drop_key text_dec id s.rooms;
    user_rooms = unindex_members id room.members s.user_rooms;
    saved = s.saved ++ delete id ∷ [];
  }
]

-- `getMemberKey`: the trimmed id if it is a member, else the id as given
unfoldable pub get_member_key : Room → Text → Option Text
unfolding contains text_dec trim
get_member_key room user =
    if contains text_dec (trim user) room.members
    then some (trim user)
    else if contains text_dec user room.members
    then some user
    else none

-- `!key`: the empty id is falsy as `null` is
abbrev pub truthy : Option Text → Option Text
truthy none = none
truthy (some []) = none
truthy (some (c ∷ u)) = some (c ∷ u)
