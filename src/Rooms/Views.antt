-- ===== src/Rooms/Views.antt =====
-- The queries of roomManager.js: getRoomMembers to listRoomsForUser, getAllRooms and getStats.
use relay_chatapp.Base.{
  ℕ, ◌+◌, Bool, false, Option, none, some, List, [], ◌∷◌, map, Text, text_dec, trim, length, get,
  if◌then◌else◌,
}
use relay_chatapp.Rooms.State.{Role, Meta, Room, State, is_empty}
use relay_chatapp.Rooms.Roles.{role_or_member}
use relay_chatapp.Rooms.Ops.{has_user}

unfoldable pub get_room_members : State → Text → List Text
unfolding get text_dec
get_room_members s id = elim (get text_dec id s.rooms) [ none ↦ [] | some room ↦ room.members ]

unfoldable pub get_user_rooms : State → Text → List Text
unfolding get text_dec
get_user_rooms s user = elim (get text_dec user s.user_rooms) [ none ↦ [] | some set ↦ set ]

-- `a || b` on what two look-ups return
abbrev pub or_else {ℓ} : {A : Type ℓ} → Option A → Option A → Option A
or_else none b = b
or_else (some a) b = some a

-- `userId == null` does not come up: an id is a text.
unfoldable pub is_room_member : State → Text → Text → Bool
unfolding get text_dec trim has_user
is_room_member s id user =
    if is_empty id
    then false
    else elim (or_else (get text_dec (trim id) s.rooms) (get text_dec id s.rooms)) [
      | none ↦ false
      | some room ↦ has_user room user
    ]

pub record Info : Type 0 where
  pub id : Text
  pub meta : Meta
  pub member_count : ℕ
  pub version : ℕ
  pub updated_at : ℕ

abbrev info : Text → Room → Info
info id room = record {
  id = id;
  meta = room.meta;
  member_count = length room.members;
  version = room.version;
  updated_at = room.updated_at;
}

unfoldable pub get_room_info : State → Text → Option Info
unfolding get text_dec
get_room_info s id = elim (get text_dec id s.rooms) [
  | none ↦ none
  | some room ↦ some (info id room)
]

pub record Snapshot : Type 0 where
  pub id : Text
  pub meta : Meta
  pub version : ℕ
  pub updated_at : ℕ
  pub members : List Text
  pub roles : List (Text × Role)

unfoldable pub get_room_snapshot : State → Text → Option Snapshot
unfolding get text_dec
get_room_snapshot s id = elim (get text_dec id s.rooms) [
  | none ↦ none
  | some room ↦ some (record {
    id = id;
    meta = room.meta;
    version = room.version;
    updated_at = room.updated_at;
    members = room.members;
    roles = room.roles;
  })
]

pub record Summary : Type 0 where
  pub id : Text
  pub name : Text
  pub thumbnail_url : Option Text
  pub member_count : ℕ
  pub my_role : Role
  pub version : ℕ
  pub updated_at : ℕ

unfoldable pub summary : Text → Text → Room → Summary
unfolding get text_dec
summary user id room = record {
  id = id;
  name = room.meta.name;
  thumbnail_url = room.meta.thumbnail_url;
  member_count = length room.members;
  my_role = role_or_member (get text_dec user room.roles);
  version = room.version;
  updated_at = room.updated_at;
}

-- the loop of `listRoomsForUser`: an id with no room is passed over
unfoldable pub summaries : List (Text × Room) → Text → List Text → List Summary
unfolding get text_dec summary
summaries rooms user [] = []
summaries rooms user (id ∷ ids) = elim (get text_dec id rooms) [
  | none ↦ summaries rooms user ids
  | some room ↦ summary user id room ∷ summaries rooms user ids
]

unfoldable pub list_rooms_for_user : State → Text → List Summary
unfolding summaries get_user_rooms
list_rooms_for_user s user = summaries s.rooms user (get_user_rooms s user)

unfoldable pub get_all_rooms : State → List Info
get_all_rooms s = map (λ e. info e.0 e.1) s.rooms

pub record Stats : Type 0 where
  pub total_rooms : ℕ
  pub total_members : ℕ

unfoldable pub sum_sizes : List (Text × List Text) → ℕ
sum_sizes [] = 0
sum_sizes ((u, set) ∷ index) = length set + sum_sizes index

unfoldable pub get_stats : State → Stats
unfolding sum_sizes
get_stats s = record { total_rooms = length s.rooms; total_members = sum_sizes s.user_rooms }
