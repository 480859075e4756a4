-- ===== src/Rooms/Ops.antt =====
-- createRoom, deleteRoom and joinRoom of roomManager.js.
use relay_chatapp.Base.{
  ℕ, suc, Bool, ◌&&◌, ◌||◌, Option, none, some, [], ◌∷◌, Text, text_dec, trim, length, contains,
  add, get, put, ltb, leb, if◌then◌else◌,
}
use relay_chatapp.Rooms.State.{
  owner, member, Room, State, Config, Outcome, done, already_member, crashed, failed,
  room_id_required, room_exists, max_rooms_reached, ids_required, room_not_found, room_full, Clock,
  is_empty, persist_room, bump_version, index_room, delete_room_internal,
}

-- `config.max > 0 && n >= config.max`: a maximum of 0 is no limit
abbrev pub limit_reached : ℕ → ℕ → Bool
limit_reached limit n = ltb 0 limit && leb limit n

-- `room.members.has(u) || room.members.has(userId)`
unfoldable pub has_user : Room → Text → Bool
unfolding contains text_dec trim
has_user room user =
    contains text_dec (trim user) room.members || contains text_dec user room.members

-- `name` is empty where the options have none.
pub record Options : Type 0 where
  pub name : Text
  pub thumbnail_url : Option Text

abbrev pub no_options : Options
no_options = record { name = []; thumbnail_url = none }

-- `a || b` on texts
abbrev pub text_or : Text → Text → Text
text_or [] b = b
text_or (c ∷ a) b = c ∷ a

unfoldable pub new_room : Text → Text → Options → ℕ → Room
unfolding trim
new_room id creator options ts = record {
  members = trim creator ∷ [];
  roles = (trim creator, owner) ∷ [];
  meta = record {
    name = text_or options.name id;
    thumbnail_url = options.thumbnail_url;
    created_at = ts;
    created_by = creator;
  };
  updated_at = ts;
  version = 1;
  joined_at = (trim creator, ts) ∷ [];
}

unfoldable pub create_room : Config → Clock → Text → Text → Options → State → State × Outcome
unfolding get put text_dec new_room index_room persist_room trim
create_room cfg now id creator options s =
    if is_empty id then (s, failed room_id_required) else elim (get text_dec id s.rooms) [
      | some _ ↦ (s, failed room_exists)
      | none ↦
          if limit_reached cfg.max_rooms (length s.rooms) then (s, failed max_rooms_reached) else (
            persist_room id (record s {
              rooms = put text_dec id (new_room id creator options (now 0)) s.rooms;
              user_rooms = index_room id (trim creator) s.user_rooms;
            }),
            done,
          )
    ]

unfoldable pub delete_room : Text → State → State × Outcome
unfolding get text_dec delete_room_internal
delete_room id s = elim (get text_dec id s.rooms) [
  | none ↦ (s, failed room_not_found)
  | some _ ↦ (delete_room_internal id s, done)
]

unfoldable pub add_member : Clock → Text → Room → Room
unfolding add put text_dec
add_member now u room = bump_version (now 1) (record room {
  members = add text_dec u room.members;
  roles = put text_dec u member room.roles;
  joined_at = put text_dec u (now 0) room.joined_at;
})

-- the part of `joinRoom` below `const room = rooms.get(roomId)`
unfoldable pub join_existing : Config → Clock → Text → Text → Room → State → State × Outcome
unfolding has_user put text_dec trim add_member index_room persist_room
join_existing cfg now id user room s =
    if limit_reached cfg.max_members (length room.members)
    then (s, failed room_full)
    else if has_user room user
    then (s, already_member)
    else (
      persist_room id (record s {
        rooms = put text_dec id (add_member now (trim user) room) s.rooms;
        user_rooms = index_room id (trim user) s.user_rooms;
      }),
      done,
    )

-- after `createRoom` in `joinRoom`, which read the clock once
unfoldable pub join_created : Config → Clock → Text → Text → State × Outcome → State × Outcome
unfolding get text_dec join_existing
join_created cfg now id user (s, failed e) = (s, failed e)
join_created cfg now id user (s, crashed) = (s, crashed)
join_created cfg now id user (s, _) = elim (get text_dec id s.rooms) [
  | none ↦ (s, crashed)
  | some room ↦ join_existing cfg (λ k. now (suc k)) id user room s
]

unfoldable pub join_room : Config → Clock → Text → Text → State → State × Outcome
unfolding get text_dec create_room join_existing join_created
join_room cfg now id user s =
    if is_empty id || is_empty user
    then (s, failed ids_required)
    else elim (get text_dec id s.rooms) [
      | some room ↦ join_existing cfg now id user room s
      | none ↦
          if cfg.auto_create
          then join_created cfg now id user (create_room cfg now id user no_options s)
          else (s, failed room_not_found)
    ]
