-- ===== src/Rooms/Leave.antt =====
-- leaveRoom and the succession of the owner of roomManager.js.
use relay_chatapp.Base.{
  ℕ, Bool, true, false, ◌&&◌, ◌||◌, Option, none, some, List, [], ◌∷◌, ◌==◌, Text, text_dec, trim,
  length, keep, contains, remove, get, put, drop_key, leb, if◌then◌else◌,
}
use relay_chatapp.Rooms.State.{
  Role, owner, Room, State, Config, Outcome, done, failed, ids_required, room_not_found,
  user_not_in_room, Clock, is_empty, persist_room, bump_version, delete_room_internal,
  get_member_key, truthy,
}
use relay_chatapp.Rooms.Roles.{role_or_member}

abbrev pub is_owner : Role → Bool
is_owner owner = true
is_owner _ = false

-- `Array.from(roles.entries()).find(([, r]) => r === ROLE_OWNER)?.[0]`
unfoldable pub find_owner : List (Text × Role) → Option Text
find_owner [] = none
find_owner ((u, r) ∷ roles) = let rest = find_owner roles in if is_owner r then some u else rest

-- `Array.prototype.sort` by the join time: stable
unfoldable pub insert_by_time : Text × ℕ → List (Text × ℕ) → List (Text × ℕ)
insert_by_time e [] = e ∷ []
insert_by_time e (f ∷ l) =
    let rest = insert_by_time e l in if leb e.1 f.1 then e ∷ f ∷ l else f ∷ rest

unfoldable pub sort_by_time : List (Text × ℕ) → List (Text × ℕ)
unfolding insert_by_time
sort_by_time [] = []
sort_by_time (e ∷ l) = insert_by_time e (sort_by_time l)

unfoldable pub seniority : Room → List (Text × ℕ)
unfolding keep contains text_dec sort_by_time
seniority room = sort_by_time (keep (λ e. contains text_dec e.0 room.members) room.joined_at)

unfoldable pub transfer_ownership_or_delete : ℕ → Text → Room → State → State
unfolding find_owner seniority put text_dec persist_room delete_room_internal
transfer_ownership_or_delete now id room s = elim (truthy (find_owner room.roles)) [
  | some _ ↦ s
  | none ↦ elim (seniority room) [
    | [] ↦ delete_room_internal id s
    | heir ∷ _ ↦ persist_room id (record s {
      rooms =
          put text_dec id
            (bump_version now (record room { roles = put text_dec heir.0 owner room.roles }))
            s.rooms;
    })
  ]
]

unfoldable pub drop_member : ℕ → Text → Room → Room
unfolding remove drop_key text_dec
drop_member now key room = bump_version now (record room {
  members = remove text_dec key room.members;
  roles = drop_key text_dec key room.roles;
  joined_at = drop_key text_dec key room.joined_at;
})

unfoldable pub drop_keys : List Text → List (Text × List Text) → List (Text × List Text)
unfolding drop_key text_dec
drop_keys [] index = index
drop_keys (k ∷ ks) index = drop_keys ks (drop_key text_dec k index)

-- The set of the first of the keys `ks` that has one, as `userRooms.get(..) || userRooms.get(..)`,
-- loses the room; if that empties it, the entries of `all` go.
unfoldable pub unindex_first :
    Text → List Text → List Text → List (Text × List Text) → List (Text × List Text)
unfolding get put remove text_dec drop_keys
unindex_first id [] all index = index
unindex_first id (k ∷ ks) all index = elim (get text_dec k index) [
  | none ↦ unindex_first id ks all index
  | some set ↦
      let left = remove text_dec id set in
      let index' = put text_dec k left index in
      if is_empty left then drop_keys all index' else index'
]

-- `leaveRoom` up to its first `await`: the member is gone from the room and from the index.
unfoldable pub leave_begin : ℕ → Text → Text → Text → Room → State → State
unfolding put text_dec trim drop_member unindex_first
leave_begin now id user key room s =
    let keys = key ∷ trim user ∷ user ∷ [] in
    record s {
      rooms = put text_dec id (drop_member now key room) s.rooms;
      user_rooms = unindex_first id keys keys s.user_rooms;
    }

-- The rest of `leaveRoom`: `size` is what the captured room object holds by then.
unfoldable pub leave_settle : Config → Text → ℕ → State → State
unfolding delete_room_internal persist_room
leave_settle cfg id size s =
    if size == 0 && cfg.auto_delete_empty then delete_room_internal id s else persist_room id s

unfoldable pub was_owner : Text → Room → Bool
unfolding get text_dec
was_owner key room = is_owner (role_or_member (get text_dec key room.roles))

-- What `leaveRoom` does before it waits for the store, the succession of an owner included.
unfoldable pub leave_first : Clock → Text → Text → Text → Room → State → State
unfolding was_owner drop_member leave_begin transfer_ownership_or_delete
leave_first now id user key room s =
    let s' = leave_begin (now 0) id user key room s in
    if was_owner key room
    then transfer_ownership_or_delete (now 1) id (drop_member (now 0) key room) s'
    else s'

-- With no other call between the two parts.
unfoldable pub leave_member : Config → Clock → Text → Text → Text → Room → State → State
unfolding leave_first leave_settle
leave_member cfg now id user key room s =
    leave_settle cfg id (length (drop_member (now 0) key room).members)
      (leave_first now id user key room s)

unfoldable pub leave_room : Config → Clock → Text → Text → State → State × Outcome
unfolding get text_dec get_member_key leave_member
leave_room cfg now id user s =
    if is_empty id || is_empty user
    then (s, failed ids_required)
    else elim (get text_dec id s.rooms) [
      | none ↦ (s, failed room_not_found)
      | some room ↦ elim (truthy (get_member_key room user)) [
        | none ↦ (s, failed user_not_in_room)
        | some key ↦ (leave_member cfg now id user key room s, done)
      ]
    ]
