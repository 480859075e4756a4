-- ===== src/Rooms/Listing.antt =====
-- What the queries of roomManager.js report in a consistent state.
use relay_chatapp.Base.{
  ◌≡◌, refl, sym, ◌∙◌, ap, true, false, some, Option-cases, List, [], ◌∷◌, map, Text, text_dec,
  trim, contains, get, arith,
}
use relay_chatapp.Rooms.State.{Room, State, is_empty}
use relay_chatapp.Rooms.Ops.{has_user}
use relay_chatapp.Rooms.Views.{
  summary, summaries, get_room_members, get_user_rooms, is_room_member, list_rooms_for_user,
}
use relay_chatapp.Rooms.Index.{holds, indexed}
use relay_chatapp.Rooms.Consistent.{IsConsistent}

holds-some :
    (r u : Text) (rooms : List (Text × Room))
    → holds r u rooms ≡ true
    → (room : Room) × (get text_dec r rooms ≡ some room)
unfolding holds
holds-some r u rooms h = ground arith

user_rooms-indexed :
    (s : State) (r user : Text)
    → contains text_dec r (get_user_rooms s user) ≡ indexed r user s.user_rooms
unfolding get_user_rooms indexed contains
user_rooms-indexed s r user = ground arith

room_members-holds :
    (s : State) (r user : Text)
    → contains text_dec user (get_room_members s r) ≡ holds r user s.rooms
unfolding get_room_members holds contains
room_members-holds s r user = ground arith

is_room_member-holds :
    (s : State) (id user : Text)
    → is_empty id ≡ false
    → trim id ≡ id
    → trim user ≡ user
    → is_room_member s id user ≡ holds id user s.rooms
unfolding is_room_member holds has_user
is_room_member-holds s id user full ti tu =
    ground (arith, full, Option-cases (get text_dec id s.rooms))

summaries-ids :
    (rooms : List (Text × Room)) (user : Text) (ids : List Text)
    → ((r : Text) → contains text_dec r ids ≡ true → holds r user rooms ≡ true)
    → map (λ m. m.id) (summaries rooms user ids) ≡ ids
unfolding summaries contains summary
summaries-ids rooms user [] h = refl
summaries-ids rooms user (id ∷ ids) h =
    let (room, e) = holds-some id user rooms (h id (ground arith)) in
    rw (e, summaries) (ap (◌∷◌ id) (summaries-ids rooms user ids (λ r c. h r (ground arith))))

-- In a consistent state `listRoomsForUser` lists every room of the user's set, once each and in
-- the set's order: it passes over none.
pub list_rooms_for_user-ids :
    (s : State) (user : Text)
    → IsConsistent s
    → map (λ m. m.id) (list_rooms_for_user s user) ≡ get_user_rooms s user
unfolding list_rooms_for_user
list_rooms_for_user-ids s user h =
    summaries-ids s.rooms user (get_user_rooms s user)
      (λ r c. h.agree r user ∙ sym (user_rooms-indexed s r user) ∙ c)

-- In a consistent state the three membership queries agree: for a room id and a user id that are
-- trimmed, the room id not empty, `isRoomMember` says yes exactly when `getRoomMembers` has the user, and exactly when
-- `getUserRooms` has the room.
pub is_room_member-queries :
    (s : State) (id user : Text)
    → is_empty id ≡ false
    → trim id ≡ id
    → trim user ≡ user
    → IsConsistent s
    → (is_room_member s id user ≡ contains text_dec user (get_room_members s id))
      × (is_room_member s id user ≡ contains text_dec id (get_user_rooms s user))
is_room_member-queries s id user full ti tu h =
    let asked = is_room_member-holds s id user full ti tu in
    (
      asked ∙ sym (room_members-holds s id user),
      asked ∙ h.agree id user ∙ sym (user_rooms-indexed s id user),
    )
