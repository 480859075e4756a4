-- ===== src/Rooms/Admin.antt =====
-- updateRoomMeta, removeMember and setMemberRole of roomManager.js.
use relay_chatapp.Base.{ℕ, Option, none, some, [], ◌∷◌, Text, text_dec, trim, slice_to, put}
use relay_chatapp.Rooms.State.{
  Role, Meta, Room, State, Config, Outcome, done, failed, invalid_role, Clock, persist_room,
  bump_version,
}
use relay_chatapp.Rooms.Roles.{
  Check, pass, throw, ◌>>=◌, assert_member, get_role, assert_can_update_meta,
  assert_can_remove_member, assert_can_set_role,
}
use relay_chatapp.Rooms.Leave.{leave_room}

-- `thumbnailUrl` of a patch: missing, `null`, or a text.
pub data UrlPatch : Type 0 where
  unchanged cleared : UrlPatch
  url : Text → UrlPatch

pub record MetaPatch : Type 0 where
  pub name : Option Text
  pub thumbnail_url : UrlPatch

abbrev pub url_or_null : Text → Option Text
url_or_null [] = none
url_or_null (c ∷ t) = some (c ∷ t)

unfoldable pub patch_name : ℕ → Option Text → Meta → Meta
unfolding trim slice_to
patch_name max_name none m = m
patch_name max_name (some t) m = record m { name = slice_to max_name (trim t) }

unfoldable pub patch_url : ℕ → UrlPatch → Meta → Meta
unfolding trim slice_to
patch_url max_url unchanged m = m
patch_url max_url cleared m = record m { thumbnail_url = none }
patch_url max_url (url t) m = record m { thumbnail_url = url_or_null (slice_to max_url (trim t)) }

unfoldable pub update_meta : Config → ℕ → MetaPatch → Room → Room
unfolding patch_name patch_url
update_meta cfg now patch room = bump_version now (record room {
  meta = patch_url cfg.max_url patch.thumbnail_url (patch_name cfg.max_name patch.name room.meta);
})

unfoldable pub may_patch : State → Text → Text → Check Room
unfolding assert_member get_role assert_can_update_meta
may_patch s id actor = do
  room ← assert_member s id actor
  _ ← assert_can_update_meta (get_role s id actor)
  pass room

unfoldable pub update_room_meta : Config → Clock → Text → Text → MetaPatch → State → State × Outcome
unfolding may_patch put text_dec update_meta persist_room
update_room_meta cfg now id actor patch s = elim (may_patch s id actor) [
  | throw e ↦ (s, failed e)
  | pass room ↦ (
    persist_room id
        (record s { rooms = put text_dec id (update_meta cfg (now 0) patch room) s.rooms }),
    done,
  )
]

unfoldable pub may_remove : State → Text → Text → Text → Check (Unit {0})
unfolding assert_member get_role assert_can_remove_member
may_remove s id actor target = do
  _ ← assert_member s id actor
  _ ← assert_member s id target
  assert_can_remove_member (get_role s id actor) (get_role s id target)

unfoldable pub remove_member : Config → Clock → Text → Text → Text → State → State × Outcome
unfolding may_remove leave_room
remove_member cfg now id actor target s = elim (may_remove s id actor target) [
  | throw e ↦ (s, failed e)
  | pass _ ↦ leave_room cfg now id target s
]

unfoldable pub may_set_role : State → Text → Text → Text → Option Role → Check (Room × Role)
unfolding assert_member get_role assert_can_set_role
may_set_role s id actor target new_role = do
  room ← assert_member s id actor
  _ ← assert_member s id target
  _ ← assert_can_set_role (get_role s id actor) (get_role s id target) new_role
  elim new_role [ none ↦ throw invalid_role | some r ↦ pass (room, r) ]

-- The role is set under the target's id as given, trimmed or not.
unfoldable pub assign_role : ℕ → Text → Text → Role → Room → State → State
unfolding put text_dec persist_room
assign_role now id target r room s = persist_room id (record s {
  rooms =
      put text_dec id (bump_version now (record room { roles = put text_dec target r room.roles }))
        s.rooms;
})

unfoldable pub set_member_role : Clock → Text → Text → Text → Option Role → State → State × Outcome
unfolding may_set_role assign_role
set_member_role now id actor target new_role s = elim (may_set_role s id actor target new_role) [
  | throw e ↦ (s, failed e)
  | pass m ↦ (assign_role (now 0) id target m.1 m.0 s, done)
]
