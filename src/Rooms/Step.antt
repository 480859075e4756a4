-- ===== src/Rooms/Step.antt =====
-- The calls of roomManager.js as one step function, and runs of calls.
use relay_chatapp.Base.{Option, none, some, List, [], ◌∷◌, ℕ, Text, text_dec, get}
use relay_chatapp.Rooms.State.{
  Role, State, Config, Clock, Outcome, done, failed, room_not_found, user_not_in_room, truthy,
  get_member_key,
}
use relay_chatapp.Rooms.Ops.{Options, create_room, delete_room, join_room}
use relay_chatapp.Rooms.Leave.{leave_first, leave_settle, leave_room}
use relay_chatapp.Rooms.Admin.{MetaPatch, update_room_meta, remove_member, set_member_role}

-- A call of the room manager, with its arguments. `leave_start` and `resume` are the two parts of
-- a `leaveRoom` between which other calls may run; `resume` names the size of the room object
-- that the call had taken hold of.
pub data Op : Type 0 where
  create : Text → Text → Options → Op
  delete : Text → Op
  join : Text → Text → Op
  leave : Text → Text → Op
  leave_start : Text → Text → Op
  resume : Text → ℕ → Op
  patch : Text → Text → MetaPatch → Op
  remove : Text → Text → Text → Op
  set_role : Text → Text → Text → Option Role → Op

unfoldable pub start_leave : Clock → Text → Text → State → State × Outcome
unfolding get text_dec get_member_key leave_first
start_leave now id user s = elim (get text_dec id s.rooms) [
  | none ↦ (s, failed room_not_found)
  | some room ↦ elim (truthy (get_member_key room user)) [
    | none ↦ (s, failed user_not_in_room)
    | some key ↦ (leave_first now id user key room s, done)
  ]
]

unfoldable pub step : Config → Clock → Op → State → State × Outcome
unfolding create_room delete_room join_room leave_room start_leave leave_settle update_room_meta
    remove_member set_member_role
step cfg now (create id creator options) s = create_room cfg now id creator options s
step cfg now (delete id) s = delete_room id s
step cfg now (join id user) s = join_room cfg now id user s
step cfg now (leave id user) s = leave_room cfg now id user s
step cfg now (leave_start id user) s = start_leave now id user s
step cfg now (resume id size) s = (leave_settle cfg id size s, done)
step cfg now (patch id actor p) s = update_room_meta cfg now id actor p s
step cfg now (remove id actor target) s = remove_member cfg now id actor target s
step cfg now (set_role id actor target r) s = set_member_role now id actor target r s

unfoldable pub run : Config → List (Clock × Op) → State → State
unfolding step
run cfg [] s = s
run cfg ((now, op) ∷ ops) s = run cfg ops (step cfg now op s).0

-- no room yet
abbrev pub start : State
start = record { rooms = []; user_rooms = []; saved = [] }
