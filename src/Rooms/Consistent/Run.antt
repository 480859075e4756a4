-- ===== src/Rooms/Consistent/Run.antt =====
-- Every sequence of calls of roomManager.js keeps its maps in agreement.
use relay_chatapp.Base.{
  ◌≡◌, refl, Option, some, List, [], ◌∷◌, Text, text_dec, get, arith, option_cases,
}
use relay_chatapp.Rooms.State.{Role, Room, State, Config, Clock, get_member_key, truthy}
use relay_chatapp.Rooms.Roles.{
  pass, check_cases, assert_member, get_role, assert_can_update_meta, assert_can_set_role,
  >>=-eq-pass,
}
use relay_chatapp.Rooms.Admin.{
  MetaPatch, update_meta, may_patch, update_room_meta, may_remove, remove_member, may_set_role,
  assign_role, set_member_role,
}
use relay_chatapp.Rooms.Step.{
  Op, create, delete, join, leave, leave_start, resume, patch, remove, set_role, start_leave, step,
  run, start,
}
use relay_chatapp.Rooms.Index.{holds, indexed}
use relay_chatapp.Rooms.Consistent.{
  IsConsistent, Leaves, put_same_members, persist_room-IsConsistent,
}
use relay_chatapp.Rooms.Consistent.Joins.{
  create_room-IsConsistent, delete_room-IsConsistent, join_room-IsConsistent,
}
use relay_chatapp.Rooms.Consistent.Leaving.{
  leave_settle-IsConsistent, leave_first-IsConsistent, leave_room-IsConsistent,
}

pub assert_member-get :
    (s : State) (id user : Text) {room : Room}
    → assert_member s id user ≡ pass room
    → get text_dec id s.rooms ≡ some room
unfolding assert_member
assert_member-get s id user e = ground arith

ok_room : {a b : Room} → pass a ≡ pass b → a ≡ b
ok_room h = cc

start_leave-IsConsistent :
    (now : Clock) (id user : Text) (s : State) → IsConsistent s → Leaves (start_leave now id user s)
unfolding start_leave
start_leave-IsConsistent now id user s h =
    option_cases Leaves (get text_dec id s.rooms) (λ _. h)
      λ room e.
        option_cases Leaves (truthy (get_member_key room user)) (λ _. h)
          λ key k. leave_first-IsConsistent now id user key s e k h

pub may_patch-get :
    (s : State) (id actor : Text) {room : Room}
    → may_patch s id actor ≡ pass room
    → get text_dec id s.rooms ≡ some room
unfolding may_patch
may_patch-get s id actor e =
    let (room', a, rest) = >>=-eq-pass (assert_member s id actor) _ e in
    let (_, _, same) = >>=-eq-pass (assert_can_update_meta (get_role s id actor)) _ rest in
    rw (← ok_room same) (assert_member-get s id actor a)

pub may_set_role-get :
    (s : State) (id actor target : Text) (r : Option Role) {room : Room} {r' : Role}
    → may_set_role s id actor target r ≡ pass (room, r')
    → get text_dec id s.rooms ≡ some room
unfolding may_set_role
may_set_role-get s id actor target r {room} e =
    let (room', a, e1) = >>=-eq-pass (assert_member s id actor) _ e in
    let (_, _, e2) = >>=-eq-pass (assert_member s id target) _ e1 in
    let (_, _, e3) =
      >>=-eq-pass (assert_can_set_role (get_role s id actor) (get_role s id target) r) _ e2 in
    let same : room' ≡ room = ground (arith, e3) in rw (← same) (assert_member-get s id actor a)

update_room_meta-IsConsistent :
    (cfg : Config) (now : Clock) (id actor : Text) (p : MetaPatch) (s : State)
    → IsConsistent s
    → Leaves (update_room_meta cfg now id actor p s)
unfolding update_room_meta update_meta
update_room_meta-IsConsistent cfg now id actor p s h =
    check_cases Leaves (may_patch s id actor) (λ _ _. h)
      λ room e.
        persist_room-IsConsistent id _ (put_same_members id s _ (may_patch-get s id actor e) refl h)

set_member_role-IsConsistent :
    (now : Clock) (id actor target : Text) (r : Option Role) (s : State)
    → IsConsistent s
    → Leaves (set_member_role now id actor target r s)
unfolding set_member_role assign_role
set_member_role-IsConsistent now id actor target r s h =
    check_cases Leaves (may_set_role s id actor target r) (λ _ _. h)
      λ m e.
        persist_room-IsConsistent id _
          (put_same_members id s _ (may_set_role-get s id actor target r e) refl h)

remove_member-IsConsistent :
    (cfg : Config) (now : Clock) (id actor target : Text) (s : State)
    → IsConsistent s
    → Leaves (remove_member cfg now id actor target s)
unfolding remove_member
remove_member-IsConsistent cfg now id actor target s h =
    check_cases Leaves (may_remove s id actor target) (λ _ _. h)
      λ _ _. leave_room-IsConsistent cfg now id target s h

pub step-IsConsistent :
    (cfg : Config) (now : Clock) (op : Op) (s : State) → IsConsistent s → Leaves (step cfg now op s)
unfolding step
step-IsConsistent cfg now (create id creator options) s h =
    create_room-IsConsistent cfg now id creator options s h
step-IsConsistent cfg now (delete id) s h = delete_room-IsConsistent id s h
step-IsConsistent cfg now (join id user) s h = join_room-IsConsistent cfg now id user s h
step-IsConsistent cfg now (leave id user) s h = leave_room-IsConsistent cfg now id user s h
step-IsConsistent cfg now (leave_start id user) s h = start_leave-IsConsistent now id user s h
step-IsConsistent cfg now (resume id size) s h = leave_settle-IsConsistent cfg id size s h
step-IsConsistent cfg now (patch id actor p) s h =
    update_room_meta-IsConsistent cfg now id actor p s h
step-IsConsistent cfg now (remove id actor target) s h =
    remove_member-IsConsistent cfg now id actor target s h
step-IsConsistent cfg now (set_role id actor target r) s h =
    set_member_role-IsConsistent now id actor target r s h

-- In every state that a consistent one reaches by any calls in any order, the two halves of a
-- suspended leave among them, a user is in a room's member set exactly when the room is in the
-- user's set, no indexed set is empty, and member ids are trimmed.
pub run-IsConsistent :
    (cfg : Config) (ops : List (Clock × Op)) (s : State)
    → IsConsistent s
    → IsConsistent (run cfg ops s)
unfolding run
run-IsConsistent cfg [] s h = h
run-IsConsistent cfg ((now, op) ∷ ops) s h =
    run-IsConsistent cfg ops (step cfg now op s).0 (step-IsConsistent cfg now op s h)

pub start-IsConsistent : IsConsistent start
unfolding holds indexed get
start-IsConsistent = record { agree = λ r u. refl; filled = λ u e. cc; trimmed = λ r u t. cc }
