-- ===== src/Rooms/Versions.antt =====
-- Every change of a room of roomManager.js raises its version.
use relay_chatapp.Base.{
  ℕ, suc, ◌<◌, ◌≡◌, ◌⊎◌, ◌||◌, ◌&&◌, ◌==◌, none, some, List, [], ◌∷◌, Text, text_dec, length, get,
  put, get-put, arith, if_cases, option_cases, trim,
}
use relay_chatapp.Rooms.State.{
  owner, Room, State, Config, Clock, Outcome, crashed, already_member, done, failed, persist_room,
  delete_room_internal, is_empty, get_member_key, truthy, bump_version,
}
use relay_chatapp.Rooms.Roles.{check_cases}
use relay_chatapp.Rooms.Ops.{
  Options, no_options, limit_reached, has_user, new_room, create_room, delete_room, add_member,
  join_existing, join_created, join_room,
}
use relay_chatapp.Rooms.Leave.{
  find_owner, seniority, transfer_ownership_or_delete, drop_member, leave_begin, leave_first,
  leave_settle, leave_member, leave_room, was_owner,
}
use relay_chatapp.Rooms.Admin.{
  may_patch, update_meta, update_room_meta, may_remove, remove_member, may_set_role, assign_role,
  set_member_role,
}
use relay_chatapp.Rooms.Step.{
  Op, create, delete, join, leave, leave_start, resume, patch, remove, set_role, start_leave, step,
}
use relay_chatapp.Rooms.Succession.{get-persist_room}
use relay_chatapp.Rooms.Consistent.Run.{may_patch-get, may_set_role-get}
use relay_chatapp.Rooms.Growth.{
  Grows, Bumps, Bumps-refl, Bumps-trans, Grows-Bumps, Grows-of_Bumps, put-Bumps, persist-Bumps,
  delete-Bumps, GrowsTo, Grows-refl,
}

create_room-Grows :
    (cfg : Config) (now : Clock) (id creator : Text) (options : Options) (s : State)
    → GrowsTo s (create_room cfg now id creator options s)
unfolding create_room
create_room-Grows cfg now id creator options s =
    if_cases (GrowsTo s) (is_empty id) (λ _. Grows-refl s.rooms)
      λ _.
        option_cases (GrowsTo s) (get text_dec id s.rooms)
          (λ e.
            if_cases (GrowsTo s) (limit_reached cfg.max_rooms (length s.rooms))
              (λ _. Grows-refl s.rooms) (λ _. made e))
          (λ _ _. Grows-refl s.rooms)
  where
    room : Room
    room = new_room id creator options (now 0)

    t : State
    t = record s {
      rooms = put text_dec id room s.rooms;
      user_rooms = relay_chatapp.Rooms.State.index_room id (trim creator) s.user_rooms;
    }

    made : get text_dec id s.rooms ≡ none → Grows s.rooms (persist_room id t).rooms
    made e r a b ea eb = ground (arith, get-persist_room id r t, get-put text_dec id r room s.rooms)

join_existing-Bumps :
    (cfg : Config) (now : Clock) (id user : Text) (room : Room) (s : State)
    → get text_dec id s.rooms ≡ some room
    → Bumps s.rooms (join_existing cfg now id user room s).0.rooms
unfolding join_existing add_member
join_existing-Bumps cfg now id user room s e =
    if_cases (λ (o : State × Outcome). Bumps s.rooms o.0.rooms)
      (limit_reached cfg.max_members (length room.members)) (λ _. Bumps-refl s.rooms)
      λ _.
        if_cases (λ (o : State × Outcome). Bumps s.rooms o.0.rooms) (has_user room user)
          (λ _. Bumps-refl s.rooms)
          λ _. persist-Bumps id s.rooms _ (put-Bumps id room _ s.rooms e (omega arith))

join_created-Grows :
    (cfg : Config) (now : Clock) (id user : Text) (s : State) (o : State × Outcome)
    → GrowsTo s o
    → GrowsTo s (join_created cfg now id user o)
unfolding join_created
join_created-Grows cfg now id user s (t, failed e) h = h
join_created-Grows cfg now id user s (t, crashed) h = h
join_created-Grows cfg now id user s (t, _) h =
    option_cases (GrowsTo s) (get text_dec id t.rooms) (λ _. h)
      (λ room e.
        Grows-Bumps s.rooms t.rooms _ h
          (join_existing-Bumps cfg (λ k. now (suc k)) id user room t e))

join_room-Grows :
    (cfg : Config) (now : Clock) (id user : Text) (s : State)
    → GrowsTo s (join_room cfg now id user s)
unfolding join_room
join_room-Grows cfg now id user s =
    if_cases (GrowsTo s) (is_empty id || is_empty user) (λ _. Grows-refl s.rooms)
      λ _.
        option_cases (GrowsTo s) (get text_dec id s.rooms)
          (λ _.
            if_cases (GrowsTo s) cfg.auto_create
              (λ _.
                join_created-Grows cfg now id user s (create_room cfg now id user no_options s)
                  (create_room-Grows cfg now id user no_options s))
              (λ _. Grows-refl s.rooms))
          (λ room e. Grows-of_Bumps s.rooms _ (join_existing-Bumps cfg now id user room s e))

transfer-Bumps :
    (now : ℕ) (id : Text) (room : Room) (s : State)
    → get text_dec id s.rooms ≡ some room
    → Bumps s.rooms (transfer_ownership_or_delete now id room s).rooms
unfolding transfer_ownership_or_delete
transfer-Bumps now id room s e =
    option_cases (λ (t : State). Bumps s.rooms t.rooms) (truthy (find_owner room.roles))
      (λ _. by_heir (seniority room)) (λ _ _. Bumps-refl s.rooms)
  where
    by_heir :
        (heirs : List (Text × ℕ))
        → Bumps s.rooms
            (elim heirs as (λ _. State) [
              | [] ↦ delete_room_internal id s
              | heir ∷ _ ↦ persist_room id (record s {
                rooms =
                    put text_dec id
                      (bump_version now
                        (record room { roles = put text_dec heir.0 owner room.roles }))
                      s.rooms;
              })
            ]).rooms
    by_heir [] = delete-Bumps id s
    by_heir (heir ∷ _) = persist-Bumps id s.rooms _ (put-Bumps id room _ s.rooms e (omega arith))

leave_first-Bumps :
    (now : Clock) (id user key : Text) (room : Room) (s : State)
    → get text_dec id s.rooms ≡ some room
    → Bumps s.rooms (leave_first now id user key room s).rooms
unfolding leave_first leave_begin drop_member
leave_first-Bumps now id user key room s e =
    let left = drop_member (now 0) key room in
    let t = leave_begin (now 0) id user key room s in
    let begun : Bumps s.rooms t.rooms = put-Bumps id room left s.rooms e (omega arith) in
    if_cases (λ (t : State). Bumps s.rooms t.rooms) (was_owner key room)
      (λ _.
        Bumps-trans s.rooms t.rooms _ begun
          (transfer-Bumps (now 1) id left t (ground (arith, get-put text_dec id id left s.rooms))))
      (λ _. begun)

leave_settle-Bumps :
    (cfg : Config) (id : Text) (size : ℕ) (s : State)
    → Bumps s.rooms (leave_settle cfg id size s).rooms
unfolding leave_settle
leave_settle-Bumps cfg id size s =
    if_cases (λ (t : State). Bumps s.rooms t.rooms) (size == 0 && cfg.auto_delete_empty)
      (λ _. delete-Bumps id s) (λ _. persist-Bumps id s.rooms s (Bumps-refl s.rooms))

leave_room-Grows :
    (cfg : Config) (now : Clock) (id user : Text) (s : State)
    → GrowsTo s (leave_room cfg now id user s)
unfolding leave_room leave_member
leave_room-Grows cfg now id user s =
    if_cases (GrowsTo s) (is_empty id || is_empty user) (λ _. Grows-refl s.rooms)
      λ _.
        option_cases (GrowsTo s) (get text_dec id s.rooms) (λ _. Grows-refl s.rooms)
          λ room e.
            option_cases (GrowsTo s) (truthy (get_member_key room user)) (λ _. Grows-refl s.rooms)
              λ key _. Grows-of_Bumps s.rooms _ (
                Bumps-trans s.rooms (leave_first now id user key room s).rooms _
                  (leave_first-Bumps now id user key room s e)
                  (leave_settle-Bumps cfg id (length (drop_member (now 0) key room).members) _))

start_leave-Grows :
    (now : Clock) (id user : Text) (s : State) → GrowsTo s (start_leave now id user s)
unfolding start_leave
start_leave-Grows now id user s =
    option_cases (GrowsTo s) (get text_dec id s.rooms) (λ _. Grows-refl s.rooms)
      λ room e.
        option_cases (GrowsTo s) (truthy (get_member_key room user)) (λ _. Grows-refl s.rooms)
          λ key _. Grows-of_Bumps s.rooms _ (leave_first-Bumps now id user key room s e)

-- In every call, a room that is there before and after either is unchanged or has a greater
-- version.
pub step_version :
    (cfg : Config) (now : Clock) (op : Op) (s : State) (id : Text) (a b : Room)
    → get text_dec id s.rooms ≡ some a
    → get text_dec id (step cfg now op s).0.rooms ≡ some b
    → (a ≡ b) ⊎ (a.version < b.version)
unfolding step delete_room update_room_meta update_meta remove_member set_member_role assign_role
step_version cfg now (create id creator options) s = create_room-Grows cfg now id creator options s
step_version cfg now (delete id) s =
    option_cases (GrowsTo s) (get text_dec id s.rooms) (λ _. Grows-refl s.rooms)
      (λ _ _. Grows-of_Bumps s.rooms _ (delete-Bumps id s))
step_version cfg now (join id user) s = join_room-Grows cfg now id user s
step_version cfg now (leave id user) s = leave_room-Grows cfg now id user s
step_version cfg now (leave_start id user) s = start_leave-Grows now id user s
step_version cfg now (resume id size) s =
    Grows-of_Bumps s.rooms _ (leave_settle-Bumps cfg id size s)
step_version cfg now (patch id actor p) s =
    check_cases (GrowsTo s) (may_patch s id actor) (λ _ _. Grows-refl s.rooms)
      λ room e. Grows-of_Bumps s.rooms _ (
        persist-Bumps id s.rooms _
          (put-Bumps id room _ s.rooms (may_patch-get s id actor e) (omega arith)))
step_version cfg now (remove id actor target) s =
    check_cases (GrowsTo s) (may_remove s id actor target) (λ _ _. Grows-refl s.rooms)
      (λ _ _. leave_room-Grows cfg now id target s)
step_version cfg now (set_role id actor target r) s =
    check_cases (GrowsTo s) (may_set_role s id actor target r) (λ _ _. Grows-refl s.rooms)
      λ m e. Grows-of_Bumps s.rooms _ (
        persist-Bumps id s.rooms _
          (put-Bumps id m.0 _ s.rooms (may_set_role-get s id actor target r e) (omega arith)))
