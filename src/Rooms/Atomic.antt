-- ===== src/Rooms/Atomic.antt =====
-- A call of roomManager.js that fails leaves no trace.
use relay_chatapp.Base.{
  ℕ, suc, ◌≡◌, refl, ap, ◌∙◌, ◌≢◌, true, ◌||◌, some, Text, text_dec, length, contains, get, get-put,
  arith, if_cases, option_cases,
}
use relay_chatapp.Rooms.State.{
  Error, Room, State, Config, Clock, Outcome, done, already_member, crashed, failed, is_empty,
  get_member_key, truthy,
}
use relay_chatapp.Rooms.Roles.{check_cases}
use relay_chatapp.Rooms.Ops.{
  Options, no_options, limit_reached, has_user, new_room, create_room, delete_room, join_existing,
  join_created, join_room,
}
use relay_chatapp.Rooms.Leave.{leave_room}
use relay_chatapp.Rooms.Admin.{
  may_patch, update_room_meta, may_remove, remove_member, may_set_role, set_member_role,
}
use relay_chatapp.Rooms.Step.{
  Op, create, delete, join, leave, leave_start, resume, patch, remove, set_role, start_leave, step,
}
use relay_chatapp.Rooms.Succession.{get-persist_room}

-- If the call failed, the state is `s`.
abbrev IsAtomic : State → State × Outcome → Type 0
IsAtomic s o = (e : Error) → o.1 ≡ failed e → o.0 ≡ s

create_room-IsAtomic :
    (cfg : Config) (now : Clock) (id creator : Text) (options : Options) (s : State)
    → IsAtomic s (create_room cfg now id creator options s)
unfolding create_room
create_room-IsAtomic cfg now id creator options s =
    if_cases (IsAtomic s) (is_empty id) (λ _ _ _. refl)
      λ _.
        option_cases (IsAtomic s) (get text_dec id s.rooms)
          (λ _.
            if_cases (IsAtomic s) (limit_reached cfg.max_rooms (length s.rooms)) (λ _ _ _. refl)
              (λ _ e q. cc))
          (λ _ _ _ _. refl)

-- A room that `createRoom` reports done is there, with its creator as the only member.
pub create_room_done :
    (cfg : Config) (now : Clock) (id creator : Text) (options : Options) (s : State)
    → (create_room cfg now id creator options s).1 ≡ done
    → get text_dec id (create_room cfg now id creator options s).0.rooms
      ≡ some (new_room id creator options (now 0))
unfolding create_room
create_room_done cfg now id creator options s =
    if_cases P (is_empty id) (λ _ q. cc)
      λ _.
        option_cases P (get text_dec id s.rooms)
          (λ _.
            if_cases P (limit_reached cfg.max_rooms (length s.rooms)) (λ _ q. cc)
              λ _ _. get-persist_room id id _ ∙ ground (arith, get-put text_dec id id room s.rooms))
          (λ _ _ q. cc)
  where
    room : Room
    room = new_room id creator options (now 0)

    P : State × Outcome → Type 0
    P o = o.1 ≡ done → get text_dec id o.0.rooms ≡ some room

join_existing-IsAtomic :
    (cfg : Config) (now : Clock) (id user : Text) (room : Room) (s : State)
    → IsAtomic s (join_existing cfg now id user room s)
unfolding join_existing
join_existing-IsAtomic cfg now id user room s =
    if_cases (IsAtomic s) (limit_reached cfg.max_members (length room.members)) (λ _ _ _. refl)
      λ _. if_cases (IsAtomic s) (has_user room user) (λ _ e q. cc) (λ _ e q. cc)

new_room-has_user :
    (id user : Text) (options : Options) (ts : ℕ)
    → has_user (new_room id user options ts) user ≡ true
unfolding has_user new_room contains
new_room-has_user id user options ts = ground arith

-- A user who joins the room that the call has just created is in it already.
join_new_room :
    (cfg : Config) (now : Clock) (id user : Text) (options : Options) (ts : ℕ) (s : State)
    → cfg.max_members ≢ 1
    → join_existing cfg now id user (new_room id user options ts) s ≡ (s, already_member)
unfolding join_existing new_room
join_new_room cfg now id user options ts s h = ground (arith, new_room-has_user id user options ts)

abbrev IsFresh : Text → Text → Options → ℕ → State × Outcome → Type 0
IsFresh id user options ts o =
    o.1 ≡ done → get text_dec id o.0.rooms ≡ some (new_room id user options ts)

create_room-ne-already :
    (cfg : Config) (now : Clock) (id creator : Text) (options : Options) (s : State)
    → (create_room cfg now id creator options s).1 ≢ already_member
unfolding create_room
create_room-ne-already cfg now id creator options s =
    if_cases P (is_empty id) (λ _ q. cc)
      λ _.
        option_cases P (get text_dec id s.rooms)
          (λ _. if_cases P (limit_reached cfg.max_rooms (length s.rooms)) (λ _ q. cc) (λ _ q. cc))
          (λ _ _ q. cc)
  where
    P : State × Outcome → Type 0
    P o = o.1 ≡ already_member → ⊥

join_created-done :
    (cfg : Config) (now : Clock) (id user : Text) (options : Options) (ts : ℕ) (t : State)
    → cfg.max_members ≢ 1
    → get text_dec id t.rooms ≡ some (new_room id user options ts)
    → join_created cfg now id user (t, done) ≡ (t, already_member)
unfolding join_created
join_created-done cfg now id user options ts t h e =
    rw (e, join_created) (join_new_room cfg (λ k. now (suc k)) id user options ts t h)

join_created-IsAtomic :
    (cfg : Config) (now : Clock) (id user : Text) (options : Options) (ts : ℕ) (s : State)
    (o : State × Outcome)
    → cfg.max_members ≢ 1
    → IsFresh id user options ts o
    → o.1 ≢ already_member
    → IsAtomic s o
    → IsAtomic s (join_created cfg now id user o)
unfolding join_created
join_created-IsAtomic cfg now id user options ts s (t, failed x) h f a k = k
join_created-IsAtomic cfg now id user options ts s (t, crashed) h f a k = λ e q. cc
join_created-IsAtomic cfg now id user options ts s (t, already_member) h f a k = absurd (a refl)
join_created-IsAtomic cfg now id user options ts s (t, done) h f a k = λ e q.
    cc (
      ap (λ (p : State × Outcome). p.1) (join_created-done cfg now id user options ts t h (f refl)))

join_room-IsAtomic :
    (cfg : Config) (now : Clock) (id user : Text) (s : State)
    → cfg.max_members ≢ 1
    → IsAtomic s (join_room cfg now id user s)
unfolding join_room
join_room-IsAtomic cfg now id user s h =
    if_cases (IsAtomic s) (is_empty id || is_empty user) (λ _ _ _. refl)
      λ _.
        option_cases (IsAtomic s) (get text_dec id s.rooms)
          (λ _.
            if_cases (IsAtomic s) cfg.auto_create
              (λ _.
                join_created-IsAtomic cfg now id user no_options (now 0) s
                  (create_room cfg now id user no_options s) h
                  (create_room_done cfg now id user no_options s)
                  (create_room-ne-already cfg now id user no_options s)
                  (create_room-IsAtomic cfg now id user no_options s))
              (λ _ _ _. refl))
          (λ room _. join_existing-IsAtomic cfg now id user room s)

leave_room-IsAtomic :
    (cfg : Config) (now : Clock) (id user : Text) (s : State)
    → IsAtomic s (leave_room cfg now id user s)
unfolding leave_room
leave_room-IsAtomic cfg now id user s =
    if_cases (IsAtomic s) (is_empty id || is_empty user) (λ _ _ _. refl)
      λ _.
        option_cases (IsAtomic s) (get text_dec id s.rooms) (λ _ _ _. refl)
          λ room _.
            option_cases (IsAtomic s) (truthy (get_member_key room user)) (λ _ _ _. refl)
              (λ _ _ e q. cc)

start_leave-IsAtomic :
    (now : Clock) (id user : Text) (s : State) → IsAtomic s (start_leave now id user s)
unfolding start_leave
start_leave-IsAtomic now id user s =
    option_cases (IsAtomic s) (get text_dec id s.rooms) (λ _ _ _. refl)
      λ room _.
        option_cases (IsAtomic s) (truthy (get_member_key room user)) (λ _ _ _. refl)
          (λ _ _ e q. cc)

-- A call that fails leaves the whole state as it was, the store's calls included, on every error
-- path of every operation; a maximum of one member per room is excluded.
pub step_failed :
    (cfg : Config) (now : Clock) (op : Op) (s : State) (e : Error)
    → cfg.max_members ≢ 1
    → (step cfg now op s).1 ≡ failed e
    → (step cfg now op s).0 ≡ s
unfolding step delete_room update_room_meta remove_member set_member_role
step_failed cfg now (create id creator options) s e h =
    create_room-IsAtomic cfg now id creator options s e
step_failed cfg now (delete id) s e h =
    option_cases (IsAtomic s) (get text_dec id s.rooms) (λ _ _ _. refl) (λ _ _ e q. cc) e
step_failed cfg now (join id user) s e h = join_room-IsAtomic cfg now id user s h e
step_failed cfg now (leave id user) s e h = leave_room-IsAtomic cfg now id user s e
step_failed cfg now (leave_start id user) s e h = start_leave-IsAtomic now id user s e
step_failed cfg now (resume id size) s e h = λ q. cc
step_failed cfg now (patch id actor p) s e h =
    check_cases (IsAtomic s) (may_patch s id actor) (λ _ _ _ _. refl) (λ _ _ e q. cc) e
step_failed cfg now (remove id actor target) s e h =
    check_cases (IsAtomic s) (may_remove s id actor target) (λ _ _ _ _. refl)
      (λ _ _. leave_room-IsAtomic cfg now id target s) e
step_failed cfg now (set_role id actor target r) s e h =
    check_cases (IsAtomic s) (may_set_role s id actor target r) (λ _ _ _ _. refl) (λ _ _ e q. cc) e
