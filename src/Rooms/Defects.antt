-- ===== src/Rooms/Defects.antt =====
-- Where roomManager.js departs from what it means to do.
use relay_chatapp.Base.{
  ℕ, ◌≡◌, refl, sym, ap, ◌∙◌, true, false, Option, none, some, [], ◌||◌, Text, text_dec, trim,
  contains, get, put, get-put, arith, length,
}
use relay_chatapp.Rooms.State.{
  Role, Room, State, is_empty, failed, room_full, Config, Clock, Outcome, done, truthy,
  get_member_key, bump_version,
}
use relay_chatapp.Rooms.Roles.{check_cases, get_role, role_or_member}
use relay_chatapp.Rooms.Ops.{
  Options, create_room, join_room, join_created, no_options, new_room, join_existing,
}
use relay_chatapp.Rooms.Leave.{leave_settle, leave_first, drop_member}
use relay_chatapp.Rooms.Consistent.Run.{may_set_role-get}
use relay_chatapp.Rooms.Admin.{may_set_role, assign_role, set_member_role}
use relay_chatapp.Rooms.Succession.{get-delete_room_internal, get-persist_room}
use relay_chatapp.Rooms.Atomic.{create_room_done}

settle_empty :
    (cfg : Config) (id : Text) (size : ℕ) (s : State)
    → size ≡ 0
    → cfg.auto_delete_empty ≡ true
    → get text_dec id (leave_settle cfg id size s).rooms ≡ none
unfolding leave_settle
settle_empty cfg id size s e d = rw (e, d) (get-delete_room_internal id s)

-- The last member leaves a room and the call waits for the store. If another user creates a room
-- of that id meanwhile, and is told that it is done, the new room stands there with its creator;
-- when the leave goes on, it deletes this room.
pub resume_deletes_new_room :
    (cfg : Config) (now later : Clock) (id user key creator : Text) (options : Options)
    (room : Room) (s : State)
    → cfg.auto_delete_empty ≡ true
    → (drop_member (now 0) key room).members ≡ []
    → (create_room cfg later id creator options (leave_first now id user key room s)).1 ≡ done
    → (get text_dec id
          (create_room cfg later id creator options (leave_first now id user key room s)).0.rooms
        ≡ some (new_room id creator options (later 0)))
      × (get text_dec id
            (leave_settle cfg id
              (length (drop_member (now 0) key room).members)
              (create_room cfg later id creator options
                (leave_first now id user key room s)).0).rooms
          ≡ none)
resume_deletes_new_room cfg now later id user key creator options room s d e made = (
  create_room_done cfg later id creator options (leave_first now id user key room s) made,
  settle_empty cfg id _
      (create_room cfg later id creator options (leave_first now id user key room s)).0
      (ap length e) d,
)

-- the role that a room gives a user
role_in : Room → Text → Option Role
unfolding get_member_key
role_in room user = elim (truthy (get_member_key room user)) [
  | none ↦ none
  | some key ↦ some (role_or_member (get text_dec key room.roles))
]

get_role_of_get :
    (s : State) (id user : Text) {room : Room}
    → get text_dec id s.rooms ≡ some room
    → get_role s id user ≡ role_in room user
unfolding get_role role_in
get_role_of_get s id user e = rw (e, get_role)

get_role_same :
    (s t : State) (id user : Text)
    → get text_dec id t.rooms ≡ get text_dec id s.rooms
    → get_role t id user ≡ get_role s id user
unfolding get_role
get_role_same s t id user e = rw (e, get_role) refl

-- A role under a key that is no member's is nobody's.
role_in_elsewhere :
    (now : ℕ) (room : Room) (target user : Text) (r : Role)
    → contains text_dec target room.members ≡ false
    → role_in (bump_version now (record room { roles = put text_dec target r room.roles })) user
      ≡ role_in room user
unfolding role_in
role_in_elsewhere now room target user r c = ground (
  arith,
  get-put text_dec target (trim user) r room.roles,
  get-put text_dec target user r room.roles,
  c,
)

get-assign_role :
    (now : ℕ) (id target other : Text) (r : Role) (room : Room) (s : State)
    → get text_dec other (assign_role now id target r room s).rooms ≡ (elim (text_dec other id) [
      | yes _ ↦ some (bump_version now (record room { roles = put text_dec target r room.roles }))
      | no _ ↦ get text_dec other s.rooms
    ])
unfolding assign_role
get-assign_role now id target other r room s =
    get-persist_room id other _
    ∙ get-put text_dec id other
        (bump_version now (record room { roles = put text_dec target r room.roles })) s.rooms

assign_role-elsewhere :
    (now : ℕ) (id target other user : Text) (r : Role) (room : Room) (s : State)
    → get text_dec id s.rooms ≡ some room
    → contains text_dec target room.members ≡ false
    → get_role (assign_role now id target r room s) other user ≡ get_role s other user
assign_role-elsewhere now id target other user r room s e c =
    let after = assign_role now id target r room s in
    let found = get-assign_role now id target other r room s in
    elim (text_dec other id) [
      | yes p ↦
          let changed =
            bump_version now (record room { roles = put text_dec target r room.roles }) in
          let there : get text_dec other after.rooms ≡ some changed = ground (arith, found, p) in
          let before : get text_dec other s.rooms ≡ some room = rw p e in
          get_role_of_get after other user there
          ∙ role_in_elsewhere now room target user r c
          ∙ sym (get_role_of_get s other user before)
      | no n ↦ get_role_same s after other user (ground (arith, found, n))
    ]

-- `setMemberRole` in a room that is there, for a target that, as given, is not in the room's member set, as an id with white
-- space around it is not where the members' ids are trimmed: whatever the call answers, success
-- included, no user has another role in any room after it. It checks the target under the trimmed
-- id, and stores the role under the id as given.
pub set_role_untrimmed :
    (now : Clock) (id actor target : Text) (r : Option Role) (s : State) (room : Room)
    (other user : Text)
    → get text_dec id s.rooms ≡ some room
    → contains text_dec target room.members ≡ false
    → get_role (set_member_role now id actor target r s).0 other user ≡ get_role s other user
unfolding set_member_role
set_role_untrimmed now id actor target r s room other user e c =
    check_cases (λ (o : State × Outcome). get_role o.0 other user ≡ get_role s other user)
      (may_set_role s id actor target r) (λ _ _. refl)
      λ m q.
        let same : some m.0 ≡ some room = sym (may_set_role-get s id actor target r q) ∙ e in
        let one : m.0 ≡ room = cc in
        assign_role-elsewhere (now 0) id target other user m.1 m.0 s
          (may_set_role-get s id actor target r q) (rw one c)

join_room_missing :
    (cfg : Config) (now : Clock) (id user : Text) (s : State)
    → cfg.auto_create ≡ true
    → (is_empty id || is_empty user) ≡ false
    → get text_dec id s.rooms ≡ none
    → join_room cfg now id user s
      ≡ join_created cfg now id user (create_room cfg now id user no_options s)
unfolding join_room
join_room_missing cfg now id user s auto ids new = simp (ids, new, auto)

join_created-full :
    (cfg : Config) (now : Clock) (id user : Text) (ts : ℕ) (t : State)
    → cfg.max_members ≡ 1
    → get text_dec id t.rooms ≡ some (new_room id user no_options ts)
    → join_created cfg now id user (t, done) ≡ (t, failed room_full)
unfolding join_created join_existing new_room
join_created-full cfg now id user ts t one e = rw (e, join_created) (ground arith)

-- With a maximum of one member, a user who joins a missing room that the call may create is told
-- that the room is full, and yet the room stands there with the user in it.
pub join_reports_full_room :
    (cfg : Config) (now : Clock) (id user : Text) (s : State)
    → cfg.max_members ≡ 1
    → cfg.auto_create ≡ true
    → (is_empty id || is_empty user) ≡ false
    → get text_dec id s.rooms ≡ none
    → (create_room cfg now id user no_options s).1 ≡ done
    → ((join_room cfg now id user s).1 ≡ failed room_full)
      × (get text_dec id (join_room cfg now id user s).0.rooms
          ≡ some (new_room id user no_options (now 0)))
join_reports_full_room cfg now id user s one auto ids new made =
    let made_room = create_room cfg now id user no_options s in
    let found = create_room_done cfg now id user no_options s made in
    let joined : join_room cfg now id user s ≡ (made_room.0, failed room_full) =
      join_room_missing cfg now id user s auto ids new
      ∙ ap (λ (o : Outcome). join_created cfg now id user (made_room.0, o)) made
      ∙ join_created-full cfg now id user (now 0) made_room.0 one found in
    (
      ap (λ (o : State × Outcome). o.1) joined,
      ap (λ (o : State × Outcome). get text_dec id o.0.rooms) joined ∙ found,
    )
