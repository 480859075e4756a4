-- ===== src/Rooms/Consistent/Joins.antt =====
-- createRoom, deleteRoom and joinRoom keep the maps in agreement.
use relay_chatapp.Base.{
  ℕ, suc, ◌≡◌, true, ◌||◌, none, some, Text, text_dec, trim, trim_idem, length, contains,
  contains-add, get, arith, if_cases, option_cases,
}
use relay_chatapp.Rooms.State.{Room, State, Config, Clock, Outcome, crashed, failed, is_empty}
use relay_chatapp.Rooms.Ops.{
  limit_reached, has_user, Options, no_options, new_room, create_room, delete_room, add_member,
  join_existing, join_created, join_room,
}
use relay_chatapp.Rooms.Index.{holds}
use relay_chatapp.Rooms.Consistent.{
  IsConsistent, Leaves, holds_of_get, holds_of_none, put_gain, persist_room-IsConsistent,
  delete_room_internal-IsConsistent,
}

new_room_members :
    (id creator : Text) (options : Options) (ts : ℕ) (s : State)
    → get text_dec id s.rooms ≡ none
    → (u : Text)
    → contains text_dec u (new_room id creator options ts).members
      ≡ (elim (text_dec u (trim creator)) [ yes _ ↦ true | no _ ↦ holds id u s.rooms ])
unfolding new_room contains
new_room_members id creator options ts s e u = ground (arith, holds_of_none id u s.rooms e)

add_member_members :
    (now : Clock) (v id : Text) (s : State) {room : Room}
    → get text_dec id s.rooms ≡ some room
    → (u : Text)
    → contains text_dec u (add_member now v room).members
      ≡ (elim (text_dec u v) [ yes _ ↦ true | no _ ↦ holds id u s.rooms ])
unfolding add_member
add_member_members now v id s {room} e u =
    ground (arith, holds_of_get id u s.rooms e, contains-add text_dec v u room.members)

pub create_room-IsConsistent :
    (cfg : Config) (now : Clock) (id creator : Text) (options : Options) (s : State)
    → IsConsistent s
    → Leaves (create_room cfg now id creator options s)
unfolding create_room
create_room-IsConsistent cfg now id creator options s h =
    if_cases Leaves (is_empty id) (λ _. h)
      λ _.
        option_cases Leaves (get text_dec id s.rooms)
          (λ e.
            if_cases Leaves (limit_reached cfg.max_rooms (length s.rooms)) (λ _. h)
              λ _. persist_room-IsConsistent id _ (
                put_gain id (trim creator) s (new_room id creator options (now 0))
                  (new_room_members id creator options (now 0) s e) (trim_idem creator) h))
          (λ _ _. h)

join_existing-IsConsistent :
    (cfg : Config) (now : Clock) (id user : Text) {room : Room} (s : State)
    → get text_dec id s.rooms ≡ some room
    → IsConsistent s
    → Leaves (join_existing cfg now id user room s)
unfolding join_existing
join_existing-IsConsistent cfg now id user {room} s e h =
    if_cases Leaves (limit_reached cfg.max_members (length room.members)) (λ _. h)
      λ _.
        if_cases Leaves (has_user room user) (λ _. h)
          λ _. persist_room-IsConsistent id _ (
            put_gain id (trim user) s (add_member now (trim user) room)
              (add_member_members now (trim user) id s e) (trim_idem user) h)

pub delete_room-IsConsistent : (id : Text) (s : State) → IsConsistent s → Leaves (delete_room id s)
unfolding delete_room
delete_room-IsConsistent id s h =
    option_cases Leaves (get text_dec id s.rooms) (λ _. h)
      (λ _ _. delete_room_internal-IsConsistent id s h)

join_created-IsConsistent :
    (cfg : Config) (now : Clock) (id user : Text) (o : State × Outcome)
    → Leaves o
    → Leaves (join_created cfg now id user o)
unfolding join_created
join_created-IsConsistent cfg now id user (s, failed e) h = h
join_created-IsConsistent cfg now id user (s, crashed) h = h
join_created-IsConsistent cfg now id user (s, _) h =
    option_cases Leaves (get text_dec id s.rooms) (λ _. h)
      (λ room e. join_existing-IsConsistent cfg (λ k. now (suc k)) id user s e h)

pub join_room-IsConsistent :
    (cfg : Config) (now : Clock) (id user : Text) (s : State)
    → IsConsistent s
    → Leaves (join_room cfg now id user s)
unfolding join_room
join_room-IsConsistent cfg now id user s h =
    if_cases Leaves (is_empty id || is_empty user) (λ _. h)
      λ _.
        option_cases Leaves (get text_dec id s.rooms)
          (λ _.
            if_cases Leaves cfg.auto_create
              (λ _.
                join_created-IsConsistent cfg now id user _
                  (create_room-IsConsistent cfg now id user no_options s h))
              (λ _. h))
          (λ room e. join_existing-IsConsistent cfg now id user s e h)
