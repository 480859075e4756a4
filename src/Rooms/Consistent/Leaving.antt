-- ===== src/Rooms/Consistent/Leaving.antt =====
-- leaveRoom, with the succession of the owner, keeps the maps in agreement.
use relay_chatapp.Base.{
  ℕ, ◌≡◌, refl, sym, ◌∙◌, ◌≢◌, ◌⊎◌, inl, inr, Option-cases, true, false, ◌&&◌, ◌||◌, ◌==◌, some,
  List, [], ◌∷◌, Text, text_dec, trim, length, contains, contains-remove, get, put, get-put, arith,
  if_cases, option_cases,
}
use relay_chatapp.Rooms.State.{
  Room, State, Config, Clock, is_empty, get_member_key, truthy, bump_version, owner, persist_room,
  delete_room_internal,
}
use relay_chatapp.Rooms.Leave.{
  drop_member, leave_begin, transfer_ownership_or_delete, leave_settle, leave_first, leave_member,
  leave_room, seniority, find_owner, was_owner,
}
use relay_chatapp.Rooms.Index.{indexed, holds-put, indexed-unindex_first}
use relay_chatapp.Rooms.IndexSets.{unindex_first-NoEmptySet}
use relay_chatapp.Rooms.Consistent.{
  IsConsistent, Leaves, holds_of_get, put_same_members, persist_room-IsConsistent,
  delete_room_internal-IsConsistent,
}

pub member_key_lem :
    (room : Room) (user key : Text)
    → truthy (get_member_key room user) ≡ some key
    → (contains text_dec key room.members ≡ true) × ((key ≡ trim user) ⊎ (key ≡ user))
unfolding get_member_key
member_key_lem room user key h = ground arith

-- In a consistent state the key of a member is the trimmed id.
pub member_key-trim :
    (id user key : Text) (s : State) {room : Room}
    → get text_dec id s.rooms ≡ some room
    → truthy (get_member_key room user) ≡ some key
    → IsConsistent s
    → key ≡ trim user
member_key-trim id user key s {room} e k h =
    ground (arith, member_key_lem room user key k, holds_of_get id key s.rooms e, h.trimmed id key)

indexed-some :
    (r u : Text) (index : List (Text × List Text))
    → indexed r u index ≡ true
    → (set : List Text) × (get text_dec u index ≡ some set)
unfolding indexed
indexed-some r u index h = ground arith

-- The keys other than the member's own that leaveRoom drops had no set.
other_keys :
    (user key r u : Text) (s : State)
    → key ≡ trim user
    → IsConsistent s
    → u ≢ key
    → contains text_dec u (trim user ∷ user ∷ []) ≡ true
    → indexed r u s.user_rooms ≡ false
unfolding contains
other_keys user key r u s k h ne c = ground (arith, h.agree r u, h.trimmed r u)

leave_begin-IsConsistent :
    (now : ℕ) (id user key : Text) (s : State) {room : Room}
    → get text_dec id s.rooms ≡ some room
    → truthy (get_member_key room user) ≡ some key
    → IsConsistent s
    → IsConsistent (leave_begin now id user key room s)
unfolding leave_begin drop_member
leave_begin-IsConsistent now id user key s {room} e k h =
    let held = member_key_lem room user key k in
    let kt = member_key-trim id user key s e k h in
    let (set, g) =
      indexed-some id key s.user_rooms
        (sym (h.agree id key) ∙ holds_of_get id key s.rooms e ∙ held.0) in
    record {
      agree = λ r u. ground (
        arith,
        holds-put id r u (drop_member now key room) s.rooms,
        contains-remove text_dec key u room.members,
        holds_of_get id u s.rooms e,
        h.agree r u,
        indexed-unindex_first id key r u (trim user ∷ user ∷ []) (trim user ∷ user ∷ []) set
            s.user_rooms g (other_keys user key r u s kt h),
      );
      filled =
          unindex_first-NoEmptySet id key (trim user ∷ user ∷ []) (trim user ∷ user ∷ []) set
            s.user_rooms g h.filled;
      trimmed = λ r u t. ground (
        arith,
        holds-put id r u (drop_member now key room) s.rooms,
        contains-remove text_dec key u room.members,
        holds_of_get id u s.rooms e,
        h.trimmed r u,
      );
    }

get_after_begin :
    (now : ℕ) (id user key : Text) (s : State) (room : Room)
    → get text_dec id (leave_begin now id user key room s).rooms ≡ some (drop_member now key room)
unfolding leave_begin
get_after_begin now id user key s room =
    ground (arith, get-put text_dec id id (drop_member now key room) s.rooms)

transfer-IsConsistent :
    (now : ℕ) (id : Text) (s : State) {room : Room}
    → get text_dec id s.rooms ≡ some room
    → IsConsistent s
    → IsConsistent (transfer_ownership_or_delete now id room s)
unfolding transfer_ownership_or_delete
transfer-IsConsistent now id s {room} e h = elim (Option-cases (truthy (find_owner room.roles))) [
  | inr (u, o) ↦ rw (o, transfer_ownership_or_delete) h
  | inl o ↦ rw (o, transfer_ownership_or_delete) (by_heir (seniority room))
]
  where
    by_heir :
        (heirs : List (Text × ℕ))
        → IsConsistent (elim heirs [
          | [] ↦ delete_room_internal id s
          | heir ∷ _ ↦ persist_room id (record s {
            rooms =
                put text_dec id
                  (bump_version now (record room { roles = put text_dec heir.0 owner room.roles }))
                  s.rooms;
          })
        ])
    by_heir [] = delete_room_internal-IsConsistent id s h
    by_heir (heir ∷ _) = persist_room-IsConsistent id _ (put_same_members id s _ e refl h)

pub leave_settle-IsConsistent :
    (cfg : Config) (id : Text) (size : ℕ) (s : State)
    → IsConsistent s
    → IsConsistent (leave_settle cfg id size s)
unfolding leave_settle
leave_settle-IsConsistent cfg id size s h =
    if_cases IsConsistent (size == 0 && cfg.auto_delete_empty)
      (λ _. delete_room_internal-IsConsistent id s h) (λ _. persist_room-IsConsistent id s h)

pub leave_first-IsConsistent :
    (now : Clock) (id user key : Text) (s : State) {room : Room}
    → get text_dec id s.rooms ≡ some room
    → truthy (get_member_key room user) ≡ some key
    → IsConsistent s
    → IsConsistent (leave_first now id user key room s)
unfolding leave_first
leave_first-IsConsistent now id user key s {room} e k h =
    let begun = leave_begin-IsConsistent (now 0) id user key s e k h in
    if_cases IsConsistent (was_owner key room)
      (λ _.
        transfer-IsConsistent (now 1) id (leave_begin (now 0) id user key room s)
          (get_after_begin (now 0) id user key s room) begun)
      (λ _. begun)

leave_member-IsConsistent :
    (cfg : Config) (now : Clock) (id user key : Text) (s : State) {room : Room}
    → get text_dec id s.rooms ≡ some room
    → truthy (get_member_key room user) ≡ some key
    → IsConsistent s
    → IsConsistent (leave_member cfg now id user key room s)
unfolding leave_member
leave_member-IsConsistent cfg now id user key s {room} e k h =
    leave_settle-IsConsistent cfg id (length (drop_member (now 0) key room).members) _
      (leave_first-IsConsistent now id user key s e k h)

pub leave_room-IsConsistent :
    (cfg : Config) (now : Clock) (id user : Text) (s : State)
    → IsConsistent s
    → Leaves (leave_room cfg now id user s)
unfolding leave_room
leave_room-IsConsistent cfg now id user s h =
    if_cases Leaves (is_empty id || is_empty user) (λ _. h)
      λ _.
        option_cases Leaves (get text_dec id s.rooms) (λ _. h)
          λ room e.
            option_cases Leaves (truthy (get_member_key room user)) (λ _. h)
              λ key k. leave_member-IsConsistent cfg now id user key s e k h
