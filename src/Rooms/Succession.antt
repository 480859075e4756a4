-- ===== src/Rooms/Succession.antt =====
-- Who owns a room of roomManager.js after its owner left.
use relay_chatapp.Base.{
  ℕ, ◌≤◌, ◌≡◌, refl, ap, ◌∙◌, true, false, none, some, Option-cases, ◌⊎◌, ◌&&◌, if_cases, inl, inr,
  List, [], ◌∷◌, Text, text_dec, All, All-keep, In, In-keep, contains, keep, get, put, get-put,
  get-drop_key, arith, length, ◌==◌,
}
use relay_chatapp.Rooms.State.{
  owner, Room, State, Config, Clock, persist_room, bump_version, delete_room_internal,
}
use relay_chatapp.Rooms.Leave.{
  find_owner, seniority, transfer_ownership_or_delete, leave_settle, leave_first, leave_begin,
  drop_member, was_owner, leave_member,
}
use relay_chatapp.Rooms.Seniority.{Later, sort-IsLeastFirst, In-sort, All-sort}

-- `heir` joined the room, is a member, and joined no later than any other member.
pub record IsSenior (heir : Text × ℕ) (room : Room) : Type 0 where
  pub joined : In heir room.joined_at
  pub stays : contains text_dec heir.0 room.members ≡ true
  pub oldest : All (λ e. contains text_dec e.0 room.members ≡ true → heir.1 ≤ e.1) room.joined_at

seniority-IsSenior :
    (room : Room) (heir : Text × ℕ) (rest : List (Text × ℕ))
    → seniority room ≡ heir ∷ rest
    → IsSenior heir room
unfolding seniority
seniority-IsSenior room heir rest e =
    let entries = keep (λ e. contains text_dec e.0 room.members) room.joined_at in
    let (joined, stays) =
      In-keep (λ e. contains text_dec e.0 room.members) heir room.joined_at
        (In-sort heir entries (rw e (inl refl))) in
    let least : Later heir (heir ∷ rest) = (omega arith, rw e at (sort-IsLeastFirst entries)) in
    record {
      joined = joined;
      stays = stays;
      oldest =
          All-keep (λ f. heir.1 ≤ f.1) (λ e. contains text_dec e.0 room.members) room.joined_at
            (All-sort (λ f. heir.1 ≤ f.1) entries (rw e least));
    }

-- the room with its new owner
abbrev pub crown : ℕ → Text → Room → Room
crown now heir room = bump_version now (record room { roles = put text_dec heir owner room.roles })

length_of_contains :
    (u : Text) (us : List Text) → contains text_dec u us ≡ true → (length us == 0) ≡ false
unfolding contains
length_of_contains u [] h = cc
length_of_contains u (v ∷ us) h = ground arith

pub get-persist_room :
    (id r : Text) (s : State) → get text_dec r (persist_room id s).rooms ≡ get text_dec r s.rooms
unfolding persist_room
get-persist_room id r s = elim (Option-cases (get text_dec id s.rooms)) [
  | inl e ↦ rw (e, persist_room)
  | inr (room, e) ↦ rw (e, persist_room)
]

pub get-delete_room_internal :
    (id : Text) (s : State) → get text_dec id (delete_room_internal id s).rooms ≡ none
unfolding delete_room_internal
get-delete_room_internal id s = elim (Option-cases (get text_dec id s.rooms)) [
  | inl e ↦ rw (e, delete_room_internal) e
  | inr (room, e) ↦
      rw (e, delete_room_internal) (ground (arith, get-drop_key text_dec id id s.rooms))
]

transfer_to_heir :
    (now : ℕ) (id : Text) (room : Room) (s : State) (heir : Text × ℕ) (rest : List (Text × ℕ))
    → find_owner room.roles ≡ none
    → seniority room ≡ heir ∷ rest
    → transfer_ownership_or_delete now id room s
      ≡ persist_room id (record s { rooms = put text_dec id (crown now heir.0 room) s.rooms })
unfolding transfer_ownership_or_delete
transfer_to_heir now id room s heir rest n e = rw (n, transfer_ownership_or_delete, e)

leave_first_of_owner :
    (now : Clock) (id user key : Text) (room : Room) (s : State)
    → was_owner key room ≡ true
    → leave_first now id user key room s
      ≡ transfer_ownership_or_delete
          (now 1)
          id
          (drop_member (now 0) key room)
          (leave_begin (now 0) id user key room s)
unfolding leave_first
leave_first_of_owner now id user key room s o = rw o

leave_settle_of_members :
    (cfg : Config) (id : Text) (us : List Text) (s : State)
    → (length us == 0) ≡ false
    → leave_settle cfg id (length us) s ≡ persist_room id s
unfolding leave_settle
leave_settle_of_members cfg id us s h = rw h

leave_settle_of_empty :
    (cfg : Config) (id : Text) (us : List Text) (s : State)
    → us ≡ []
    → cfg.auto_delete_empty ≡ true
    → leave_settle cfg id (length us) s ≡ delete_room_internal id s
unfolding leave_settle
leave_settle_of_empty cfg id us s e d = rw (e, d)

List-cases :
    (l : List (Text × ℕ)) → (l ≡ []) ⊎ ((e : Text × ℕ) × (rest : List (Text × ℕ)) × (l ≡ e ∷ rest))
List-cases [] = inl refl
List-cases (e ∷ rest) = inr (e, rest, refl)

-- no member of the room has a join time
abbrev pub IsUntimed : Room → Type 0
IsUntimed room = All (λ e. ¬ (contains text_dec e.0 room.members ≡ true)) room.joined_at

seniority-IsUntimed : (room : Room) → seniority room ≡ [] → IsUntimed room
unfolding seniority
seniority-IsUntimed room e =
    All-keep (λ _. ⊥) (λ e. contains text_dec e.0 room.members) room.joined_at
      (All-sort (λ _. ⊥) (keep (λ e. contains text_dec e.0 room.members) room.joined_at) (rw e tt))

transfer_to_nobody :
    (now : ℕ) (id : Text) (room : Room) (s : State)
    → find_owner room.roles ≡ none
    → seniority room ≡ []
    → transfer_ownership_or_delete now id room s ≡ delete_room_internal id s
unfolding transfer_ownership_or_delete
transfer_to_nobody now id room s n e = rw (n, transfer_ownership_or_delete, e)

settle_gone :
    (cfg : Config) (id : Text) (size : ℕ) (s : State)
    → get text_dec id s.rooms ≡ none
    → get text_dec id (leave_settle cfg id size s).rooms ≡ none
unfolding leave_settle
settle_gone cfg id size s gone =
    if_cases (λ (t : State). get text_dec id t.rooms ≡ none) (size == 0 && cfg.auto_delete_empty)
      (λ _. get-delete_room_internal id s) (λ _. get-persist_room id id s ∙ gone)

-- the room after an owner has left, with a new owner or deleted
abbrev pub IsSucceeded : Clock → Text → Room → State → Type 0
IsSucceeded now id left after =
    ((heir : Text × ℕ) × (get text_dec id after.rooms ≡ some (crown (now 1) heir.0 left))
      × IsSenior heir left)
    ⊎ ((get text_dec id after.rooms ≡ none) × IsUntimed left)

crowned_heir :
    (cfg : Config) (now : Clock) (id user key : Text) (room : Room) (s : State) (heir : Text × ℕ)
    (rest : List (Text × ℕ))
    → was_owner key room ≡ true
    → find_owner (drop_member (now 0) key room).roles ≡ none
    → seniority (drop_member (now 0) key room) ≡ heir ∷ rest
    → get text_dec id (leave_member cfg now id user key room s).rooms
      ≡ some (crown (now 1) heir.0 (drop_member (now 0) key room))
unfolding leave_member
crowned_heir cfg now id user key room s heir rest o n e =
    let left = drop_member (now 0) key room in
    let begun = leave_begin (now 0) id user key room s in
    let senior = seniority-IsSenior left heir rest e in
    let crowned = record begun {
      rooms = put text_dec id (crown (now 1) heir.0 left) begun.rooms;
    } in
    rw
      (
        leave_first_of_owner now id user key room s o,
        transfer_to_heir (now 1) id left begun heir rest n e,
        leave_settle_of_members cfg id left.members (persist_room id crowned)
            (length_of_contains heir.0 left.members senior.stays),
      )
      (ground (
        arith,
        get-persist_room id id (persist_room id crowned),
        get-persist_room id id crowned,
        get-put text_dec id id (crown (now 1) heir.0 left) begun.rooms,
      ))

deleted_without_heir :
    (cfg : Config) (now : Clock) (id user key : Text) (room : Room) (s : State)
    → was_owner key room ≡ true
    → find_owner (drop_member (now 0) key room).roles ≡ none
    → seniority (drop_member (now 0) key room) ≡ []
    → get text_dec id (leave_member cfg now id user key room s).rooms ≡ none
unfolding leave_member
deleted_without_heir cfg now id user key room s o n e =
    let left = drop_member (now 0) key room in
    let begun = leave_begin (now 0) id user key room s in
    rw (leave_first_of_owner now id user key room s o, transfer_to_nobody (now 1) id left begun n e)
      (settle_gone cfg id (length left.members) (delete_room_internal id begun)
        (get-delete_room_internal id begun))

-- When the only OWNER leaves, with no other call in between, one of two things holds after. Exactly one of the remaining members
-- becomes OWNER: one with a join time that is no later than that of any other remaining member who
-- has one, whatever their roles; the members, the other roles and the room's data are those that the
-- leave alone leaves, and the version grows once more. Or none of the remaining members has a join
-- time, and the room is gone, whether or not members remain.
pub owner_succession :
    (cfg : Config) (now : Clock) (id user key : Text) (room : Room) (s : State)
    → was_owner key room ≡ true
    → find_owner (drop_member (now 0) key room).roles ≡ none
    → IsSucceeded now id (drop_member (now 0) key room) (leave_member cfg now id user key room s)
owner_succession cfg now id user key room s o n =
    let left = drop_member (now 0) key room in
    elim (List-cases (seniority left)) [
      | inl e ↦
          inr (deleted_without_heir cfg now id user key room s o n e, seniority-IsUntimed left e)
      | inr (heir, rest, e) ↦ inl (
        heir,
        crowned_heir cfg now id user key room s heir rest o n e,
        seniority-IsSenior left heir rest e,
      )
    ]

-- When the last member of a room leaves and empty rooms are deleted, the room is gone, also if
-- that member was its owner.
pub last_member_leaves :
    (cfg : Config) (now : Clock) (id user key : Text) (room : Room) (s : State)
    → (drop_member (now 0) key room).members ≡ []
    → cfg.auto_delete_empty ≡ true
    → get text_dec id (leave_member cfg now id user key room s).rooms ≡ none
unfolding leave_member
last_member_leaves cfg now id user key room s e d =
    let left = drop_member (now 0) key room in
    let first = leave_first now id user key room s in
    ap (λ (t : State). get text_dec id t.rooms)
      (leave_settle_of_empty cfg id left.members first e d)
    ∙ get-delete_room_internal id first
