-- ===== src/Rooms/Consistent.antt =====
-- The two maps of roomManager.js agree: the rooms' member sets and the users' room sets.
mod Joins
mod Leaving
pub mod Run
pub mod Loading
use relay_chatapp.Base.{
  ◌≡◌, sym, ◌∙◌, inl, inr, Option-cases, Bool, true, false, Option, none, some, List, [], ◌∷◌, Text,
  text_dec, trim, contains, get, put, get-put, arith,
}
use relay_chatapp.Rooms.State.{Room, State, Outcome, persist_room, delete_room_internal, index_room}
use relay_chatapp.Rooms.Index.{
  holds, indexed, holds-put, holds-drop_key, indexed-index_room, indexed-unindex_members,
}
use relay_chatapp.Rooms.IndexSets.{NoEmptySet, index_room-NoEmptySet, unindex_members-NoEmptySet}

-- The index mirrors the rooms, no indexed set is empty, and member ids are trimmed.
pub record IsConsistent (s : State) : Type 0 where
  pub agree : (r u : Text) → holds r u s.rooms ≡ indexed r u s.user_rooms
  pub filled : NoEmptySet s.user_rooms
  pub trimmed : (r u : Text) → holds r u s.rooms ≡ true → trim u ≡ u

pub holds_of_get :
    (r u : Text) (rooms : List (Text × Room)) {room : Room}
    → get text_dec r rooms ≡ some room
    → holds r u rooms ≡ contains text_dec u room.members
unfolding holds
holds_of_get r u rooms e = rw (e, holds)

pub holds_of_none :
    (r u : Text) (rooms : List (Text × Room))
    → get text_dec r rooms ≡ none
    → holds r u rooms ≡ false
unfolding holds
holds_of_none r u rooms e = rw (e, holds)

-- A room that is replaced by one with the same members changes nothing here.
pub put_same_members :
    (id : Text) (s : State) {room : Room} (room' : Room)
    → get text_dec id s.rooms ≡ some room
    → room'.members ≡ room.members
    → IsConsistent s
    → IsConsistent (record s { rooms = put text_dec id room' s.rooms })
put_same_members id s {room} room' e m h = record {
  agree = λ r u. same r u ∙ h.agree r u;
  filled = h.filled;
  trimmed = λ r u t. h.trimmed r u (sym (same r u) ∙ t);
}
  where
    same : (r u : Text) → holds r u (put text_dec id room' s.rooms) ≡ holds r u s.rooms
    same r u = ground (arith, holds-put id r u room' s.rooms, holds_of_get id u s.rooms e)

pub persist_room-IsConsistent :
    (id : Text) (s : State) → IsConsistent s → IsConsistent (persist_room id s)
unfolding persist_room
persist_room-IsConsistent id s h = elim (Option-cases (get text_dec id s.rooms)) [
  | inl e ↦ rw (e, persist_room) h
  | inr (room, e) ↦
      rw (e, persist_room) (record { agree = h.agree; filled = h.filled; trimmed = h.trimmed })
]

-- A room that gains the member `v`, with the index.
pub put_gain :
    (id v : Text) (s : State) (room' : Room)
    → ((u : Text)
        → contains text_dec u room'.members
          ≡ (elim (text_dec u v) [ yes _ ↦ true | no _ ↦ holds id u s.rooms ]))
    → trim v ≡ v
    → IsConsistent s
    → IsConsistent (record s {
      rooms = put text_dec id room' s.rooms;
      user_rooms = index_room id v s.user_rooms;
    })
put_gain id v s room' m tv h = record {
  agree = λ r u. ground (
    arith,
    holds-put id r u room' s.rooms,
    m u,
    h.agree r u,
    indexed-index_room id v r u s.user_rooms,
  );
  filled = index_room-NoEmptySet id v s.user_rooms h.filled;
  trimmed = λ r u t. ground (arith, holds-put id r u room' s.rooms, m u, h.trimmed r u);
}

pub delete_room_internal-IsConsistent :
    (id : Text) (s : State) → IsConsistent s → IsConsistent (delete_room_internal id s)
unfolding delete_room_internal
delete_room_internal-IsConsistent id s h = elim (Option-cases (get text_dec id s.rooms)) [
  | inl e ↦ rw (e, delete_room_internal) h
  | inr (room, e) ↦
      rw (e, delete_room_internal)
        (record {
          agree = λ r u. ground (
            arith,
            holds-drop_key id r u s.rooms,
            h.agree r u,
            holds_of_get id u s.rooms e,
            indexed-unindex_members id r u room.members s.user_rooms,
          );
          filled = unindex_members-NoEmptySet id room.members s.user_rooms h.filled;
          trimmed = λ r u t. ground (arith, holds-drop_key id r u s.rooms, h.trimmed r u);
        })
]

-- what an operation leaves, with its result
abbrev pub Leaves : State × Outcome → Type 0
Leaves o = IsConsistent o.0
