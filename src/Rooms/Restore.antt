-- ===== src/Rooms/Restore.antt =====
-- What roomManager.js saves of a room, loadFromStore reads back.
use relay_chatapp.Base.{
  ℕ, ◌≡◌, refl, sym, subst, ap, ◌∙◌, ◌≢◌, List, [], ◌∷◌, ◌++◌, map, Text, text_dec, trim, add, get,
  put, none, arith,
}
use mathlib.Core.List.{append-nil, append_assoc, map-append}
use relay_chatapp.Rooms.Objects.{proto, to_object}
use relay_chatapp.Rooms.ObjectKeys.{
  keys, AllTrimmed, IsNew, IsDistinct, IsDistinct-to_object, AllTrimmed-to_object, get-to_object,
}
use relay_chatapp.Rooms.State.{Room, StoredRoom, State, to_store_record}
use relay_chatapp.Rooms.Load.{
  add_all, put_trimmed, load_room, load_records, load_from_store, index_members,
}

map-trim : (us : List Text) → AllTrimmed us → map trim us ≡ us
map-trim [] h = refl
map-trim (u ∷ us) h = rw (h.0, map-trim us h.1)

-- every element of `us` is new to `set`
abbrev pub AreNew : List Text → List Text → Type 0
AreNew set [] = Unit
AreNew set (u ∷ us) = IsNew u set × AreNew set us

add_new : (u : Text) (set : List Text) → IsNew u set → add text_dec u set ≡ set ++ u ∷ []
unfolding add
add_new u [] h = refl
add_new u (v ∷ set) h = ground (arith, add_new u set)

IsNew-append : (u v : Text) (set : List Text) → IsNew u set → u ≢ v → IsNew u (set ++ v ∷ [])
IsNew-append u v [] h n = (n, tt)
IsNew-append u v (w ∷ set) h n = (h.0, IsNew-append u v set h.1 n)

AreNew-append :
    (v : Text) (set us : List Text) → AreNew set us → IsNew v us → AreNew (set ++ v ∷ []) us
AreNew-append v set [] h n = tt
AreNew-append v set (u ∷ us) h n =
    (IsNew-append u v set h.0 (λ e. n.0 (sym e)), AreNew-append v set us h.1 n.1)

add_all_new : (set us : List Text) → AreNew set us → IsDistinct us → add_all set us ≡ set ++ us
unfolding add_all
add_all_new set [] n d = sym (append-nil set)
add_all_new set (u ∷ us) n d = rw (add_new u set n.0) (
    add_all_new (set ++ u ∷ []) us (AreNew-append u set us n.1 d.0) d.1
    ∙ append_assoc set (u ∷ []) us)

put_new :
    {V : Type 0} (u : Text) (v : V) (m : List (Text × V))
    → IsNew u (keys m)
    → put text_dec u v m ≡ m ++ (u, v) ∷ []
unfolding put
put_new u v [] h = refl
put_new u v ((w, x) ∷ m) h = ground (arith, put_new u v m)

keys-append :
    {V : Type 0} (u : Text) (v : V) (m : List (Text × V))
    → keys (m ++ (u, v) ∷ []) ≡ keys m ++ u ∷ []
keys-append u v m = map-append (λ e. e.0) m ((u, v) ∷ [])

put_trimmed_new :
    {V : Type 0} (m es : List (Text × V))
    → AreNew (keys m) (keys es)
    → IsDistinct (keys es)
    → AllTrimmed (keys es)
    → put_trimmed m es ≡ m ++ es
unfolding put_trimmed
put_trimmed_new m [] n d t = sym (append-nil m)
put_trimmed_new m ((u, v) ∷ es) n d t =
    rw (t.0, put_new u v m n.0)
      (put_trimmed_new (m ++ (u, v) ∷ []) es
          (rw (keys-append u v m) (AreNew-append u (keys m) (keys es) n.1 d.0)) d.1 t.1
        ∙ append_assoc m ((u, v) ∷ []) es)

AreNew-nil : (us : List Text) → AreNew [] us
AreNew-nil [] = tt
AreNew-nil (u ∷ us) = (tt, AreNew-nil us)

-- The ids of a room are trimmed, and no map or set of it holds one twice.
pub record IsStorable (room : Room) : Type 0 where
  pub members_trimmed : AllTrimmed room.members
  pub members_distinct : IsDistinct room.members
  pub roles_trimmed : AllTrimmed (keys room.roles)
  pub roles_distinct : IsDistinct (keys room.roles)
  pub joined_trimmed : AllTrimmed (keys room.joined_at)
  pub joined_distinct : IsDistinct (keys room.joined_at)

-- a room whose maps went through objects
abbrev through_objects : Room → Room
through_objects room = record room {
  roles = to_object room.roles;
  joined_at = to_object room.joined_at;
}

load_room-to_store_record :
    (now : ℕ) (id : Text) (room : Room)
    → IsStorable room
    → load_room now (to_store_record id room) ≡ through_objects room
unfolding load_room to_store_record
load_room-to_store_record now id room h = rw (
  map-trim room.members h.members_trimmed,
  add_all_new [] room.members (AreNew-nil room.members) h.members_distinct,
  put_trimmed_new [] (to_object room.roles) (AreNew-nil (keys (to_object room.roles)))
      (IsDistinct-to_object room.roles h.roles_distinct)
      (AllTrimmed-to_object room.roles h.roles_trimmed),
  put_trimmed_new [] (to_object room.joined_at) (AreNew-nil (keys (to_object room.joined_at)))
      (IsDistinct-to_object room.joined_at h.joined_distinct)
      (AllTrimmed-to_object room.joined_at h.joined_trimmed),
)

abbrev pub AllStorable : List (Text × Room) → Type 0
AllStorable [] = Unit
AllStorable ((id, room) ∷ rooms) = (id ≢ []) × IsStorable room × AllStorable rooms

pub save_all : List (Text × Room) → List StoredRoom
unfolding to_store_record
save_all = map (λ e. to_store_record e.0 e.1)

abbrev all_through : List (Text × Room) → List (Text × Room)
all_through rooms = map (λ e. (e.0, through_objects e.1)) rooms

load_records-rooms :
    (now : ℕ) (rooms : List (Text × Room)) (s : State)
    → AllStorable rooms
    → AreNew (keys s.rooms) (keys rooms)
    → IsDistinct (keys rooms)
    → (load_records now (save_all rooms) s).rooms ≡ s.rooms ++ all_through rooms
unfolding load_records save_all
load_records-rooms now [] s h n d = sym (append-nil s.rooms)
load_records-rooms now (([], room) ∷ rooms) s h n d = absurd (h.0 refl)
load_records-rooms now ((c ∷ w, room) ∷ rooms) s h n d =
    let id : Text = c ∷ w in
    let index = index_members id (load_room now (to_store_record id room)).members s.user_rooms in
    let loaded : State = record s {
      rooms = put text_dec id (load_room now (to_store_record id room)) s.rooms;
      user_rooms = index;
    } in
    let here : loaded.rooms ≡ s.rooms ++ (id, through_objects room) ∷ [] =
      ap (λ (a : Room). put text_dec id a s.rooms) (load_room-to_store_record now id room h.1)
      ∙ put_new id (through_objects room) s.rooms n.0 in
    load_records-rooms now rooms loaded h.2
      (subst (λ (m : List (Text × Room)). AreNew (keys m) (keys rooms)) (sym here)
        (rw (keys-append id (through_objects room) s.rooms)
          (AreNew-append id (keys s.rooms) (keys rooms) n.1 d.0)))
      d.1
    ∙ ap (λ (m : List (Text × Room)). m ++ all_through rooms) here
    ∙ append_assoc s.rooms ((id, through_objects room) ∷ []) (all_through rooms)

-- `loaded` is the room that was saved: its roles and join times are the same for every user but one
-- called `__proto__`, who has none.
pub record IsRestored (room loaded : Room) : Type 0 where
  pub members : loaded.members ≡ room.members
  pub meta : loaded.meta ≡ room.meta
  pub version : loaded.version ≡ room.version
  pub updated_at : loaded.updated_at ≡ room.updated_at
  pub roles :
      (user : Text)
      → get text_dec user loaded.roles
        ≡ (elim (text_dec user proto) [ yes _ ↦ none | no _ ↦ get text_dec user room.roles ])
  pub joined :
      (user : Text)
      → get text_dec user loaded.joined_at
        ≡ (elim (text_dec user proto) [ yes _ ↦ none | no _ ↦ get text_dec user room.joined_at ])

-- room by room, under the same ids
abbrev pub AllRestored : List (Text × Room) → List (Text × Room) → Type 0
AllRestored [] [] = Unit
AllRestored ((id, room) ∷ rooms) ((loaded_id, loaded) ∷ others) =
    (loaded_id ≡ id) × IsRestored room loaded × AllRestored rooms others
AllRestored _ _ = ⊥

all_through-AllRestored :
    (rooms : List (Text × Room)) → AllStorable rooms → AllRestored rooms (all_through rooms)
all_through-AllRestored [] h = tt
all_through-AllRestored ((id, room) ∷ rooms) h = (
  refl,
  record {
    members = refl;
    meta = refl;
    version = refl;
    updated_at = refl;
    roles = λ user. get-to_object user room.roles h.1.roles_distinct;
    joined = λ user. get-to_object user room.joined_at h.1.joined_distinct;
  },
  all_through-AllRestored rooms h.2,
)

-- What `toRoomStoreRecord` saves of every room, `loadFromStore` reads back from records in the order
-- of the rooms, whatever the state before: under the same ids in this order, rooms with the same
-- members, data, version and time, and with the same role and join time of every user, for rooms
-- with distinct ids that are not empty and whose member ids and keys are trimmed and distinct. The
-- order of the roles and of the join times may be another, since both go through objects, and a
-- user `__proto__` has neither after.
pub load_from_store-save_all :
    (now : ℕ) (rooms : List (Text × Room)) (s : State)
    → AllStorable rooms
    → IsDistinct (keys rooms)
    → AllRestored rooms (load_from_store now (save_all rooms) s).rooms
unfolding load_from_store
load_from_store-save_all now rooms s h d =
    subst (AllRestored rooms)
      (sym (
        load_records-rooms now rooms (record s { rooms = []; user_rooms = [] }) h
          (AreNew-nil (keys rooms)) d))
      (all_through-AllRestored rooms h)
