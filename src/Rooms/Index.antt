-- ===== src/Rooms/Index.antt =====
-- What the rooms and the index from users to rooms of roomManager.js hold after each update.
use relay_chatapp.Base.{
  ◌≡◌, refl, ◌≢◌, inl, inr, Option-cases, Bool, true, false, none, some, List, [], ◌∷◌, Text,
  text_dec, contains, contains-add, contains-remove, get, put, drop_key, get-put, get-drop_key, add,
  remove, arith, if◌then◌else◌,
}
use relay_chatapp.Rooms.State.{Room, is_empty, index_room, unindex_room, unindex_members}
use relay_chatapp.Rooms.Leave.{drop_keys, unindex_first}

-- `u` is a member of the room `r`
unfoldable pub holds : Text → Text → List (Text × Room) → Bool
holds r u rooms = elim (get text_dec r rooms) [
  | none ↦ false
  | some room ↦ contains text_dec u room.members
]

-- the index lists the room `r` for `u`
unfoldable pub indexed : Text → Text → List (Text × List Text) → Bool
indexed r u index = elim (get text_dec u index) [
  | none ↦ false
  | some set ↦ contains text_dec r set
]

pub holds-put :
    (id r u : Text) (room : Room) (rooms : List (Text × Room))
    → holds r u (put text_dec id room rooms)
      ≡ (elim (text_dec r id) [ yes _ ↦ contains text_dec u room.members | no _ ↦ holds r u rooms ])
unfolding holds
holds-put id r u room rooms = ground (arith, get-put text_dec id r room rooms)

pub holds-drop_key :
    (id r u : Text) (rooms : List (Text × Room))
    → holds r u (drop_key text_dec id rooms)
      ≡ (elim (text_dec r id) [ yes _ ↦ false | no _ ↦ holds r u rooms ])
unfolding holds
holds-drop_key id r u rooms = ground (arith, get-drop_key text_dec id r rooms)

indexed-put :
    (r u v : Text) (set : List Text) (index : List (Text × List Text))
    → indexed r u (put text_dec v set index)
      ≡ (elim (text_dec u v) [ yes _ ↦ contains text_dec r set | no _ ↦ indexed r u index ])
unfolding indexed
indexed-put r u v set index = ground (arith, get-put text_dec v u set index)

indexed-drop_key :
    (r u v : Text) (index : List (Text × List Text))
    → indexed r u (drop_key text_dec v index)
      ≡ (elim (text_dec u v) [ yes _ ↦ false | no _ ↦ indexed r u index ])
unfolding indexed
indexed-drop_key r u v index = ground (arith, get-drop_key text_dec v u index)

contains_of_empty :
    (r : Text) (set : List Text) → is_empty set ≡ true → contains text_dec r set ≡ false
unfolding contains
contains_of_empty r [] h = refl
contains_of_empty r (x ∷ set) h = ground arith

pub indexed-index_room :
    (id v r u : Text) (index : List (Text × List Text))
    → indexed r u (index_room id v index) ≡ (elim (text_dec u v) [
      | yes _ ↦ elim (text_dec r id) [ yes _ ↦ true | no _ ↦ indexed r u index ]
      | no _ ↦ indexed r u index
    ])
unfolding indexed index_room contains
indexed-index_room id v r u index = elim (Option-cases (get text_dec v index)) [
  | inl e ↦
      rw (e, index_room)
        (ground
          (arith, get-put text_dec v u (add text_dec id []) index, contains-add text_dec id r []))
  | inr (set, e) ↦
      rw (e, index_room)
        (ground
          (arith, get-put text_dec v u (add text_dec id set) index, contains-add text_dec id r set))
]

pub indexed-unindex_room :
    (id v r u : Text) (index : List (Text × List Text))
    → indexed r u (unindex_room id v index) ≡ (elim (text_dec u v) [
      | yes _ ↦ elim (text_dec r id) [ yes _ ↦ false | no _ ↦ indexed r u index ]
      | no _ ↦ indexed r u index
    ])
unfolding indexed unindex_room
indexed-unindex_room id v r u index = elim (Option-cases (get text_dec v index)) [
  | inl e ↦ rw (e, unindex_room) (ground arith)
  | inr (set, e) ↦
      rw (e, unindex_room)
        (ground (
          arith,
          get-put text_dec v u (remove text_dec id set) index,
          get-drop_key text_dec v u index,
          contains-remove text_dec id r set,
          contains_of_empty r (remove text_dec id set),
        ))
]

pub indexed-unindex_members :
    (id r u : Text) (us : List Text) (index : List (Text × List Text))
    → indexed r u (unindex_members id us index) ≡ (elim (text_dec r id) [
      | yes _ ↦ if contains text_dec u us then false else indexed r u index
      | no _ ↦ indexed r u index
    ])
unfolding unindex_members contains
indexed-unindex_members id r u [] index = ground arith
indexed-unindex_members id r u (v ∷ us) index = ground (
  arith,
  indexed-unindex_members id r u us (unindex_room id v index),
  indexed-unindex_room id v r u index,
)

indexed-drop_keys :
    (r u : Text) (ks : List Text) (index : List (Text × List Text))
    → indexed r u (drop_keys ks index)
      ≡ (if contains text_dec u ks then false else indexed r u index)
unfolding drop_keys contains
indexed-drop_keys r u [] index = refl
indexed-drop_keys r u (k ∷ ks) index =
    ground
      (arith, indexed-drop_keys r u ks (drop_key text_dec k index), indexed-drop_key r u k index)

indexed_of_get :
    (r u : Text) (set : List Text) (index : List (Text × List Text))
    → get text_dec u index ≡ some set
    → indexed r u index ≡ contains text_dec r set
unfolding indexed
indexed_of_get r u set index e = rw (e, indexed)

-- The other keys that go with an emptied set had no set of their own.
pub indexed-unindex_first :
    (id v r u : Text) (js ks set : List Text) (index : List (Text × List Text))
    → get text_dec v index ≡ some set
    → (u ≢ v → contains text_dec u ks ≡ true → indexed r u index ≡ false)
    → indexed r u (unindex_first id (v ∷ js) (v ∷ ks) index) ≡ (elim (text_dec u v) [
      | yes _ ↦ elim (text_dec r id) [ yes _ ↦ false | no _ ↦ indexed r u index ]
      | no _ ↦ indexed r u index
    ])
unfolding unindex_first drop_keys
indexed-unindex_first id v r u js ks set index e h =
    rw (e, unindex_first)
      (ground (
        arith,
        indexed_of_get r v set index e,
        indexed-put r u v (remove text_dec id set) index,
        indexed-drop_keys r u ks
            (drop_key text_dec v (put text_dec v (remove text_dec id set) index)),
        indexed-drop_key r u v (put text_dec v (remove text_dec id set) index),
        contains-remove text_dec id r set,
        contains_of_empty r (remove text_dec id set),
      ))
