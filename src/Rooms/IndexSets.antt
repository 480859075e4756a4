-- ===== src/Rooms/IndexSets.antt =====
-- The sets in the index of roomManager.js: none of them stays empty.
use relay_chatapp.Base.{
  ◌≡◌, ◌≢◌, inl, inr, Option-cases, Bool-cases, false, some, List, [], ◌∷◌, Text, text_dec, get,
  put, drop_key, get-put, get-drop_key, add, remove, arith,
}
use relay_chatapp.Rooms.State.{is_empty, index_room, unindex_room, unindex_members}
use relay_chatapp.Rooms.Leave.{drop_keys, unindex_first}

abbrev pub NoEmptySet : List (Text × List Text) → Type 0
NoEmptySet index = (u : Text) → get text_dec u index ≢ some []

not-empty : {A : Type 0} (l : List A) → is_empty l ≡ false → l ≢ []
not-empty [] h = cc
not-empty (x ∷ l) h = cc

put-NoEmptySet :
    (v : Text) (set : List Text) (index : List (Text × List Text))
    → set ≢ []
    → NoEmptySet index
    → NoEmptySet (put text_dec v set index)
put-NoEmptySet v set index ne h u = λ e. ground (arith, get-put text_dec v u set index, h u)

drop_key-NoEmptySet :
    (v : Text) (index : List (Text × List Text))
    → NoEmptySet index
    → NoEmptySet (drop_key text_dec v index)
drop_key-NoEmptySet v index h u = λ e. ground (arith, get-drop_key text_dec v u index, h u)

add-ne-nil : (a : Text) (xs : List Text) → add text_dec a xs ≢ []
unfolding add
add-ne-nil a [] = cc
add-ne-nil a (x ∷ xs) = ground arith

pub index_room-NoEmptySet :
    (id v : Text) (index : List (Text × List Text))
    → NoEmptySet index
    → NoEmptySet (index_room id v index)
unfolding index_room
index_room-NoEmptySet id v index h = elim (Option-cases (get text_dec v index)) [
  | inl e ↦ rw (e, index_room) (put-NoEmptySet v _ index (add-ne-nil id []) h)
  | inr (set, e) ↦ rw (e, index_room) (put-NoEmptySet v _ index (add-ne-nil id set) h)
]

unindex_room-NoEmptySet :
    (id v : Text) (index : List (Text × List Text))
    → NoEmptySet index
    → NoEmptySet (unindex_room id v index)
unfolding unindex_room
unindex_room-NoEmptySet id v index h = elim (Option-cases (get text_dec v index)) [
  | inl e ↦ rw (e, unindex_room) h
  | inr (set, e) ↦ elim (Bool-cases (is_empty (remove text_dec id set))) [
    | inl none_left ↦ rw (e, unindex_room, none_left) (drop_key-NoEmptySet v index h)
    | inr some_left ↦
        rw (e, unindex_room, some_left) (put-NoEmptySet v _ index (not-empty _ some_left) h)
  ]
]

pub unindex_members-NoEmptySet :
    (id : Text) (us : List Text) (index : List (Text × List Text))
    → NoEmptySet index
    → NoEmptySet (unindex_members id us index)
unfolding unindex_members
unindex_members-NoEmptySet id [] index h = h
unindex_members-NoEmptySet id (u ∷ us) index h =
    unindex_members-NoEmptySet id us _ (unindex_room-NoEmptySet id u index h)

drop_keys-NoEmptySet :
    (ks : List Text) (index : List (Text × List Text))
    → NoEmptySet index
    → NoEmptySet (drop_keys ks index)
unfolding drop_keys
drop_keys-NoEmptySet [] index h = h
drop_keys-NoEmptySet (k ∷ ks) index h = drop_keys-NoEmptySet ks _ (drop_key-NoEmptySet k index h)

-- Dropping a key undoes what was put there.
drop_key-put :
    (v : Text) (set : List Text) (index : List (Text × List Text))
    → drop_key text_dec v (put text_dec v set index) ≡ drop_key text_dec v index
unfolding drop_key put
drop_key-put v set [] = ground arith
drop_key-put v set ((w, x) ∷ index) = ground (arith, drop_key-put v set index)

pub unindex_first-NoEmptySet :
    (id v : Text) (js ks set : List Text) (index : List (Text × List Text))
    → get text_dec v index ≡ some set
    → NoEmptySet index
    → NoEmptySet (unindex_first id (v ∷ js) (v ∷ ks) index)
unfolding unindex_first drop_keys
unindex_first-NoEmptySet id v js ks set index e h =
    elim (Bool-cases (is_empty (remove text_dec id set))) [
      | inl none_left ↦
          rw (e, unindex_first, none_left, drop_key-put)
            (drop_keys-NoEmptySet ks _ (drop_key-NoEmptySet v index h))
      | inr some_left ↦
          rw (e, unindex_first, some_left) (put-NoEmptySet v _ index (not-empty _ some_left) h)
    ]
