-- ===== src/Rooms/Consistent/Loading.antt =====
-- loadFromStore builds an index that agrees with the rooms.
use relay_chatapp.Base.{
  ℕ, ◌≡◌, refl, sym, ap, ◌≢◌, Bool, true, none, List, [], ◌∷◌, map, Text, text_dec, trim, trim_idem,
  subst, Bool-cases, inl, inr, contains, contains-add, add, get, put, get-put, arith, if◌then◌else◌,
}
use relay_chatapp.Rooms.State.{Room, StoredRoom, State, is_empty}
use relay_chatapp.Rooms.Load.{add_all, load_room, index_members, load_records, load_from_store}
use relay_chatapp.Rooms.Index.{indexed, holds-put, indexed-index_room}
use relay_chatapp.Rooms.IndexSets.{NoEmptySet, index_room-NoEmptySet}
use relay_chatapp.Rooms.Consistent.{IsConsistent, holds_of_none}
use relay_chatapp.Rooms.Consistent.Run.{start-IsConsistent}

-- every member of the list is trimmed
abbrev AreTrimmed : List Text → Type 0
AreTrimmed us = (u : Text) → contains text_dec u us ≡ true → trim u ≡ u

contains-head : (u : Text) (us : List Text) → contains text_dec u (u ∷ us) ≡ true
unfolding contains
contains-head u us = ground arith

contains-tail :
    (u v : Text) (us : List Text)
    → contains text_dec u us ≡ true
    → contains text_dec u (v ∷ us) ≡ true
unfolding contains
contains-tail u v us h = ground arith

add-AreTrimmed :
    (v : Text) (set : List Text) → trim v ≡ v → AreTrimmed set → AreTrimmed (add text_dec v set)
add-AreTrimmed v set t h u c = ground (arith, contains-add text_dec v u set, h u)

add_all-AreTrimmed : (us set : List Text) → AreTrimmed set → AreTrimmed (add_all set (map trim us))
unfolding add_all
add_all-AreTrimmed [] set h = h
add_all-AreTrimmed (u ∷ us) set h =
    add_all-AreTrimmed us (add text_dec (trim u) set) (add-AreTrimmed (trim u) set (trim_idem u) h)

load_room-AreTrimmed : (now : ℕ) (stored : StoredRoom) → AreTrimmed (load_room now stored).members
unfolding load_room contains
load_room-AreTrimmed now stored = add_all-AreTrimmed stored.members [] (λ u c. cc)

indexed-index_members :
    (id r u : Text) (us : List Text) (index : List (Text × List Text))
    → AreTrimmed us
    → indexed r u (index_members id us index) ≡ (elim (text_dec r id) [
      | yes _ ↦ if contains text_dec u us then true else indexed r u index
      | no _ ↦ indexed r u index
    ])
unfolding index_members contains
indexed-index_members id r u [] index t = ground arith
indexed-index_members id r u (v ∷ us) index t = rw (t v (contains-head v us)) (
    ground (
      arith,
      indexed-index_members id r u us (relay_chatapp.Rooms.State.index_room id v index)
          (λ w c. t w (contains-tail w v us c)),
      indexed-index_room id v r u index,
    ))

index_members-NoEmptySet :
    (id : Text) (us : List Text) (index : List (Text × List Text))
    → NoEmptySet index
    → NoEmptySet (index_members id us index)
unfolding index_members
index_members-NoEmptySet id [] index h = h
index_members-NoEmptySet id (u ∷ us) index h =
    index_members-NoEmptySet id us _ (index_room-NoEmptySet id (trim u) index h)

load_one-IsConsistent :
    (now : ℕ) (stored : StoredRoom) (s : State)
    → get text_dec stored.id s.rooms ≡ none
    → IsConsistent s
    → IsConsistent (record s {
      rooms = put text_dec stored.id (load_room now stored) s.rooms;
      user_rooms = index_members stored.id (load_room now stored).members s.user_rooms;
    })
load_one-IsConsistent now stored s e h =
    let trimmed = load_room-AreTrimmed now stored in
    record {
      agree = λ r u. ground (
        arith,
        holds-put stored.id r u (load_room now stored) s.rooms,
        holds_of_none stored.id u s.rooms e,
        h.agree r u,
        indexed-index_members stored.id r u (load_room now stored).members s.user_rooms trimmed,
      );
      filled =
          index_members-NoEmptySet stored.id (load_room now stored).members s.user_rooms h.filled;
      trimmed = λ r u t.
          ground (
            arith,
            holds-put stored.id r u (load_room now stored) s.rooms,
            h.trimmed r u,
            trimmed u,
          );
    }

-- no room has the id of one of the records
abbrev AreAbsent : List StoredRoom → List (Text × Room) → Type 0
AreAbsent [] rooms = Unit
AreAbsent (stored ∷ records) rooms = (get text_dec stored.id rooms ≡ none) × AreAbsent records rooms

abbrev pub Differ : StoredRoom → List StoredRoom → Type 0
Differ a [] = Unit
Differ a (b ∷ l) = (b.id ≢ a.id) × Differ a l

-- The ids of the records differ.
abbrev pub HaveDistinctIds : List StoredRoom → Type 0
HaveDistinctIds [] = Unit
HaveDistinctIds (stored ∷ records) = Differ stored records × HaveDistinctIds records

AreAbsent-put :
    (a : StoredRoom) (room : Room) (records : List StoredRoom) (rooms : List (Text × Room))
    → Differ a records
    → AreAbsent records rooms
    → AreAbsent records (put text_dec a.id room rooms)
AreAbsent-put a room [] rooms d h = tt
AreAbsent-put a room (b ∷ records) rooms d h = (
  ground (arith, get-put text_dec a.id b.id room rooms),
  AreAbsent-put a room records rooms d.1 h.1,
)

load_records-IsConsistent :
    (now : ℕ) (records : List StoredRoom) (s : State)
    → HaveDistinctIds records
    → AreAbsent records s.rooms
    → IsConsistent s
    → IsConsistent (load_records now records s)
unfolding load_records
load_records-IsConsistent now [] s d a h = h
load_records-IsConsistent now (stored ∷ records) s d a h =
    let loaded : State = record s {
      rooms = put text_dec stored.id (load_room now stored) s.rooms;
      user_rooms = index_members stored.id (load_room now stored).members s.user_rooms;
    } in
    elim (Bool-cases (is_empty stored.id)) [
      | inl e ↦
          subst (λ (t : State). IsConsistent (load_records now records t))
            (sym (ap (λ (b : Bool). if b then s else loaded) e))
            (load_records-IsConsistent now records s d.1 a.1 h)
      | inr e ↦
          subst (λ (t : State). IsConsistent (load_records now records t))
            (sym (ap (λ (b : Bool). if b then s else loaded) e))
            (load_records-IsConsistent now records loaded d.1
              (AreAbsent-put stored (load_room now stored) records s.rooms d.0 a.1)
              (load_one-IsConsistent now stored s a.0 h))
    ]

AreAbsent-nil : (records : List StoredRoom) → AreAbsent records []
unfolding get
AreAbsent-nil [] = tt
AreAbsent-nil (stored ∷ records) = (refl, AreAbsent-nil records)

-- After a start the rooms and the index agree, whatever the records hold, if their ids differ:
-- `loadFromStore` trims the ids and rebuilds the index from nothing.
pub load_from_store-IsConsistent :
    (now : ℕ) (records : List StoredRoom) (s : State)
    → HaveDistinctIds records
    → IsConsistent (load_from_store now records s)
unfolding load_from_store
load_from_store-IsConsistent now records s d =
    load_records-IsConsistent now records (record s { rooms = []; user_rooms = [] }) d
      (AreAbsent-nil records)
      (record {
        agree = start-IsConsistent.agree;
        filled = start-IsConsistent.filled;
        trimmed = start-IsConsistent.trimmed;
      })
