-- ===== src/Rooms/Load.antt =====
-- loadFromStore of roomManager.js.
use relay_chatapp.Base.{
  ℕ, zero, suc, Option, none, some, List, [], ◌∷◌, map, Text, text_dec, trim, add, put,
  if◌then◌else◌,
}
use relay_chatapp.Rooms.State.{Room, StoredRoom, State, is_empty, index_room}

abbrev pub or_default {ℓ} : {A : Type ℓ} → Option A → A → A
or_default none d = d
or_default (some a) d = a

-- `new Set(list)`, from the set built so far
unfoldable pub add_all : List Text → List Text → List Text
unfolding add text_dec
add_all set [] = set
add_all set (u ∷ us) = add_all (add text_dec u set) us

-- the loop that fills a `Map` under trimmed keys
unfoldable pub put_trimmed {ℓ} : {V : Type ℓ} → List (Text × V) → List (Text × V) → List (Text × V)
unfolding put text_dec trim
put_trimmed m [] = m
put_trimmed m ((u, v) ∷ entries) = put_trimmed (put text_dec (trim u) v m) entries

-- `x || Date.now()`
abbrev time_or_now : Option ℕ → ℕ → ℕ
time_or_now none now = now
time_or_now (some zero) now = now
time_or_now (some (suc t)) now = suc t

-- `roles` and `joined_at` of a record are what Object.entries lists.
unfoldable pub load_room : ℕ → StoredRoom → Room
unfolding add_all put_trimmed trim
load_room now stored = record {
  members = add_all [] (map trim stored.members);
  roles = put_trimmed [] stored.roles;
  meta = or_default stored.meta (record {
    name = stored.id;
    thumbnail_url = none;
    created_at = time_or_now stored.updated_at now;
    created_by = [];
  });
  updated_at = or_default stored.updated_at now;
  version = or_default stored.version 1;
  joined_at = put_trimmed [] stored.joined_at;
}

unfoldable pub index_members : Text → List Text → List (Text × List Text) → List (Text × List Text)
unfolding index_room trim
index_members id [] index = index
index_members id (u ∷ us) index = index_members id us (index_room id (trim u) index)

-- One `now` serves all the records: the loop does not wait.
unfoldable pub load_records : ℕ → List StoredRoom → State → State
unfolding load_room put text_dec index_members
load_records now [] s = s
load_records now (stored ∷ records) s = load_records now records (
    if is_empty stored.id then s else record s {
      rooms = put text_dec stored.id (load_room now stored) s.rooms;
      user_rooms = index_members stored.id (load_room now stored).members s.user_rooms;
    })

-- Both maps are cleared first; the store itself is only read.
unfoldable pub load_from_store : ℕ → List StoredRoom → State → State
unfolding load_records
load_from_store now records s = load_records now records (record s { rooms = []; user_rooms = [] })
