-- ===== src/Rooms/Tests.antt =====
-- Runs of the room model on concrete calls, and the theorems at concrete inputs.
use relay_chatapp.Base.{
  ℕ, put, ◌<◌, ◌≡◌, refl, ◌⊎◌, inr, Option, none, some, [], ◌∷◌, map, Text, codes, text_dec,
  ℕ_discrete, trim, contains, get, length, arith,
}
use relay_chatapp.Rooms.Objects.{to_object}
use relay_chatapp.Rooms.State.{
  persist_room, owner, admin, Room, StoredRoom, State, Config, done, failed, room_full, room_exists,
}
use relay_chatapp.Rooms.Roles.{get_role}
use relay_chatapp.Rooms.Ops.{no_options, new_room, create_room, join_room}
use relay_chatapp.Rooms.Leave.{
  find_owner, drop_member, was_owner, leave_first, leave_settle, leave_member,
}
use relay_chatapp.Rooms.Admin.{set_member_role}
use relay_chatapp.Rooms.Step.{Op, step, run, start}
use relay_chatapp.Rooms.Views.{
  list_rooms_for_user, get_user_rooms, get_room_members, is_room_member,
}
use relay_chatapp.Rooms.Load.{load_from_store}
use relay_chatapp.Rooms.Consistent.{IsConsistent}
use relay_chatapp.Rooms.Consistent.Run.{run-IsConsistent, start-IsConsistent}
use relay_chatapp.Rooms.Consistent.Loading.{load_from_store-IsConsistent}
use relay_chatapp.Rooms.Listing.{list_rooms_for_user-ids, is_room_member-queries}
use relay_chatapp.Rooms.Access.{
  IsRefused, a_removal, removal, plain_actor-IsRefused, admin-Beyond-IsRefused,
}
use relay_chatapp.Rooms.Succession.{IsSucceeded, crown, owner_succession, last_member_leaves}
use relay_chatapp.Rooms.Atomic.{step_failed}
use relay_chatapp.Rooms.Versions.{step_version}
use relay_chatapp.Rooms.Restore.{AllRestored, save_all, load_from_store-save_all}
use relay_chatapp.Rooms.Defects.{
  join_reports_full_room, resume_deletes_new_room, set_role_untrimmed,
}
use relay_chatapp.Rooms.Samples.{cfg, at, r1, ann, bob, cy, calls, three}

members_three : get_room_members three r1 ≡ ann ∷ bob ∷ cy ∷ []
unfolding run get_room_members ℕ_discrete
members_three = refl

-- ann leaves: bob, who joined first of those who stay, owns the room, and not cy, its ADMIN
heir_passes_admin :
    let s = run cfg ((at 50, Op.leave r1 ann) ∷ []) three in
    (get_role s r1 bob ≡ some owner) × (get_role s r1 cy ≡ some admin)
unfolding run get_role ℕ_discrete
heir_passes_admin = (refl, refl)

bob_listed : map (λ m. m.id) (list_rooms_for_user three bob) ≡ r1 ∷ []
unfolding run list_rooms_for_user ℕ_discrete
bob_listed = refl

run-IsConsistent_example : IsConsistent (run cfg calls start)
run-IsConsistent_example = run-IsConsistent cfg calls start start-IsConsistent

list_rooms_for_user-ids_example :
    map (λ m. m.id) (list_rooms_for_user (run cfg calls start) bob)
    ≡ get_user_rooms (run cfg calls start) bob
list_rooms_for_user-ids_example =
    list_rooms_for_user-ids (run cfg calls start) bob run-IsConsistent_example

is_room_member-queries_example :
    (is_room_member (run cfg calls start) r1 bob
      ≡ contains text_dec bob (get_room_members (run cfg calls start) r1))
    × (is_room_member (run cfg calls start) r1 bob
        ≡ contains text_dec r1 (get_user_rooms (run cfg calls start) bob))
unfolding trim
is_room_member-queries_example =
    is_room_member-queries (run cfg calls start) r1 bob refl refl refl run-IsConsistent_example

plain_actor-IsRefused_example :
    IsRefused (step cfg (at 50) (Op.remove r1 bob cy) (run cfg calls start)) (run cfg calls start)
unfolding run get_role ℕ_discrete
plain_actor-IsRefused_example =
    plain_actor-IsRefused cfg (at 50) (run cfg calls start) r1 bob (a_removal cy) (inr refl)

admin-Beyond-IsRefused_example :
    IsRefused (step cfg (at 50) (Op.remove r1 cy ann) (run cfg calls start)) (run cfg calls start)
unfolding run get_role ℕ_discrete
admin-Beyond-IsRefused_example =
    admin-Beyond-IsRefused cfg (at 50) (run cfg calls start) r1 cy (removal ann (λ e. cc)) refl

abbrev room_or : Option Room → Room
room_or none = new_room [] [] no_options 0
room_or (some room) = room

abbrev the_room : Room
unfolding run get ℕ_discrete
the_room = room_or (get text_dec r1 (run cfg calls start).rooms)

owner_succession_example :
    IsSucceeded
      (at 50)
      r1
      (drop_member 50 ann the_room)
      (leave_member cfg (at 50) r1 ann ann the_room (run cfg calls start))
unfolding run get was_owner find_owner drop_member ℕ_discrete
owner_succession_example =
    owner_succession cfg (at 50) r1 ann ann the_room (run cfg calls start) refl refl

-- bob, who joined second, is the heir
bob_inherits :
    get text_dec r1 (leave_member cfg (at 50) r1 ann ann the_room (run cfg calls start)).rooms
    ≡ some (crown 51 bob (drop_member 50 ann the_room))
unfolding run get leave_member leave_settle persist_room put drop_member ℕ_discrete
bob_inherits = refl

-- in a room without join times the owner leaves, and the room is gone although bob is in it
abbrev untimed_room : Room
untimed_room = record the_room { joined_at = [] }

untimed_room_gone :
    get text_dec r1
      (leave_member cfg
        (at 50)
        r1
        ann
        ann
        untimed_room
        (record (run cfg calls start) { rooms = (r1, untimed_room) ∷ [] })).rooms
    ≡ none
unfolding run get leave_member leave_settle persist_room drop_member ℕ_discrete
untimed_room_gone = refl

step_failed_example :
    (step cfg (at 50) (Op.create r1 bob no_options) (run cfg calls start)).0 ≡ run cfg calls start
unfolding run step ℕ_discrete
step_failed_example =
    step_failed cfg (at 50) (Op.create r1 bob no_options) (run cfg calls start) room_exists
      (λ e. omega arith) refl

abbrev patched : Room
patched = record the_room {
  updated_at = 50;
  version = 5;
  roles = (ann, owner) ∷ (bob, admin) ∷ (cy, admin) ∷ [];
}

step_version_example : (the_room ≡ patched) ⊎ (the_room.version < patched.version)
unfolding run step get ℕ_discrete
step_version_example =
    step_version cfg (at 50) (Op.set_role r1 ann bob (some admin)) (run cfg calls start) r1 the_room
      patched refl refl

-- ann alone in her room
abbrev alone : State
unfolding run ℕ_discrete
alone = run cfg ((at 10, Op.create r1 ann no_options) ∷ []) start

abbrev ann_room : Room
ann_room = new_room r1 ann no_options 10

last_member_leaves_example :
    get text_dec r1 (leave_member cfg (at 20) r1 ann ann ann_room alone).rooms ≡ none
unfolding run drop_member new_room ℕ_discrete
last_member_leaves_example = last_member_leaves cfg (at 20) r1 ann ann ann_room alone refl refl

resume_deletes_new_room_example :
    (get text_dec r1
        (create_room cfg
          (at 30)
          r1
          bob
          no_options
          (leave_first (at 20) r1 ann ann ann_room alone)).0.rooms
      ≡ some (new_room r1 bob no_options 30))
    × (get text_dec r1
          (leave_settle cfg r1
            (length (drop_member 20 ann ann_room).members)
            (create_room cfg
              (at 30)
              r1
              bob
              no_options
              (leave_first (at 20) r1 ann ann ann_room alone)).0).rooms
        ≡ none)
unfolding run drop_member new_room create_room leave_first ℕ_discrete
resume_deletes_new_room_example =
    resume_deletes_new_room cfg (at 20) (at 30) r1 ann ann bob no_options ann_room alone refl refl
      refl

abbrev bob_padded : Text
bob_padded = codes " bob"

set_role_untrimmed_example :
    get_role (set_member_role (at 50) r1 ann bob_padded (some admin) (run cfg calls start)).0 r1 bob
    ≡ get_role (run cfg calls start) r1 bob
unfolding run get contains trim ℕ_discrete
set_role_untrimmed_example =
    set_role_untrimmed (at 50) r1 ann bob_padded (some admin) (run cfg calls start) the_room r1 bob
      refl refl

-- and the call reports success
role_reported_set :
    (set_member_role (at 50) r1 ann bob_padded (some admin) (run cfg calls start)).1 ≡ done
unfolding run get contains trim ℕ_discrete set_member_role
role_reported_set = refl

-- the call with the padded id reports success
padded_reports_done :
    (set_member_role (at 50) r1 ann bob_padded (some admin) (run cfg calls start)).1 ≡ done
unfolding run set_member_role ℕ_discrete
padded_reports_done = refl

abbrev cfg_one : Config
cfg_one = record cfg { max_members = 1 }

join_reports_full_room_example :
    ((join_room cfg_one (at 10) r1 ann start).1 ≡ failed room_full)
    × (get text_dec r1 (join_room cfg_one (at 10) r1 ann start).0.rooms
        ≡ some (new_room r1 ann no_options 10))
unfolding get create_room
join_reports_full_room_example =
    join_reports_full_room cfg_one (at 10) r1 ann start refl refl refl refl refl

load_from_store-save_all_example :
    AllRestored
      ((r1, ann_room) ∷ [])
      (load_from_store 99 (save_all ((r1, ann_room) ∷ [])) alone).rooms
unfolding new_room trim run
load_from_store-save_all_example =
    load_from_store-save_all 99 ((r1, ann_room) ∷ []) alone
      (
        (λ e. cc),
        record {
          members_trimmed = (refl, tt);
          members_distinct = (tt, tt);
          roles_trimmed = (refl, tt);
          roles_distinct = (tt, tt);
          joined_trimmed = (refl, tt);
          joined_distinct = (tt, tt);
        },
        tt,
      )
      (tt, tt)

abbrev padded_record : StoredRoom
padded_record = record {
  id = r1;
  meta = none;
  members = bob_padded ∷ ann ∷ bob ∷ [];
  roles = [];
  joined_at = [];
  version = none;
  updated_at = none;
}

load_from_store-IsConsistent_example : IsConsistent (load_from_store 99 (padded_record ∷ []) start)
load_from_store-IsConsistent_example =
    load_from_store-IsConsistent 99 (padded_record ∷ []) start (tt, tt)

-- the padded id and the plain one are one member
padded_record_members :
    get_room_members (load_from_store 99 (padded_record ∷ []) start) r1 ≡ bob ∷ ann ∷ []
unfolding load_from_store get_room_members ℕ_discrete
padded_record_members = refl

-- in an object the indices come first, by value, and `__proto__` is no entry
object_order :
    map
      (λ e. e.0)
      (to_object {V = ℕ} (
        (codes "b", 1)
        ∷ (codes "10", 2)
        ∷ (codes "__proto__", 3)
        ∷ (codes "a", 4)
        ∷ (codes "07", 5)
        ∷ (codes "2", 6)
        ∷ []))
    ≡ codes "2" ∷ codes "10" ∷ codes "b" ∷ codes "a" ∷ codes "07" ∷ []
unfolding to_object text_dec ℕ_discrete
object_order = refl
