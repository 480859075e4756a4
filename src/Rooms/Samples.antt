-- ===== src/Rooms/Samples.antt =====
-- Data for the runs of the room model.
use relay_chatapp.Base.{ℕ, ◌+◌, true, some, List, [], ◌∷◌, Text, codes, ℕ_discrete}
use relay_chatapp.Rooms.State.{admin, State, Config, Clock}
use relay_chatapp.Rooms.Ops.{no_options}
use relay_chatapp.Rooms.Step.{Op, run, start}

abbrev pub cfg : Config
cfg = record {
  max_rooms = 0;
  max_members = 0;
  auto_create = true;
  auto_delete_empty = true;
  max_name = 200;
  max_url = 2048;
}

abbrev pub at : ℕ → Clock
at t k = t + k

abbrev pub r1 : Text
r1 = codes "r1"

abbrev pub ann : Text
ann = codes "ann"

abbrev pub bob : Text
bob = codes "bob"

abbrev pub cy : Text
cy = codes "cy"

-- ann creates the room, bob and cy join, cy becomes ADMIN
abbrev pub calls : List (Clock × Op)
calls =
    (at 10, Op.create r1 ann no_options)
    ∷ (at 20, Op.join r1 bob)
    ∷ (at 30, Op.join r1 cy)
    ∷ (at 40, Op.set_role r1 ann cy (some admin))
    ∷ []

abbrev pub three : State
unfolding run ℕ_discrete
three = run cfg calls start
