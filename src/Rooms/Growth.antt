-- ===== src/Rooms/Growth.antt =====
-- Versions of the rooms of roomManager.js before and after an update.
use relay_chatapp.Base.{
  ◌<◌, ◌≡◌, refl, sym, ◌∙◌, ◌⊎◌, inl, inr, some, Option-cases, List, Text, text_dec, get, put,
  get-put, get-drop_key, arith,
}
use relay_chatapp.Rooms.State.{Room, State, Outcome, persist_room, delete_room_internal}
use relay_chatapp.Rooms.Succession.{get-persist_room}

abbrev pub Newer : Room → Room → Type 0
Newer a b = (a ≡ b) ⊎ (a.version < b.version)

-- A room that is there before and after is the same or newer.
abbrev pub Grows : List (Text × Room) → List (Text × Room) → Type 0
Grows rooms rooms' =
    (r : Text) (a b : Room)
    → get text_dec r rooms ≡ some a
    → get text_dec r rooms' ≡ some b
    → Newer a b

-- What is there after was there before, the same or older.
abbrev pub Bumps : List (Text × Room) → List (Text × Room) → Type 0
Bumps rooms rooms' =
    (r : Text) (b : Room)
    → get text_dec r rooms' ≡ some b
    → (a : Room) × (get text_dec r rooms ≡ some a) × Newer a b

Newer-trans : (a b c : Room) → Newer a b → Newer b c → Newer a c
Newer-trans a b c (inl p) q = rw p q
Newer-trans a b c (inr p) (inl q) = inr (rw (← q) p)
Newer-trans a b c (inr p) (inr q) = inr (omega arith)

pub Bumps-refl : (rooms : List (Text × Room)) → Bumps rooms rooms
Bumps-refl rooms r b e = (b, e, inl refl)

pub Bumps-trans : (x y z : List (Text × Room)) → Bumps x y → Bumps y z → Bumps x z
Bumps-trans x y z f g r c e =
    let (b, eb, q) = g r c e in let (a, ea, p) = f r b eb in (a, ea, Newer-trans a b c p q)

pub Grows-Bumps : (x y z : List (Text × Room)) → Grows x y → Bumps y z → Grows x z
Grows-Bumps x y z f g r a c ea ec = let (b, eb, q) = g r c ec in Newer-trans a b c (f r a b ea eb) q

pub Grows-of_Bumps : (x y : List (Text × Room)) → Bumps x y → Grows x y
Grows-of_Bumps x y f r a b ea eb = let (a', ea', p) = f r b eb in rw (some_eq (sym ea ∙ ea')) p
  where
    some_eq : {a b : Room} → some a ≡ some b → a ≡ b
    some_eq e = cc

pub put-Bumps :
    (id : Text) (room room' : Room) (rooms : List (Text × Room))
    → get text_dec id rooms ≡ some room
    → room.version < room'.version
    → Bumps rooms (put text_dec id room' rooms)
put-Bumps id room room' rooms e v r b eb = elim (text_dec r id) [
  | yes p ↦ (room, rw p e, inr (ground (arith, get-put text_dec id r room' rooms)))
  | no p ↦ (b, ground (arith, get-put text_dec id r room' rooms), inl refl)
]

pub persist-Bumps :
    (id : Text) (x : List (Text × Room)) (s : State)
    → Bumps x s.rooms
    → Bumps x (persist_room id s).rooms
persist-Bumps id x s f r b e = f r b (sym (get-persist_room id r s) ∙ e)

pub delete-Bumps : (id : Text) (s : State) → Bumps s.rooms (delete_room_internal id s).rooms
unfolding delete_room_internal
delete-Bumps id s r b = elim (Option-cases (get text_dec id s.rooms)) [
  | inl e ↦ rw (e, delete_room_internal) (λ eb. (b, eb, inl refl))
  | inr (room, e) ↦
      rw (e, delete_room_internal)
        (λ eb. (b, ground (arith, get-drop_key text_dec id r s.rooms), inl refl))
]

abbrev pub GrowsTo : State → State × Outcome → Type 0
GrowsTo s o = Grows s.rooms o.0.rooms

pub Grows-refl : (rooms : List (Text × Room)) → Grows rooms rooms
Grows-refl rooms = Grows-of_Bumps rooms rooms (Bumps-refl rooms)
