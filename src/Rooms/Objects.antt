-- ===== src/Rooms/Objects.antt =====
-- The plain objects to which toRoomStoreRecord of roomManager.js copies the entries of a Map: the
-- entries in the order in which Object.entries lists them.
use relay_chatapp.Base.{
  ℕ, ◌+◌, ◌-◌, ◌*◌, Bool, true, false, ◌&&◌, Option, none, some, List, [], ◌∷◌, Text, codes,
  text_dec, ltb, leb, ◌==◌, if◌then◌else◌,
}

-- the number that a text of digits writes, after those read before
unfoldable pub read_digits : ℕ → Text → Option ℕ
read_digits value [] = some value
read_digits value (c ∷ s) =
    let rest = read_digits (value * 10 + (c - 48)) s in if leb 48 c && leb c 57 then rest else none

-- an array index is below `2 ** 32 - 1`
abbrev pub if_index : Option ℕ → Option ℕ
if_index none = none
if_index (some n) = if ltb n 4294967295 then some n else none

-- the array index that a key writes: digits without a leading zero
unfoldable pub array_index : Text → Option ℕ
unfolding read_digits
array_index [] = none
array_index (c ∷ []) = read_digits 0 (c ∷ [])
array_index (c ∷ d ∷ s) = if c == 48 then none else if_index (read_digits 0 (c ∷ d ∷ s))

-- Array indices come first, in their order; the other keys keep the order of their insertion.
abbrev pub precedes : Option ℕ → Option ℕ → Bool
precedes (some i) (some j) = ltb i j
precedes none (some j) = false
precedes _ none = true

-- the key that sets no property: a text or a number is no prototype
abbrev pub proto : Text
proto = codes "__proto__"

-- an entry that was set before those of the object
unfoldable pub place {ℓ} : {V : Type ℓ} → Text × V → List (Text × V) → List (Text × V)
unfolding array_index
place e [] = e ∷ []
place e (f ∷ entries) =
    let rest = place e entries in
    if precedes (array_index e.0) (array_index f.0) then e ∷ f ∷ entries else f ∷ rest

-- `for (const [k, v] of map) object[k] = v`, the keys of the map distinct
unfoldable pub to_object {ℓ} : {V : Type ℓ} → List (Text × V) → List (Text × V)
unfolding place text_dec
to_object [] = []
to_object ((key, value) ∷ entries) =
    let rest = to_object entries in
    elim (text_dec key proto) [ yes _ ↦ rest | no _ ↦ place (key, value) rest ]
