-- ===== src/Rooms/Roles.antt =====
-- The role checks of roomManager.js.
use relay_chatapp.Base.{◌≡◌, refl, Option, none, some, Text, text_dec, get}
use relay_chatapp.Rooms.State.{
  Role, owner, admin, member, Room, State, Error, room_not_found, not_a_member, cannot_update_meta,
  cannot_add, cannot_remove, cannot_delete, cannot_change_roles, cannot_promote_owner,
  cannot_modify_owner, invalid_role, get_member_key, truthy,
}

-- What a check gives: a value, or the error that it throws.
pub data Check {ℓ} (X : Type ℓ) : Type ℓ where
  throw : Error → Check X
  pass : X → Check X

infixl 5 ◌>>=◌
abbrev pub ◌>>=◌ {ℓ μ} : {X : Type ℓ} {Y : Type μ} → Check X → (X → Check Y) → Check Y
throw e >>= next = throw e
pass x >>= next = next x

-- All checks of a sequence passed, if the last one did.
pub >>=-eq-pass {ℓ μ} :
    {X : Type ℓ} {Y : Type μ} (first : Check X) (next : X → Check Y) {y : Y}
    → (first >>= next) ≡ pass y
    → (x : X) × (first ≡ pass x) × (next x ≡ pass y)
>>=-eq-pass (throw e) next q = cc
>>=-eq-pass (pass x) next q = (x, refl, q)

-- A predicate holds of what a checked call returns if it holds on each branch.
pub check_cases {ℓ κ μ} :
    {A : Type ℓ} {B : Type κ} (P : B → Type μ) (r : Check A) {g : Error → B} {f : A → B}
    → ((e : Error) → r ≡ throw e → P (g e))
    → ((a : A) → r ≡ pass a → P (f a))
    → P (elim r [ throw e ↦ g e | pass a ↦ f a ])
check_cases P (pass a) h k = k a refl
check_cases P (throw e) h k = h e refl

abbrev pub role_or_member : Option Role → Role
role_or_member none = member
role_or_member (some r) = r

unfoldable pub assert_member : State → Text → Text → Check Room
unfolding get text_dec get_member_key
assert_member s id user = elim (get text_dec id s.rooms) [
  | none ↦ throw room_not_found
  | some room ↦ elim (truthy (get_member_key room user)) [
    | none ↦ throw not_a_member
    | some _ ↦ pass room
  ]
]

unfoldable pub get_role : State → Text → Text → Option Role
unfolding get text_dec get_member_key
get_role s id user = elim (get text_dec id s.rooms) [
  | none ↦ none
  | some room ↦ elim (truthy (get_member_key room user)) [
    | none ↦ none
    | some key ↦ some (role_or_member (get text_dec key room.roles))
  ]
]

unfoldable pub assert_can_update_meta : Option Role → Check (Unit {0})
assert_can_update_meta (some owner) = pass tt
assert_can_update_meta (some admin) = pass tt
assert_can_update_meta _ = throw cannot_update_meta

unfoldable pub assert_can_add_members : Option Role → Check (Unit {0})
assert_can_add_members (some owner) = pass tt
assert_can_add_members (some admin) = pass tt
assert_can_add_members _ = throw cannot_add

unfoldable pub assert_can_remove_member : Option Role → Option Role → Check (Unit {0})
assert_can_remove_member (some owner) _ = pass tt
assert_can_remove_member (some admin) (some member) = pass tt
assert_can_remove_member _ _ = throw cannot_remove

-- The new role is a string of the request; `none` is one that is not in `ROLES`.
unfoldable pub assert_can_set_role : Option Role → Option Role → Option Role → Check (Unit {0})
assert_can_set_role (some owner) target (some r) = pass tt
assert_can_set_role (some owner) target none = throw invalid_role
assert_can_set_role (some admin) target (some owner) = throw cannot_promote_owner
assert_can_set_role (some admin) (some owner) _ = throw cannot_modify_owner
assert_can_set_role (some admin) target none = throw invalid_role
assert_can_set_role (some admin) target (some r) = pass tt
assert_can_set_role _ target new_role = throw cannot_change_roles

unfoldable pub assert_can_delete : Option Role → Check (Unit {0})
assert_can_delete (some owner) = pass tt
assert_can_delete _ = throw cannot_delete
