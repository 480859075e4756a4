-- ===== src/Rooms/Access.antt =====
-- Who may change what: the role checks of roomManager.js, as the operations enforce them.
use relay_chatapp.Base.{◌≡◌, refl, ◌≢◌, ◌⊎◌, inl, inr, Option, none, some, Text, arith}
use relay_chatapp.Rooms.State.{
  Error, Role, owner, admin, member, Room, State, Config, Clock, Outcome, failed,
}
use relay_chatapp.Rooms.Roles.{
  Check, pass, throw, >>=-eq-pass, assert_member, get_role, assert_can_update_meta,
  assert_can_remove_member, assert_can_set_role,
}
use relay_chatapp.Rooms.Admin.{
  MetaPatch, may_patch, update_room_meta, may_remove, remove_member, may_set_role, set_member_role,
}
use relay_chatapp.Rooms.Step.{Op, patch, remove, set_role, step}

-- The calls that a user makes on the strength of a role, in the room `id`.
pub data Ruled (id actor : Text) : Op → Type 0 where
  a_patch : (p : MetaPatch) → Ruled id actor (patch id actor p)
  a_removal : (target : Text) → Ruled id actor (remove id actor target)
  a_role : (target : Text) (r : Option Role) → Ruled id actor (set_role id actor target r)

abbrev pub IsPlain : Option Role → Type 0
IsPlain r = (r ≡ none) ⊎ (r ≡ some member)

-- The call fails and leaves the state as it was.
abbrev pub IsRefused : State × Outcome → State → Type 0
IsRefused o s = (e : Error) × (o ≡ (s, failed e))

IsRefused-of_throw :
    {A : Type 0} (r : Check A) (s : State) (f : A → State × Outcome)
    → ((a : A) → r ≢ pass a)
    → IsRefused (elim r [ throw e ↦ (s, failed e) | pass a ↦ f a ]) s
IsRefused-of_throw (pass a) s f h = absurd (h a refl)
IsRefused-of_throw (throw e) s f h = (e, refl)

plain_may_not_patch :
    (s : State) (id actor : Text) (room : Room)
    → IsPlain (get_role s id actor)
    → may_patch s id actor ≢ pass room
unfolding may_patch assert_can_update_meta
plain_may_not_patch s id actor room h = ground arith

may_remove-rights :
    (s : State) (id actor target : Text) (u : Unit {0})
    → may_remove s id actor target ≡ pass u
    → assert_can_remove_member (get_role s id actor) (get_role s id target) ≡ pass u
unfolding may_remove
may_remove-rights s id actor target u e =
    let (_, _, e1) = >>=-eq-pass (assert_member s id actor) _ e in
    let (_, _, e2) = >>=-eq-pass (assert_member s id target) _ e1 in e2

may_set_role-rights :
    (s : State) (id actor target : Text) (r : Option Role) (m : Room × Role)
    → may_set_role s id actor target r ≡ pass m
    → (u : Unit {0}) × (assert_can_set_role (get_role s id actor) (get_role s id target) r ≡ pass u)
unfolding may_set_role
may_set_role-rights s id actor target r m e =
    let (_, _, e1) = >>=-eq-pass (assert_member s id actor) _ e in
    let (_, _, e2) = >>=-eq-pass (assert_member s id target) _ e1 in
    let (u, e3, _) =
      >>=-eq-pass (assert_can_set_role (get_role s id actor) (get_role s id target) r) _ e2 in
    (u, e3)

plain_may_not_remove :
    (a t : Option Role) (u : Unit {0}) → IsPlain a → assert_can_remove_member a t ≢ pass u
unfolding assert_can_remove_member
plain_may_not_remove a t u h = ground arith

plain_may_not_set_role :
    (a t r : Option Role) (u : Unit {0}) → IsPlain a → assert_can_set_role a t r ≢ pass u
unfolding assert_can_set_role
plain_may_not_set_role a t r u h = ground arith

-- A user with no role in the room, or with the role MEMBER, changes nothing: such a user's
-- updates of the room's data, removals and changes of roles fail and leave the state as it was.
pub plain_actor-IsRefused :
    (cfg : Config) (now : Clock) (s : State) (id actor : Text) {op : Op}
    → Ruled id actor op
    → IsPlain (get_role s id actor)
    → IsRefused (step cfg now op s) s
unfolding step update_room_meta remove_member set_member_role
plain_actor-IsRefused cfg now s id actor (a_patch p) h =
    IsRefused-of_throw (may_patch s id actor) s _ (λ room. plain_may_not_patch s id actor room h)
plain_actor-IsRefused cfg now s id actor (a_removal target) h =
    IsRefused-of_throw (may_remove s id actor target) s _
      (λ u e. plain_may_not_remove _ _ u h (may_remove-rights s id actor target u e))
plain_actor-IsRefused cfg now s id actor (a_role target r) h =
    IsRefused-of_throw (may_set_role s id actor target r) s _ (λ m e.
      let (u, rights) = may_set_role-rights s id actor target r m e in
      plain_may_not_set_role _ _ r u h rights)

-- The calls that an ADMIN's role does not cover: to remove anyone but a MEMBER, to make an
-- OWNER, to change the role of an OWNER.
pub data Beyond (s : State) (id actor : Text) : Op → Type 0 where
  removal :
      (target : Text)
      → get_role s id target ≢ some member
      → Beyond s id actor (remove id actor target)
  promotion : (target : Text) → Beyond s id actor (set_role id actor target (some owner))
  change :
      (target : Text) (r : Option Role)
      → get_role s id target ≡ some owner
      → Beyond s id actor (set_role id actor target r)

admin_may_not_remove :
    (a t : Option Role) (u : Unit {0})
    → a ≡ some admin
    → t ≢ some member
    → assert_can_remove_member a t ≢ pass u
unfolding assert_can_remove_member
admin_may_not_remove a t u h k = ground arith

admin_may_not_set_role :
    (a t r : Option Role) (u : Unit {0})
    → a ≡ some admin
    → (t ≡ some owner) ⊎ (r ≡ some owner)
    → assert_can_set_role a t r ≢ pass u
unfolding assert_can_set_role
admin_may_not_set_role a t r u h k = ground arith

-- An ADMIN who tries to remove an OWNER or an ADMIN, to make someone OWNER, or to change the
-- role of an OWNER is refused, and the state stays as it was.
pub admin-Beyond-IsRefused :
    (cfg : Config) (now : Clock) (s : State) (id actor : Text) {op : Op}
    → Beyond s id actor op
    → get_role s id actor ≡ some admin
    → IsRefused (step cfg now op s) s
unfolding step remove_member set_member_role
admin-Beyond-IsRefused cfg now s id actor (removal target k) h =
    IsRefused-of_throw (may_remove s id actor target) s _
      (λ u e. admin_may_not_remove _ _ u h k (may_remove-rights s id actor target u e))
admin-Beyond-IsRefused cfg now s id actor (promotion target) h =
    IsRefused-of_throw (may_set_role s id actor target (some owner)) s _ (λ m e.
      let (u, rights) = may_set_role-rights s id actor target (some owner) m e in
      admin_may_not_set_role _ _ _ u h (inr refl) rights)
admin-Beyond-IsRefused cfg now s id actor (change target r k) h =
    IsRefused-of_throw (may_set_role s id actor target r) s _ (λ m e.
      let (u, rights) = may_set_role-rights s id actor target r m e in
      admin_may_not_set_role _ _ r u h (inl k) rights)
