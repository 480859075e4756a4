-- ===== src/Connections/Held.antt =====
-- The sockets that the sessions hold (backend/websocket/state/sessionStore.js), as
-- connectionManager.js changes and reads them.
use relay_chatapp.Base.{
  ◌≡◌, refl, sym, ap, ◌∙◌, ◌⊎◌, inl, inr, subst, ℕ, Bool, true, false, Option, some, List, [], ◌∷◌,
  ◌++◌, map, Text, text_dec, ℕ_discrete, get, put, contains, contains-remove, arith, option_cases,
}
use relay_chatapp.Sessions.Session.{
  Session, leave_session, drop_socket, new_session, enter_socket, evict,
}
use relay_chatapp.Sessions.Store.{
  Store, ids_or_none, max_sockets, create_session, attach_socket, mark_offline, delete_session,
}
use relay_chatapp.Sessions.Listing.{got, not_dropped}
use relay_chatapp.Sessions.Kept.{IsKept, IsListed, leave_session_user, evict_user}
use relay_chatapp.Connections.State.{
  Ready, is_open, open_of, entries_of, get_sessions_by_user_id, none_open,
}
use relay_chatapp.Connections.Manager.{session_entry}

-- The session `id` of a user holds the socket.
abbrev pub IsHeld : Store → Text → Text → ℕ → Type 0
IsHeld store id user ws =
    (s : Session) × (get text_dec id store.by_session ≡ some s)
    × (s.user_id ≡ user)
    × (contains ℕ_discrete ws s.sockets ≡ true)

abbrev pub Shrinks : Store → Store → Type 0
Shrinks store after = (id user : Text) (ws : ℕ) → IsHeld after id user ws → IsHeld store id user ws

contains-leave_session :
    (ws x : ℕ) (s : Session)
    → contains ℕ_discrete x (leave_session ws s).0.sockets ≡ true
    → contains ℕ_discrete x s.sockets ≡ true
unfolding leave_session drop_socket
contains-leave_session ws x s h = ground (arith, h, contains-remove ℕ_discrete ws x s.sockets)

pub mark_offline-Shrinks :
    (id : Text) (ws : ℕ) (store : Store) → Shrinks store (mark_offline id ws store).0
unfolding mark_offline
mark_offline-Shrinks id ws store =
    option_cases (λ (o : Store × Bool). Shrinks store o.0) (get text_dec id store.by_session)
      (λ _ _ _ _ held. held)
      (λ s e q user x held. elim (got id q (leave_session ws s).0 held.0 store.by_session held.1) [
        | inl (p, k) ↦ (
          s,
          ap (λ key. get text_dec key store.by_session) p ∙ e,
          sym (leave_session_user ws s) ∙ ap (λ r. r.user_id) k ∙ held.2,
          contains-leave_session ws x s (ap (λ r. contains ℕ_discrete x r.sockets) k ∙ held.3),
        )
        | inr (_, k) ↦ (held.0, k, held.2, held.3)
      ])

pub delete_session-Shrinks : (id : Text) (store : Store) → Shrinks store (delete_session id store).0
unfolding delete_session
delete_session-Shrinks id store =
    option_cases (λ (o : Store × Option Session). Shrinks store o.0)
      (get text_dec id store.by_session) (λ _ _ _ _ held. held)
      (λ s e q user x held.
        (held.0, (not_dropped id q held.0 store.by_session held.1).1, held.2, held.3))

-- An update of the user's session leaves the others as they are.
put-IsHeld :
    (user id : Text) (t : Session) (store : Store) (q v : Text) (x : ℕ) (r : Session)
    → t.user_id ≡ user
    → get text_dec q (put text_dec id t store.by_session) ≡ some r
    → r.user_id ≡ v
    → contains ℕ_discrete x r.sockets ≡ true
    → (v ≡ user) ⊎ IsHeld store q v x
put-IsHeld user id t store q v x r mine at same holds = elim (got id q t r store.by_session at) [
  | inl (_, k) ↦ inl (sym same ∙ ap (λ s. s.user_id) (sym k) ∙ mine)
  | inr (_, k) ↦ inr (r, k, same, holds)
]

-- A socket enters a session that is new or its user's: no other session changes.
pub session_entry-IsHeld :
    (limit : ℕ) (now : ℕ → ℕ) (user id : Text) (ws : ℕ) (store : Store)
    → ((s : Session) → get text_dec id store.by_session ≡ some s → s.user_id ≡ user)
    → (q v : Text) (x : ℕ) → IsHeld (session_entry limit now user id ws store).0 q v x
    → (v ≡ user) ⊎ IsHeld store q v x
unfolding session_entry create_session attach_socket enter_socket
session_entry-IsHeld limit now user id ws store own q v x =
    let same_or_mine : Store × Option ℕ → Type 0 =
      λ o. IsHeld o.0 q v x → (v ≡ user) ⊎ IsHeld store q v x in
    option_cases same_or_mine (get text_dec id store.by_session)
      (λ _ held.
        put-IsHeld user id (new_session user (some ws) (now 0) (now 1)) store q v x held.0 refl
          held.1 held.2 held.3)
      (λ _ _.
        option_cases same_or_mine (get text_dec id store.by_session) (λ _ held. inr held)
          (λ s e held.
            put-IsHeld user id (evict (max_sockets limit) (enter_socket (now 0) ws s)).0 store q v x
              held.0 (evict_user (max_sockets limit) (enter_socket (now 0) ws s) ∙ own s e) held.1
              held.2 held.3))

open_of-append :
    (ready : List (ℕ × Ready)) (xs ys : List (Text × ℕ))
    → open_of ready (xs ++ ys) ≡ open_of ready xs ++ open_of ready ys
unfolding open_of
open_of-append ready [] ys = refl
open_of-append ready (x ∷ xs) ys = ground (arith, open_of-append ready xs ys)

open_of-entry :
    (ready : List (ℕ × Ready)) (id : Text) (ws : ℕ) (sockets : List ℕ) (rest : List ℕ)
    → contains ℕ_discrete ws sockets ≡ true
    → is_open ws ready ≡ true
    → none_open (open_of ready (map (λ w. (id, w)) sockets) ++ rest) ≡ false
unfolding open_of contains
open_of-entry ready id ws [] rest h o = absurd (cc)
open_of-entry ready id ws (x ∷ sockets) rest h o =
    ground (arith, h, o, open_of-entry ready id ws sockets rest)

none_open-append : (xs ys : List ℕ) → none_open ys ≡ false → none_open (xs ++ ys) ≡ false
none_open-append [] ys h = h
none_open-append (x ∷ xs) ys h = refl

-- An open socket of a listed session is among those that are found.
open_of-entries_of :
    (ready : List (ℕ × Ready)) (ids : List Text) (id : Text) (s : Session) (ws : ℕ)
    (sessions : List (Text × Session))
    → contains text_dec id ids ≡ true
    → get text_dec id sessions ≡ some s
    → contains ℕ_discrete ws s.sockets ≡ true
    → is_open ws ready ≡ true
    → none_open (open_of ready (entries_of ids sessions)) ≡ false
unfolding entries_of contains
open_of-entries_of ready [] id s ws sessions listed at holds o = absurd (cc)
open_of-entries_of ready (q ∷ ids) id s ws sessions listed at holds o = elim (text_dec id q) [
  | yes p ↦
      rw (ap (λ key. get text_dec key sessions) (sym p) ∙ at, entries_of)
        (ap none_open (open_of-append ready (map (λ w. (q, w)) s.sockets) (entries_of ids sessions))
          ∙ open_of-entry ready q ws s.sockets (open_of ready (entries_of ids sessions)) holds o)
  | no n ↦
      let rest =
        open_of-entries_of ready ids id s ws sessions (ground (arith, listed, n)) at holds o in
      option_cases (λ (l : List (Text × ℕ)). none_open (open_of ready l) ≡ false)
        (get text_dec q sessions) (λ _. rest)
        (λ t _.
          ap none_open
            (open_of-append ready (map (λ w. (q, w)) t.sockets) (entries_of ids sessions))
          ∙ none_open-append (open_of ready (map (λ w. (q, w)) t.sockets)) _ rest)
]

pub open_held_found :
    (n : ℕ) (ready : List (ℕ × Ready)) (store : Store) (id user : Text) (ws : ℕ)
    → IsKept n store
    → IsHeld store id user ws
    → is_open ws ready ≡ true
    → none_open (open_of ready (get_sessions_by_user_id user store)) ≡ false
unfolding get_sessions_by_user_id
open_held_found n ready store id user ws kept held o =
    open_of-entries_of ready (ids_or_none (get text_dec user store.by_user)) id held.0 ws
      store.by_session (subst (λ (u : Text). IsListed id u store) held.2 (kept id held.0 held.1).1)
      held.1 held.3 o
