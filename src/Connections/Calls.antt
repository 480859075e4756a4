-- ===== src/Connections/Calls.antt =====
-- What each call of connectionManager.js (backend/websocket/connection) keeps: who is online.
use relay_chatapp.Base.{
  ◌≡◌, refl, inl, inr, subst, ℕ, ◌||◌, Bool, false, Option, some, List, [], ◌∷◌, map, Text,
  text_dec, ℕ_discrete, get, put, if_cases, option_cases,
}
use relay_chatapp.Messages.Life.{missing}
use relay_chatapp.Sessions.Session.{is_alone}
use relay_chatapp.Sessions.Store.{Store, max_sockets, delete_session}
use relay_chatapp.Sessions.Kept.{
  IsKept, attach_socket-IsKept, create_session-IsKept, delete_session-IsKept, max_sockets-positive,
}
use relay_chatapp.Connections.State.{Ready, Connections, is_open, get_sessions_by_user_id}
use relay_chatapp.Connections.Manager.{
  is_other, has_socket, session_or_bypass, session_entry, drop_evicted, enter, register,
  drop_sockets, remove_session, delete_empty, remove_user, remove_connection, cleanup, close_socket,
}
use relay_chatapp.Connections.Held.{session_entry-IsHeld, delete_session-Shrinks}
use relay_chatapp.Connections.Online.{
  IsShown, fewer-IsShown, cleanup-IsShown, connect-IsShown, close_cleanup-IsShown, evicted-IsShown,
}
use relay_chatapp.Connections.Step.{IsOwn}

abbrev pub Everyone : ℕ → Connections → Type 0
Everyone n c = IsShown (λ _. ⊥) n c

session_entry-IsKept :
    (limit : ℕ) (now : ℕ → ℕ) (user id : Text) (ws : ℕ) (store : Store)
    → IsKept (max_sockets limit) store
    → IsKept (max_sockets limit) (session_entry limit now user id ws store).0
unfolding session_entry
session_entry-IsKept limit now user id ws store h =
    option_cases (λ (o : Store × Option ℕ). IsKept (max_sockets limit) o.0)
      (get text_dec id store.by_session)
      (λ _.
        create_session-IsKept (max_sockets limit) now user id (some ws) store
          (max_sockets-positive limit) h)
      (λ _ _. attach_socket-IsKept limit (now 0) id ws store h)

-- The sessions without one, as `delete_session` leaves them.
delete-IsShown :
    (n : ℕ) (id : Text) (c : Connections)
    → Everyone n c
    → Everyone n (record c { sessions = (delete_session id c.sessions).0 })
delete-IsShown n id c h =
    fewer-IsShown (λ _. ⊥) n c (record c { sessions = (delete_session id c.sessions).0 })
      (record {
        kept = delete_session-IsKept n id c.sessions h.kept;
        fewer = delete_session-Shrinks id c.sessions;
        closing_only = λ _ o. o;
        same = refl;
      })
      h

pub connection-IsShown :
    (n : ℕ) (ws : ℕ) (c : Connections) → Everyone n c → Everyone n (remove_connection ws c)
unfolding remove_connection
connection-IsShown n ws c h =
    option_cases (Everyone n) (get ℕ_discrete ws c.socket_user) (λ _. h)
      (λ user _.
        option_cases (Everyone n) (get ℕ_discrete ws c.socket_session) (λ _. h)
          (λ id _. cleanup-IsShown (λ _. ⊥) n user id ws c h))

got_same : (c after : Connections) → (some c ≡ some after) → c ≡ after
got_same c after e = cc

module _ (after_close : Ready) where
  enter-IsShown :
      (limit : ℕ) (now : ℕ → ℕ) (user id : Text) (ws : ℕ) (c : Connections)
      → missing user ≡ false
      → IsOwn user id c
      → Everyone (max_sockets limit) c
      → Everyone (max_sockets limit) (enter after_close limit now user id ws c)
  unfolding enter
  enter-IsShown limit now user id ws c named own h =
      let entry = session_entry limit now user id ws c.sessions in
      let entered = record c {
        sessions = entry.0;
        socket_user = put ℕ_discrete ws user c.socket_user;
        socket_session = put ℕ_discrete ws id c.socket_session;
      } in
      connect-IsShown (max_sockets limit) user (drop_evicted after_close user id entry.1 entered)
        named
        (evicted-IsShown after_close (λ v. v ≡ user) (max_sockets limit) user id entry.1 entered
          (record {
            kept = session_entry-IsKept limit now user id ws c.sessions h.kept;
            shown = λ q v x held o.
                elim (session_entry-IsHeld limit now user id ws c.sessions own q v x held) [
                  | inl e ↦ inr e
                  | inr before ↦ elim (h.shown q v x before o) [
                    | inl on ↦ inl on
                    | inr e ↦ inr (absurd e)
                  ]
                ];
          }))

  pub register-IsShown :
      (limit : ℕ) (now : ℕ → ℕ) (user session : Text) (ws : ℕ) (c after : Connections)
      → IsOwn user (session_or_bypass user session) c
      → register after_close limit now user session ws c ≡ some after
      → Everyone (max_sockets limit) c
      → Everyone (max_sockets limit) after
  unfolding register
  register-IsShown limit now user session ws c after own =
      let n = max_sockets limit in
      let id = session_or_bypass user session in
      let kept_by : Option Connections → Type 0 =
        λ o. (after : Connections) → o ≡ some after → Everyone n c → Everyone n after in
      let unchanged : kept_by (some c) = λ after e h. subst (Everyone n) (got_same c after e) h in
      if_cases kept_by (missing user) (λ _ after e _. absurd (cc))
        (λ named.
          if_cases kept_by (is_open ws c.ready)
            (λ _.
              if_cases kept_by
                (is_other user (get ℕ_discrete ws c.socket_user)
                  || has_socket ws (get text_dec id c.sessions.by_session))
                (λ _. unchanged)
                (λ _ after e h.
                  subst (Everyone n) (got_same _ after e)
                    (enter-IsShown limit now user id ws c named own h)))
            (λ _. unchanged))
        after

  drop_sockets-IsShown :
      (n : ℕ) (user : Text) (entries : List (Text × ℕ)) (c : Connections)
      → Everyone n c
      → Everyone n (drop_sockets after_close user entries c)
  unfolding drop_sockets
  drop_sockets-IsShown n user [] c h = h
  drop_sockets-IsShown n user ((id, ws) ∷ entries) c h =
      drop_sockets-IsShown n user entries (cleanup user id ws (close_socket after_close ws c))
        (close_cleanup-IsShown after_close (λ _. ⊥) n user id ws c h)

  pub session-IsShown :
      (n : ℕ) (id : Text) (c : Connections)
      → Everyone n c
      → Everyone n (remove_session after_close id c).0
  unfolding remove_session
  session-IsShown n id c h =
      option_cases (λ (o : Connections × Bool). Everyone n o.0)
        (get text_dec id c.sessions.by_session) (λ _. h)
        (λ s _.
          delete-IsShown n id _
            (drop_sockets-IsShown n s.user_id (map (λ ws. (id, ws)) s.sockets) c h))

  delete_empty-IsShown :
      (n : ℕ) (entries : List (Text × ℕ)) (c : Connections)
      → Everyone n c
      → Everyone n (delete_empty after_close entries c)
  unfolding delete_empty
  delete_empty-IsShown n [] c h = h
  delete_empty-IsShown n ((id, ws) ∷ entries) c h = delete_empty-IsShown n entries _ (
      option_cases (Everyone n) (get text_dec id c.sessions.by_session) (λ _. h)
        (λ s _. if_cases (Everyone n) (is_alone s.sockets) (λ _. delete-IsShown n id c h) (λ _. h)))

  pub user-IsShown :
      (n : ℕ) (user : Text) (c : Connections)
      → Everyone n c
      → Everyone n (remove_user after_close user c)
  unfolding remove_user
  user-IsShown n user c h =
      let entries = get_sessions_by_user_id user c.sessions in
      delete_empty-IsShown n entries _ (drop_sockets-IsShown n user entries c h)
