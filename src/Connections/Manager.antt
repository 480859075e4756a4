-- ===== src/Connections/Manager.antt =====
-- The calls of connectionManager.js (backend/websocket/connection).
use relay_chatapp.Base.{
  ℕ, Bool, true, false, ◌||◌, Option, none, some, List, [], ◌∷◌, ◌++◌, map, Text, codes, text_dec,
  ℕ_discrete, get, put, drop_key, contains, if◌then◌else◌,
}
use relay_chatapp.Messages.Life.{missing}
use relay_chatapp.Sessions.Session.{Session, is_alone}
use relay_chatapp.Sessions.Store.{
  Store, create_session, attach_socket, mark_offline, delete_session,
}
use relay_chatapp.Connections.State.{
  Ready, Connections, is_open, get_sessions_by_user_id, get_sockets, on_connect, on_disconnect,
  request_disconnect, none_open,
}

-- `markOffline` and `deleteSocketUser`
unfoldable pub forget_socket : Text → ℕ → Connections → Connections
unfolding mark_offline drop_key
forget_socket id ws c = record c {
  sessions = (mark_offline id ws c.sessions).0;
  socket_user = drop_key ℕ_discrete ws c.socket_user;
  socket_session = drop_key ℕ_discrete ws c.socket_session;
}

-- `cleanup` with FORCED
unfoldable pub cleanup : Text → Text → ℕ → Connections → Connections
unfolding forget_socket get_sockets on_disconnect
cleanup user id ws c =
    let c' = forget_socket id ws c in
    if none_open (get_sockets user c') then on_disconnect user c' else c'

-- The `close` event of a registered socket.
unfoldable pub close_event : Text → Text → ℕ → Connections → Connections
unfolding forget_socket get_sockets request_disconnect
close_event user id ws c =
    let c' = forget_socket id ws c in
    if none_open (get_sockets user c') then request_disconnect user c' else c'

-- A socket has no user yet, or this one.
abbrev pub is_other : Text → Option Text → Bool
is_other user none = false
is_other user (some v) = elim (text_dec v user) [ yes _ ↦ false | no _ ↦ true ]

abbrev pub has_socket : ℕ → Option Session → Bool
unfolding contains
has_socket ws none = false
has_socket ws (some s) = contains ℕ_discrete ws s.sockets

-- `sessionId || 'bypass_' + userId`
abbrev pub session_or_bypass : Text → Text → Text
session_or_bypass user id = if missing id then codes "bypass_" ++ user else id

unfoldable pub session_entry : ℕ → (ℕ → ℕ) → Text → Text → ℕ → Store → Store × Option ℕ
unfolding get text_dec create_session attach_socket
session_entry limit now user id ws store = elim (get text_dec id store.by_session) [
  | none ↦ (create_session now user id (some ws) store, none)
  | some _ ↦ attach_socket limit (now 0) id ws store
]

-- `after_close` is the state in which `close()` of the ws library leaves a socket that was open
module _ (after_close : Ready) where
  unfoldable pub close_socket : ℕ → Connections → Connections
  unfolding is_open put
  close_socket ws c =
      if is_open ws c.ready then record c { ready = put ℕ_discrete ws after_close c.ready } else c

  unfoldable pub drop_evicted : Text → Text → Option ℕ → Connections → Connections
  unfolding close_socket cleanup
  drop_evicted user id none c = c
  drop_evicted user id (some ws) c = cleanup user id ws (close_socket ws c)

  -- the rest of `register`, once the socket may enter
  unfoldable pub enter : ℕ → (ℕ → ℕ) → Text → Text → ℕ → Connections → Connections
  unfolding session_entry put drop_evicted on_connect
  enter limit now user id ws c =
      let (store, evicted) = session_entry limit now user id ws c.sessions in
      on_connect user (
        drop_evicted user id evicted (record c {
          sessions = store;
          socket_user = put ℕ_discrete ws user c.socket_user;
          socket_session = put ℕ_discrete ws id c.socket_session;
        }))

  -- `none`: it throws
  unfoldable pub register : ℕ → (ℕ → ℕ) → Text → Text → ℕ → Connections → Option Connections
  unfolding is_open get text_dec enter contains
  register limit now user session ws c =
      if missing user
      then none
      else let id = session_or_bypass user session in
        if is_open ws c.ready
        then (if is_other user (get ℕ_discrete ws c.socket_user)
              || has_socket ws (get text_dec id c.sessions.by_session)
            then some c
            else some (enter limit now user id ws c))
        else some c

  unfoldable pub drop_sockets : Text → List (Text × ℕ) → Connections → Connections
  unfolding close_socket cleanup
  drop_sockets user [] c = c
  drop_sockets user ((id, ws) ∷ entries) c =
      drop_sockets user entries (cleanup user id ws (close_socket ws c))

  unfoldable pub remove_session : Text → Connections → Connections × Bool
  unfolding get text_dec drop_sockets delete_session
  remove_session id c = elim (get text_dec id c.sessions.by_session) [
    | none ↦ (c, false)
    | some s ↦
        let c' = drop_sockets s.user_id (map (λ ws. (id, ws)) s.sockets) c in
        (record c' { sessions = (delete_session id c'.sessions).0 }, true)
  ]

  -- the sessions without sockets go
  unfoldable pub delete_empty : List (Text × ℕ) → Connections → Connections
  unfolding get text_dec delete_session
  delete_empty [] c = c
  delete_empty ((id, _) ∷ entries) c =
      delete_empty entries (elim (get text_dec id c.sessions.by_session) [
        | none ↦ c
        | some s ↦
            if is_alone s.sockets
            then record c { sessions = (delete_session id c.sessions).0 }
            else c
      ])

  unfoldable pub remove_user : Text → Connections → Connections
  unfolding get_sessions_by_user_id drop_sockets delete_empty
  remove_user user c =
      let entries = get_sessions_by_user_id user c.sessions in
      delete_empty entries (drop_sockets user entries c)

unfoldable pub remove_connection : ℕ → Connections → Connections
unfolding get cleanup
remove_connection ws c = elim (get ℕ_discrete ws c.socket_user) [
  | none ↦ c
  | some user ↦ elim (get ℕ_discrete ws c.socket_session) [
    | none ↦ c
    | some id ↦ cleanup user id ws c
  ]
]
