-- ===== src/Connections/Step.antt =====
-- One event to the next in connectionManager.js and lifecycle.js (backend/websocket/connection).
use relay_chatapp.Base.{◌≡◌, ◌≢◌, ℕ, some, Text, ℕ_discrete, text_dec, get, put}
use relay_chatapp.Sessions.Session.{Session}
use relay_chatapp.Connections.State.{Ready, ready_open, Connections, no_connections, offline_timer}
use relay_chatapp.Connections.Manager.{
  session_or_bypass, register, close_event, remove_session, remove_user, remove_connection,
}
use relay_chatapp.Connections.Held.{IsHeld}

-- The session that a socket is registered with is new or the user's own.
abbrev pub IsOwn : Text → Text → Connections → Type 0
IsOwn user id c = (s : Session) → get text_dec id c.sessions.by_session ≡ some s → s.user_id ≡ user

-- A call returns, a socket closes, a timer goes off, or the ws library moves a socket on; it opens
-- none that a session holds.
pub data Step (limit : ℕ) (after_close : Ready) : Connections → Connections → Type 0 where
  registers :
      (now : ℕ → ℕ) (user session : Text) (ws : ℕ) (c after : Connections)
      → IsOwn user (session_or_bypass user session) c
      → register after_close limit now user session ws c ≡ some after
      → Step limit after_close c after
  closes :
      (user id : Text) (ws : ℕ) (c : Connections)
      → Step limit after_close c (close_event user id ws c)
  times_out : (user : Text) (c : Connections) → Step limit after_close c (offline_timer user c)
  removes_session :
      (id : Text) (c : Connections) → Step limit after_close c (remove_session after_close id c).0
  removes_user :
      (user : Text) (c : Connections) → Step limit after_close c (remove_user after_close user c)
  removes_connection :
      (ws : ℕ) (c : Connections) → Step limit after_close c (remove_connection ws c)
  leaves_open :
      (ws : ℕ) (r : Ready) (c : Connections)
      → r ≢ ready_open
      → Step limit after_close c (record c { ready = put ℕ_discrete ws r c.ready })
  opens :
      (ws : ℕ) (c : Connections)
      → ((id user : Text) → ¬ IsHeld c.sessions id user ws)
      → Step limit after_close c (record c { ready = put ℕ_discrete ws ready_open c.ready })

pub data Reached (limit : ℕ) (after_close : Ready) : Connections → Type 0 where
  started : Reached limit after_close no_connections
  next :
      (c after : Connections)
      → Reached limit after_close c
      → Step limit after_close c after
      → Reached limit after_close after
