-- ===== src/Connections/State.antt =====
-- The state that connectionManager.js and lifecycle.js (both backend/websocket/connection) work on,
-- and the presence of users.
use relay_chatapp.Base.{
  ℕ, Bool, true, false, ◌&&◌, ◌||◌, Option, none, some, List, [], ◌∷◌, ◌++◌, map, Text, text_dec,
  ℕ_discrete, get, put, contains, add, remove, if◌then◌else◌,
}
use relay_chatapp.Messages.Life.{missing}
use relay_chatapp.Messages.Delivery.{
  Deliveries, no_deliveries, record_failures_for_disconnected_user,
}
use relay_chatapp.Sessions.Session.{Session}
use relay_chatapp.Sessions.Store.{Store, no_sessions, ids_or_none}

-- the `readyState` of a socket
pub data Ready : Type 0 where
  connecting ready_open closing closed : Ready

pub data Status : Type 0 where
  online offline : Status

pub record Connections : Type 0 where
  pub sessions : Store
  pub ready : List (ℕ × Ready)
  pub socket_user : List (ℕ × Text)
  pub socket_session : List (ℕ × Text)
  pub presence : List (Text × Status)
  pub pending_offline : List Text
  pub deliveries : Deliveries
  pub notices : List (Text × Status)

abbrev pub no_connections : Connections
no_connections = record {
  sessions = no_sessions;
  ready = [];
  socket_user = [];
  socket_session = [];
  presence = [];
  pending_offline = [];
  deliveries = no_deliveries;
  notices = [];
}

abbrev pub open_state : Option Ready → Bool
open_state (some ready_open) = true
open_state _ = false

-- `ws.readyState === OPEN`
unfoldable pub is_open : ℕ → List (ℕ × Ready) → Bool
unfolding get
is_open ws ready = open_state (get ℕ_discrete ws ready)

-- `sessionStore.getSessionsByUserId`
unfoldable pub entries_of : List Text → List (Text × Session) → List (Text × ℕ)
unfolding get text_dec
entries_of [] sessions = []
entries_of (id ∷ ids) sessions =
    let rest = entries_of ids sessions in
    elim (get text_dec id sessions) [
      | none ↦ rest
      | some s ↦ map (λ ws. (id, ws)) s.sockets ++ rest
    ]

unfoldable pub get_sessions_by_user_id : Text → Store → List (Text × ℕ)
unfolding get text_dec entries_of
get_sessions_by_user_id user store =
    entries_of (ids_or_none (get text_dec user store.by_user)) store.by_session

unfoldable pub open_of : List (ℕ × Ready) → List (Text × ℕ) → List ℕ
unfolding is_open
open_of ready [] = []
open_of ready ((id, ws) ∷ entries) =
    let rest = open_of ready entries in if is_open ws ready then ws ∷ rest else rest

unfoldable pub get_sockets : Text → Connections → List ℕ
unfolding open_of get_sessions_by_user_id
get_sockets user c = open_of c.ready (get_sessions_by_user_id user c.sessions)

abbrev pub set_presence : Text → Status → Connections → Connections
unfolding put text_dec
set_presence user status c = record c {
  presence = put text_dec user status c.presence;
  notices = c.notices ++ (user, status) ∷ [];
}

unfoldable pub on_connect : Text → Connections → Connections
unfolding put remove text_dec
on_connect user c =
    if missing user
    then c
    else set_presence user online
        (record c { pending_offline = remove text_dec user c.pending_offline })

abbrev pub is_offline : Option Status → Bool
is_offline (some offline) = true
is_offline _ = false

abbrev pub none_open : List ℕ → Bool
none_open [] = true
none_open (_ ∷ _) = false

unfoldable pub on_disconnect : Text → Connections → Connections
unfolding get put text_dec get_sockets
on_disconnect user c =
    if missing user
    then c
    else if none_open (get_sockets user c) && is_offline (get text_dec user c.presence)
    then c
    else set_presence user offline
        (record c { deliveries = record_failures_for_disconnected_user user c.deliveries })

unfoldable pub request_disconnect : Text → Connections → Connections
unfolding contains add text_dec
request_disconnect user c =
    if missing user || contains text_dec user c.pending_offline
    then c
    else record c { pending_offline = add text_dec user c.pending_offline }

-- the timer of `requestDisconnect` goes off
unfoldable pub offline_timer : Text → Connections → Connections
unfolding remove text_dec get_sockets on_disconnect
offline_timer user c =
    let c' = record c { pending_offline = remove text_dec user c.pending_offline } in
    if none_open (get_sockets user c') then on_disconnect user c' else c'
