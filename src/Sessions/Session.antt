-- ===== src/Sessions/Session.antt =====
-- One session of sessionStore.js: its sockets, one of them the primary.
use relay_chatapp.Base.{
  ℕ, Bool, true, false, Option, none, some, List, [], ◌∷◌, Text, ℕ_discrete, length, contains, add,
  remove, get, put, drop_key, ltb, leb, if◌then◌else◌,
}

-- A socket is its identity, a number.
pub record Session : Type 0 where
  pub user_id : Text
  pub sockets : List ℕ
  pub primary : Option ℕ
  pub created_at : List (ℕ × ℕ)
  pub online : Bool
  pub protocol_version : Option ℕ
  pub last_seen : Option Text
  pub last_sent : Option Text
  pub connected_at : ℕ

-- the session that `createSession` stores; `later` is the second reading of the clock
abbrev pub new_session : Text → Option ℕ → ℕ → ℕ → Session
new_session user socket now later = record {
  user_id = user;
  sockets = elim socket [ none ↦ [] | some ws ↦ ws ∷ [] ];
  primary = socket;
  created_at = elim socket [ none ↦ [] | some ws ↦ (ws, now) ∷ [] ];
  online = true;
  protocol_version = none;
  last_seen = none;
  last_sent = none;
  connected_at = later;
}

abbrev pub time_or_zero : Option ℕ → ℕ
time_or_zero none = 0
time_or_zero (some at) = at

-- the loops that look for the newest socket; of sockets of one time the last is taken
unfoldable pub newest_of : List (ℕ × ℕ) → List ℕ → Option ℕ → ℕ → Option ℕ
unfolding get
newest_of created [] best best_at = best
newest_of created (ws ∷ sockets) best best_at =
    let at = time_or_zero (get ℕ_discrete ws created) in
    let (best', at') = if leb best_at at then (some ws, at) else (best, best_at) in
    newest_of created sockets best' at'

-- `at < oldestAt`, where `Infinity` is `none`
abbrev pub is_older : ℕ → Option (ℕ × ℕ) → Bool
is_older at none = true
is_older at (some (ws, oldest_at)) = ltb at oldest_at

-- the loop that looks for the oldest socket
unfoldable pub oldest_of : List (ℕ × ℕ) → List ℕ → Option (ℕ × ℕ) → Option (ℕ × ℕ)
unfolding get
oldest_of created [] best = best
oldest_of created (ws ∷ sockets) best =
    let best' : Option (ℕ × ℕ) = elim (get ℕ_discrete ws created) [
      | none ↦ best
      | some at ↦ if is_older at best then some (ws, at) else best
    ] in
    oldest_of created sockets best'

abbrev pub is_primary : ℕ → Option ℕ → Bool
is_primary ws none = false
is_primary ws (some p) = elim (ℕ_discrete p ws) [ yes _ ↦ true | no _ ↦ false ]

-- A socket goes; if it was the primary, the newest of those that stay follows.
unfoldable pub drop_socket : ℕ → Session → Session
unfolding remove drop_key newest_of
drop_socket ws s =
    let sockets = remove ℕ_discrete ws s.sockets in
    let created = drop_key ℕ_discrete ws s.created_at in
    record s {
      sockets = sockets;
      created_at = created;
      primary = if is_primary ws s.primary then newest_of created sockets none 0 else s.primary;
    }

abbrev pub or_socket : Option ℕ → ℕ → Option ℕ
or_socket none ws = some ws
or_socket (some p) ws = some p

-- `attachSocket` before the eviction
unfoldable pub enter_socket : ℕ → ℕ → Session → Session
unfolding add put
enter_socket now ws s = record s {
  created_at = put ℕ_discrete ws now s.created_at;
  sockets = add ℕ_discrete ws s.sockets;
  primary = or_socket s.primary ws;
  online = true;
  protocol_version = none;
}

-- the eviction of `attachSocket`
unfoldable pub evict : ℕ → Session → Session × Option ℕ
unfolding oldest_of drop_socket
evict max_sockets s =
    if ltb max_sockets (length s.sockets)
    then elim (oldest_of s.created_at s.sockets none) [
      | none ↦ (s, none)
      | some (ws, _) ↦ (drop_socket ws s, some ws)
    ]
    else (s, none)

abbrev pub is_alone : List ℕ → Bool
is_alone [] = true
is_alone (ws ∷ sockets) = false

-- `markOffline` on the session, and whether the socket was there
unfoldable pub leave_session : ℕ → Session → Session × Bool
unfolding contains drop_socket
leave_session ws s =
    if contains ℕ_discrete ws s.sockets
    then (let t = drop_socket ws s in
        (record t { online = if is_alone t.sockets then false else t.online }, true))
    else (s, false)
