-- ===== src/Sessions/Store.antt =====
-- The two maps of sessionStore.js and their operations.
use relay_chatapp.Base.{
  ℕ, Bool, false, Option, none, some, List, [], ◌∷◌, Text, text_dec, ℕ_discrete, contains, add,
  remove, get, put, drop_key, if◌then◌else◌,
}
use relay_chatapp.Sessions.Session.{
  Session, new_session, enter_socket, evict, is_alone, leave_session,
}

pub record Store : Type 0 where
  pub by_session : List (Text × Session)
  pub by_user : List (Text × List Text)

abbrev pub no_sessions : Store
no_sessions = record { by_session = []; by_user = [] }

-- `Math.max(1, config.MAX_SOCKETS_PER_SESSION || 3)`
abbrev pub max_sockets : ℕ → ℕ
max_sockets ℕ.zero = 3
max_sockets (ℕ.suc n) = ℕ.suc n

abbrev pub ids_or_none : Option (List Text) → List Text
ids_or_none none = []
ids_or_none (some ids) = ids

unfoldable pub create_session : (ℕ → ℕ) → Text → Text → Option ℕ → Store → Store
unfolding put get add text_dec
create_session now user id socket store = record {
  by_session = put text_dec id (new_session user socket (now 0) (now 1)) store.by_session;
  by_user =
      put text_dec user (add text_dec id (ids_or_none (get text_dec user store.by_user)))
        store.by_user;
}

-- the session is an object: a change to it shows in the map
unfoldable pub update_session : Text → (Session → Session) → Store → Store
unfolding get put text_dec
update_session id change store = elim (get text_dec id store.by_session) [
  | none ↦ store
  | some s ↦ record store { by_session = put text_dec id (change s) store.by_session }
]

unfoldable pub attach_socket : ℕ → ℕ → Text → ℕ → Store → Store × Option ℕ
unfolding get put text_dec enter_socket evict
attach_socket limit now id ws store = elim (get text_dec id store.by_session) [
  | none ↦ (store, none)
  | some s ↦
      let (t, evicted) = evict (max_sockets limit) (enter_socket now ws s) in
      (record store { by_session = put text_dec id t store.by_session }, evicted)
]

unfoldable pub mark_offline : Text → ℕ → Store → Store × Bool
unfolding get put text_dec leave_session
mark_offline id ws store = elim (get text_dec id store.by_session) [
  | none ↦ (store, false)
  | some s ↦
      let (t, removed) = leave_session ws s in
      (record store { by_session = put text_dec id t store.by_session }, removed)
]

-- `_firstSessionForUser`: the first session of the user with a socket
unfoldable pub first_with_socket : List Text → List (Text × Session) → Option Text
unfolding get text_dec
first_with_socket [] sessions = none
first_with_socket (id ∷ ids) sessions =
    let rest = first_with_socket ids sessions in
    elim (get text_dec id sessions) [
      | none ↦ rest
      | some s ↦ if is_alone s.sockets then rest else some id
    ]

unfoldable pub update_first : Text → (Session → Session) → Store → Store
unfolding first_with_socket update_session get text_dec
update_first user change store =
    elim (first_with_socket (ids_or_none (get text_dec user store.by_user)) store.by_session) [
      | none ↦ store
      | some id ↦ update_session id change store
    ]

unfoldable pub update_last_sent : Text → Option Text → Store → Store
unfolding update_first
update_last_sent user msg store = update_first user (λ s. record s { last_sent = msg }) store

unfoldable pub update_last_seen : Text → Option Text → Store → Store
unfolding update_first
update_last_seen user msg store = update_first user (λ s. record s { last_seen = msg }) store

unfoldable pub set_protocol_version : Text → Option ℕ → Store → Store
unfolding update_first
set_protocol_version user v store = update_first user (λ s. record s { protocol_version = v }) store

unfoldable pub set_protocol_version_by_session_id : Text → Option ℕ → Store → Store
unfolding update_session
set_protocol_version_by_session_id id v store =
    update_session id (λ s. record s { protocol_version = v }) store

-- `markOfflineByUserId`: the first session of the user that has the socket
unfoldable pub mark_first : List Text → ℕ → Store → Store × Bool
unfolding get text_dec contains mark_offline
mark_first [] ws store = (store, false)
mark_first (id ∷ ids) ws store =
    let rest = mark_first ids ws store in
    elim (get text_dec id store.by_session) [
      | none ↦ rest
      | some s ↦ if contains ℕ_discrete ws s.sockets then mark_offline id ws store else rest
    ]

unfoldable pub mark_offline_by_user_id : Text → ℕ → Store → Store × Bool
unfolding mark_first get text_dec
mark_offline_by_user_id user ws store =
    mark_first (ids_or_none (get text_dec user store.by_user)) ws store

abbrev pub unlist : Text → Text → List (Text × List Text) → List (Text × List Text)
unlist id user index = elim (get text_dec user index) [
  | none ↦ index
  | some ids ↦ elim (remove text_dec id ids) [
    | [] ↦ drop_key text_dec user index
    | x ∷ xs ↦ put text_dec user (x ∷ xs) index
  ]
]

unfoldable pub delete_session : Text → Store → Store × Option Session
unfolding get put drop_key remove text_dec
delete_session id store = elim (get text_dec id store.by_session) [
  | none ↦ (store, none)
  | some s ↦ (
    record {
      by_session = drop_key text_dec id store.by_session;
      by_user = unlist id s.user_id store.by_user;
    },
    some s,
  )
]
