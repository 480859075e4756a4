-- ===== src/Sessions/Kept.antt =====
-- What sessionStore.js keeps in every sequence of its calls.
use relay_chatapp.Base.{
  ℕ, ◌≤◌, ◌≡◌, refl, sym, inl, inr, Bool, true, Option, some, List, [], ◌∷◌, Text, text_dec,
  ℕ_discrete, subst, contains, get, put, arith, if_cases, option_cases,
}
use relay_chatapp.Sessions.Session.{
  Session, new_session, enter_socket, evict, is_alone, leave_session,
}
use relay_chatapp.Sessions.Store.{
  Store, no_sessions, max_sockets, ids_or_none, create_session, update_session, attach_socket,
  mark_offline, first_with_socket, update_first, update_last_sent, update_last_seen,
  set_protocol_version, set_protocol_version_by_session_id, mark_first, mark_offline_by_user_id,
  delete_session,
}
use relay_chatapp.Sessions.Whole.{
  IsWhole, attach-IsWhole, leave_session-IsWhole, new_session-IsWhole,
}
use relay_chatapp.Sessions.Step.{
  Call, create, attach, offline, offline_by_user, sent, seen, protocol, protocol_by_id, delete,
  step, run,
}
use relay_chatapp.Sessions.Listing.{got, enlisted, enlist_new, enlist_old, unlist_old, not_dropped}

-- `id` is listed for `user`
abbrev pub IsListed : Text → Text → Store → Type 0
IsListed id user store = contains text_dec id (ids_or_none (get text_dec user store.by_user)) ≡ true

-- Each session is whole, and listed for its user.
abbrev pub IsKept : ℕ → Store → Type 0
IsKept n store =
    (id : Text) (s : Session)
    → get text_dec id store.by_session ≡ some s
    → IsWhole n s × IsListed id s.user_id store

-- A session changes in place.
put-IsKept :
    (n : ℕ) (id : Text) (s t : Session) (store : Store)
    → IsKept n store
    → get text_dec id store.by_session ≡ some s
    → IsWhole n t
    → t.user_id ≡ s.user_id
    → IsKept n (record store { by_session = put text_dec id t store.by_session })
put-IsKept n id s t store h e w same q r f = elim (got id q t r store.by_session f) [
  | inl (p, k) ↦
      subst (λ (x : Session). IsWhole n x × IsListed q x.user_id store) k
        (
          w,
          subst (λ (x : Text). IsListed x t.user_id store) (sym p)
              (subst (λ (u : Text). IsListed id u store) (sym same) (h id s e).1),
        )
  | inr (_, k) ↦ h q r k
]

pub evict_user : (n : ℕ) (s : Session) → (evict n s).0.user_id ≡ s.user_id
unfolding evict relay_chatapp.Sessions.Session.drop_socket
evict_user n s = ground arith

pub leave_session_user : (ws : ℕ) (s : Session) → (leave_session ws s).0.user_id ≡ s.user_id
unfolding leave_session relay_chatapp.Sessions.Session.drop_socket
leave_session_user ws s = ground arith

pub attach_socket-IsKept :
    (limit now : ℕ) (id : Text) (ws : ℕ) (store : Store)
    → IsKept (max_sockets limit) store
    → IsKept (max_sockets limit) (attach_socket limit now id ws store).0
unfolding attach_socket enter_socket
attach_socket-IsKept limit now id ws store h =
    option_cases (λ (o : Store × Option ℕ). IsKept (max_sockets limit) o.0)
      (get text_dec id store.by_session) (λ _. h)
      (λ s e.
        put-IsKept (max_sockets limit) id s (evict (max_sockets limit) (enter_socket now ws s)).0
          store h e (attach-IsWhole (max_sockets limit) now ws s (h id s e).0)
          (evict_user (max_sockets limit) (enter_socket now ws s)))

pub mark_offline-IsKept :
    (n : ℕ) (id : Text) (ws : ℕ) (store : Store)
    → IsKept n store
    → IsKept n (mark_offline id ws store).0
unfolding mark_offline
mark_offline-IsKept n id ws store h =
    option_cases (λ (o : Store × Bool). IsKept n o.0) (get text_dec id store.by_session) (λ _. h)
      (λ s e.
        put-IsKept n id s (leave_session ws s).0 store h e
          (leave_session-IsWhole n ws s (h id s e).0) (leave_session_user ws s))

mark_first-IsKept :
    (n : ℕ) (ids : List Text) (ws : ℕ) (store : Store)
    → IsKept n store
    → IsKept n (mark_first ids ws store).0
unfolding mark_first
mark_first-IsKept n [] ws store h = h
mark_first-IsKept n (id ∷ ids) ws store h =
    let rest = mark_first-IsKept n ids ws store h in
    option_cases (λ (o : Store × Bool). IsKept n o.0) (get text_dec id store.by_session) (λ _. rest)
      (λ s e.
        if_cases (λ (o : Store × Bool). IsKept n o.0) (contains ℕ_discrete ws s.sockets)
          (λ _. mark_offline-IsKept n id ws store h) (λ _. rest))

-- A change that keeps the sockets, the primary and the user of each session.
abbrev Harmless : (Session → Session) → Type 0
Harmless change =
    (n : ℕ) (s : Session) → IsWhole n s → IsWhole n (change s) × ((change s).user_id ≡ s.user_id)

update_session-IsKept :
    (n : ℕ) (id : Text) (change : Session → Session) (store : Store)
    → Harmless change
    → IsKept n store
    → IsKept n (update_session id change store)
unfolding update_session
update_session-IsKept n id change store ok h =
    option_cases (IsKept n) (get text_dec id store.by_session) (λ _. h)
      (λ s e. let (w, same) = ok n s (h id s e).0 in put-IsKept n id s (change s) store h e w same)

update_first-IsKept :
    (n : ℕ) (user : Text) (change : Session → Session) (store : Store)
    → Harmless change
    → IsKept n store
    → IsKept n (update_first user change store)
unfolding update_first
update_first-IsKept n user change store ok h =
    option_cases (IsKept n)
      (first_with_socket (ids_or_none (get text_dec user store.by_user)) store.by_session) (λ _. h)
      (λ id _. update_session-IsKept n id change store ok h)

pub create_session-IsKept :
    (n : ℕ) (now : ℕ → ℕ) (user id : Text) (socket : Option ℕ) (store : Store)
    → 1 ≤ n
    → IsKept n store
    → IsKept n (create_session now user id socket store)
unfolding create_session enlisted
create_session-IsKept n now user id socket store one h q r f =
    elim (got id q (new_session user socket (now 0) (now 1)) r store.by_session f) [
      | inl (p, k) ↦
          subst
            (λ (x : Session).
              IsWhole n x × IsListed q x.user_id (create_session now user id socket store))
            k
            (
              new_session-IsWhole n user socket (now 0) (now 1) one,
              subst (λ (x : Text). IsListed x user (create_session now user id socket store))
                  (sym p) (enlist_new user id store.by_user),
            )
      | inr (_, k) ↦ ((h q r k).0, enlist_old user id r.user_id q store.by_user (h q r k).1)
    ]

pub delete_session-IsKept :
    (n : ℕ) (id : Text) (store : Store) → IsKept n store → IsKept n (delete_session id store).0
unfolding delete_session
delete_session-IsKept n id store h =
    option_cases (λ (o : Store × Option Session). IsKept n o.0) (get text_dec id store.by_session)
      (λ _. h)
      (λ s e q r f.
        let (other, k) = not_dropped id q r store.by_session f in
        ((h q r k).0, unlist_old s.user_id id r.user_id q store.by_user other (h q r k).1))

pub max_sockets-positive : (limit : ℕ) → 1 ≤ max_sockets limit
max_sockets-positive ℕ.zero = omega arith
max_sockets-positive (ℕ.suc n) = omega arith

protocol-IsWhole :
    (n : ℕ) (s : Session) (v : Option ℕ)
    → IsWhole n s
    → IsWhole n (record s { protocol_version = v })
protocol-IsWhole n s v w = record {
  bounded = w.bounded;
  main = w.main;
  timed = w.timed;
  live = w.live;
}

step-IsKept :
    (limit : ℕ) (now : ℕ → ℕ) (c : Call) (store : Store)
    → IsKept (max_sockets limit) store
    → IsKept (max_sockets limit) (step limit now c store)
unfolding step mark_offline_by_user_id update_last_sent update_last_seen set_protocol_version
    set_protocol_version_by_session_id
step-IsKept limit now (create user id socket) store h =
    create_session-IsKept (max_sockets limit) now user id socket store (max_sockets-positive limit)
      h
step-IsKept limit now (attach id ws) store h = attach_socket-IsKept limit (now 0) id ws store h
step-IsKept limit now (offline id ws) store h =
    mark_offline-IsKept (max_sockets limit) id ws store h
step-IsKept limit now (offline_by_user user ws) store h =
    mark_first-IsKept (max_sockets limit) _ ws store h
step-IsKept limit now (sent user msg) store h =
    update_first-IsKept (max_sockets limit) user (λ s. record s { last_sent = msg }) store
      (λ n s w.
        (record { bounded = w.bounded; main = w.main; timed = w.timed; live = w.live }, refl))
      h
step-IsKept limit now (seen user msg) store h =
    update_first-IsKept (max_sockets limit) user (λ s. record s { last_seen = msg }) store
      (λ n s w.
        (record { bounded = w.bounded; main = w.main; timed = w.timed; live = w.live }, refl))
      h
step-IsKept limit now (protocol user v) store h =
    update_first-IsKept (max_sockets limit) user (λ s. record s { protocol_version = v }) store
      (λ n s w. (protocol-IsWhole n s v w, refl)) h
step-IsKept limit now (protocol_by_id id v) store h =
    update_session-IsKept (max_sockets limit) id (λ s. record s { protocol_version = v }) store
      (λ n s w. (protocol-IsWhole n s v w, refl)) h
step-IsKept limit now (delete id) store h = delete_session-IsKept (max_sockets limit) id store h

run_from-IsKept :
    (limit : ℕ) (calls : List ((ℕ → ℕ) × Call)) (store : Store)
    → IsKept (max_sockets limit) store
    → IsKept (max_sockets limit) (run limit calls store)
unfolding run
run_from-IsKept limit [] store h = h
run_from-IsKept limit ((now, c) ∷ calls) store h =
    run_from-IsKept limit calls (step limit now c store) (step-IsKept limit now c store h)

-- After any calls from an empty store, each session has at most the configured number of sockets, each with its time.
-- It has a primary if and only if it has sockets, and the primary is one of them; it is marked
-- online while it has any; and it is listed for its user.
pub run-IsKept :
    (limit : ℕ) (calls : List ((ℕ → ℕ) × Call))
    → IsKept (max_sockets limit) (run limit calls no_sessions)
unfolding get
run-IsKept limit calls = run_from-IsKept limit calls no_sessions (λ id s e. absurd (cc))
