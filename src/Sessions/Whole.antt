-- ===== src/Sessions/Whole.antt =====
-- What holds of each session of sessionStore.js: few sockets, and a primary among them.
use relay_chatapp.Base.{
  ℕ, suc, ◌+◌, ◌≤◌, ◌<◌, ◌≡◌, refl, Bool, true, false, Option, none, some, List, [], ◌∷◌, Text,
  ℕ_discrete, length, contains, add, remove, contains-add, contains-remove, length-remove-le, get,
  drop_key, get-put, get-drop_key, ltb, arith, if_cases,
}
use relay_chatapp.Sessions.Session.{
  Session, new_session, is_primary, drop_socket, or_socket, enter_socket, evict, is_alone,
  leave_session,
}
use relay_chatapp.Sessions.Choice.{
  has_socket, IsPrimaryOf, AreTimed, newest_of-IsPrimaryOf, oldest_of-found,
}

-- The session has at most `n` sockets, each with its time, and its primary is one of them; it is
-- marked online while it has any.
pub record IsWhole (n : ℕ) (s : Session) : Type 0 where
  pub bounded : length s.sockets ≤ n
  pub main : IsPrimaryOf s.primary s.sockets
  pub timed : AreTimed s.created_at s.sockets
  pub live : is_alone s.sockets ≡ false → s.online ≡ true

length-remove_in :
    (ws : ℕ) (sockets : List ℕ)
    → has_socket ws sockets ≡ true
    → length (remove ℕ_discrete ws sockets) < length sockets
unfolding contains remove
length-remove_in ws [] h = absurd (cc)
length-remove_in ws (x ∷ sockets) h =
    ground (arith, length-remove-le ℕ_discrete ws sockets, length-remove_in ws sockets)

not_alone : (ws : ℕ) (sockets : List ℕ) → has_socket ws sockets ≡ true → is_alone sockets ≡ false
unfolding contains
not_alone ws [] h = cc
not_alone ws (x ∷ sockets) h = refl

drop_socket-IsWhole :
    (n ws : ℕ) (s : Session)
    → has_socket ws s.sockets ≡ true
    → IsWhole (suc n) s
    → IsWhole n (drop_socket ws s)
unfolding drop_socket remove
drop_socket-IsWhole n ws s h w = record {
  bounded = omega (arith, length-remove_in ws s.sockets h, w.bounded);
  main =
      if_cases (λ (p : Option ℕ). IsPrimaryOf p (remove ℕ_discrete ws s.sockets))
        (is_primary ws s.primary)
        (λ _.
          newest_of-IsPrimaryOf (drop_key ℕ_discrete ws s.created_at)
            (remove ℕ_discrete ws s.sockets))
        (λ e. by_primary s.primary w.main e);
  timed = λ x k. ground (
    arith,
    k,
    contains-remove ℕ_discrete ws x s.sockets,
    get-drop_key ℕ_discrete ws x s.created_at,
    w.timed x,
  );
  live = λ _. w.live (not_alone ws s.sockets h);
}
  where
    by_primary :
        (p : Option ℕ)
        → IsPrimaryOf p s.sockets
        → is_primary ws p ≡ false
        → IsPrimaryOf p (remove ℕ_discrete ws s.sockets)
    by_primary none main e = rw main refl
    by_primary (some p) main e = ground (arith, main, e, contains-remove ℕ_discrete ws p s.sockets)

length-add-le :
    (ws : ℕ) (sockets : List ℕ) → length (add ℕ_discrete ws sockets) ≤ length sockets + 1
unfolding add
length-add-le ws [] = omega arith
length-add-le ws (x ∷ sockets) = ground (arith, length-add-le ws sockets)

enter_socket-IsWhole :
    (n now ws : ℕ) (s : Session) → IsWhole n s → IsWhole (suc n) (enter_socket now ws s)
unfolding enter_socket
enter_socket-IsWhole n now ws s w = record {
  bounded = omega (arith, length-add-le ws s.sockets, w.bounded);
  main = by_primary s.primary w.main;
  timed = λ x k. ground (
    arith,
    k,
    contains-add ℕ_discrete ws x s.sockets,
    get-put ℕ_discrete ws x now s.created_at,
    w.timed x,
  );
  live = λ _. refl;
}
  where
    by_primary :
        (p : Option ℕ)
        → IsPrimaryOf p s.sockets
        → IsPrimaryOf (or_socket p ws) (add ℕ_discrete ws s.sockets)
    by_primary none main = ground (arith, contains-add ℕ_discrete ws ws s.sockets)
    by_primary (some p) main = ground (arith, main, contains-add ℕ_discrete ws p s.sockets)

pub not_alone_of_lt : (n : ℕ) (sockets : List ℕ) → n < length sockets → is_alone sockets ≡ false
not_alone_of_lt n [] h = absurd (omega (arith, h))
not_alone_of_lt n (x ∷ sockets) h = refl

pub evict-IsWhole : (n : ℕ) (s : Session) → IsWhole (suc n) s → IsWhole n (evict n s).0
unfolding evict
evict-IsWhole n s w =
    if_cases (λ (o : Session × Option ℕ). IsWhole n o.0) (ltb n (length s.sockets))
      (λ e.
        let (c, found, place) =
          oldest_of-found s.created_at s.sockets (not_alone_of_lt n s.sockets (ground arith))
            w.timed in
        rw found (drop_socket-IsWhole n c.0 s place w))
      (λ e. record { bounded = ground arith; main = w.main; timed = w.timed; live = w.live })

pub attach-IsWhole :
    (n now ws : ℕ) (s : Session) → IsWhole n s → IsWhole n (evict n (enter_socket now ws s)).0
attach-IsWhole n now ws s w =
    evict-IsWhole n (enter_socket now ws s) (enter_socket-IsWhole n now ws s w)

pub leave_session-IsWhole :
    (n ws : ℕ) (s : Session) → IsWhole n s → IsWhole n (leave_session ws s).0
unfolding leave_session
leave_session-IsWhole n ws s w =
    if_cases (λ (o : Session × Bool). IsWhole n o.0) (contains ℕ_discrete ws s.sockets)
      (λ h.
        let d = drop_socket-IsWhole n ws s h (record {
          bounded = omega (arith, w.bounded);
          main = w.main;
          timed = w.timed;
          live = w.live;
        }) in
        record { bounded = d.bounded; main = d.main; timed = d.timed; live = λ k. rw k (d.live k) })
      (λ _. w)

pub new_session-IsWhole :
    (n : ℕ) (user : Text) (socket : Option ℕ) (now later : ℕ)
    → 1 ≤ n
    → IsWhole n (new_session user socket now later)
unfolding contains get
new_session-IsWhole n user none now later h = record {
  bounded = omega arith;
  main = refl;
  timed = λ ws k. absurd (cc);
  live = λ _. refl;
}
new_session-IsWhole n user (some ws) now later h = record {
  bounded = h;
  main = ground arith;
  timed = λ x k. ground arith;
  live = λ _. refl;
}
