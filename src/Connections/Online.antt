-- ===== src/Connections/Online.antt =====
-- Who is shown as online (backend/websocket/connection/connectionManager.js, connection/lifecycle.js).
use relay_chatapp.Base.{
  ◌≡◌, refl, ap, ◌∙◌, ◌⊎◌, inl, inr, ℕ, true, false, Option, none, some, Text, text_dec, ℕ_discrete,
  get, get-put, remove, arith, if_cases,
}
use relay_chatapp.Messages.Life.{missing}
use relay_chatapp.Sessions.Kept.{IsKept, mark_offline-IsKept}
use relay_chatapp.Connections.State.{
  Ready, online, offline, Connections, is_open, get_sockets, on_connect, on_disconnect,
  request_disconnect, offline_timer, none_open,
}
use relay_chatapp.Connections.Manager.{
  forget_socket, cleanup, close_event, close_socket, drop_evicted,
}
use relay_chatapp.Connections.Held.{IsHeld, Shrinks, mark_offline-Shrinks, open_held_found}

abbrev pub IsOnline : Text → Connections → Type 0
IsOnline user c = get text_dec user c.presence ≡ some online

-- Every user with an open socket in a session is shown as online, but for those of `E`.
pub record IsShown (E : Text → Type 0) (n : ℕ) (c : Connections) : Type 0 where
  pub kept : IsKept n c.sessions
  pub shown :
      (id user : Text) (ws : ℕ)
      → IsHeld c.sessions id user ws
      → is_open ws c.ready ≡ true
      → IsOnline user c ⊎ E user

-- The sessions hold fewer sockets, fewer of them are open, and nobody's presence changes.
pub record IsFewer (n : ℕ) (c after : Connections) : Type 0 where
  pub kept : IsKept n after.sessions
  pub fewer : Shrinks c.sessions after.sessions
  pub closing_only : (ws : ℕ) → is_open ws after.ready ≡ true → is_open ws c.ready ≡ true
  pub same : after.presence ≡ c.presence

pub fewer-IsShown :
    (E : Text → Type 0) (n : ℕ) (c after : Connections)
    → IsFewer n c after
    → IsShown E n c
    → IsShown E n after
fewer-IsShown E n c after f h = record {
  kept = f.kept;
  shown = λ id user ws held o.
      elim (h.shown id user ws (f.fewer id user ws held) (f.closing_only ws o)) [
        | inl on ↦ inl (ap (get text_dec user) f.same ∙ on)
        | inr e ↦ inr e
      ];
}

forget-IsFewer :
    (E : Text → Type 0) (n : ℕ) (id : Text) (ws : ℕ) (c : Connections)
    → IsShown E n c
    → IsFewer n c (forget_socket id ws c)
unfolding forget_socket
forget-IsFewer E n id ws c h = record {
  kept = mark_offline-IsKept n id ws c.sessions h.kept;
  fewer = mark_offline-Shrinks id ws c.sessions;
  closing_only = λ _ o. o;
  same = refl;
}

-- A user without an open socket goes offline.
on_disconnect-IsShown :
    (E : Text → Type 0) (n : ℕ) (user : Text) (c : Connections)
    → none_open (get_sockets user c) ≡ true
    → IsShown E n c
    → IsShown E n (on_disconnect user c)
unfolding on_disconnect get_sockets
on_disconnect-IsShown E n user c gone h =
    if_cases (IsShown E n) (missing user) (λ _. h)
      (λ _.
        if_cases (IsShown E n) _ (λ _. h)
          (λ _. record {
            kept = h.kept;
            shown = λ id v ws held o.
                let found = open_held_found n c.ready c.sessions id v ws h.kept held o in
                elim (h.shown id v ws held o) [
                  | inl on ↦
                      inl (
                        ground (arith, gone, found, on, get-put text_dec user v offline c.presence))
                  | inr e ↦ inr e
                ];
          }))

pub cleanup-IsShown :
    (E : Text → Type 0) (n : ℕ) (user id : Text) (ws : ℕ) (c : Connections)
    → IsShown E n c
    → IsShown E n (cleanup user id ws c)
unfolding cleanup
cleanup-IsShown E n user id ws c h =
    let after = forget_socket id ws c in
    let k = fewer-IsShown E n c after (forget-IsFewer E n id ws c h) h in
    if_cases (IsShown E n) (none_open (get_sockets user after))
      (λ gone. on_disconnect-IsShown E n user after gone k) (λ _. k)

request-IsShown :
    (E : Text → Type 0) (n : ℕ) (user : Text) (c : Connections)
    → IsShown E n c
    → IsShown E n (request_disconnect user c)
unfolding request_disconnect
request-IsShown E n user c h =
    if_cases (IsShown E n) _ (λ _. h) (λ _. record { kept = h.kept; shown = h.shown })

pub closed-IsShown :
    (E : Text → Type 0) (n : ℕ) (user id : Text) (ws : ℕ) (c : Connections)
    → IsShown E n c
    → IsShown E n (close_event user id ws c)
unfolding close_event
closed-IsShown E n user id ws c h =
    let after = forget_socket id ws c in
    let k = fewer-IsShown E n c after (forget-IsFewer E n id ws c h) h in
    if_cases (IsShown E n) (none_open (get_sockets user after))
      (λ _. request-IsShown E n user after k) (λ _. k)

pub timer-IsShown :
    (E : Text → Type 0) (n : ℕ) (user : Text) (c : Connections)
    → IsShown E n c
    → IsShown E n (offline_timer user c)
unfolding offline_timer get_sockets
timer-IsShown E n user c h =
    let c' = record c { pending_offline = remove text_dec user c.pending_offline } in
    let k : IsShown E n c' = record { kept = h.kept; shown = h.shown } in
    if_cases (IsShown E n) (none_open (get_sockets user c'))
      (λ gone. on_disconnect-IsShown E n user c' gone k) (λ _. k)

pub connect-IsShown :
    (n : ℕ) (user : Text) (c : Connections)
    → missing user ≡ false
    → IsShown (λ v. v ≡ user) n c
    → IsShown (λ _. ⊥) n (on_connect user c)
unfolding on_connect
connect-IsShown n user c named h = rw (named) (record {
  kept = h.kept;
  shown = λ id v ws held o. elim (h.shown id v ws held o) [
    | inl on ↦ inl (ground (arith, on, get-put text_dec user v online c.presence))
    | inr e ↦ inl (ground (arith, e, get-put text_dec user v online c.presence))
  ];
})

module _ (after_close : Ready) where
  close-IsFewer :
      (n : ℕ) (ws : ℕ) (c : Connections)
      → IsKept n c.sessions
      → IsFewer n c (close_socket after_close ws c)
  unfolding close_socket is_open
  close-IsFewer n ws c kept =
      if_cases (IsFewer n c) (is_open ws c.ready)
        (λ o. record {
          kept = kept;
          fewer = λ _ _ _ held. held;
          closing_only = λ x p. ground (arith, o, p, get-put ℕ_discrete ws x after_close c.ready);
          same = refl;
        })
        (λ _. record {
          kept = kept;
          fewer = λ _ _ _ held. held;
          closing_only = λ _ o. o;
          same = refl;
        })

  pub close_cleanup-IsShown :
      (E : Text → Type 0) (n : ℕ) (user id : Text) (ws : ℕ) (c : Connections)
      → IsShown E n c
      → IsShown E n (cleanup user id ws (close_socket after_close ws c))
  close_cleanup-IsShown E n user id ws c h =
      cleanup-IsShown E n user id ws (close_socket after_close ws c)
        (fewer-IsShown E n c (close_socket after_close ws c) (close-IsFewer n ws c h.kept) h)

  pub evicted-IsShown :
      (E : Text → Type 0) (n : ℕ) (user id : Text) (evicted : Option ℕ) (c : Connections)
      → IsShown E n c
      → IsShown E n (drop_evicted after_close user id evicted c)
  unfolding drop_evicted
  evicted-IsShown E n user id none c h = h
  evicted-IsShown E n user id (some ws) c h = close_cleanup-IsShown E n user id ws c h
