-- ===== src/Connections/Presence.antt =====
-- A user is shown as online while a socket of theirs is open (backend/websocket/connection).
use relay_chatapp.Base.{
  ◌≡◌, ◌≢◌, refl, inl, inr, subst, ℕ, true, none, some, List, Text, ℕ_discrete, get, put, get-put,
  arith,
}
use relay_chatapp.Sessions.Store.{max_sockets}
use relay_chatapp.Connections.State.{
  Ready, ready_open, connecting, closing, closed, Connections, is_open,
}
use relay_chatapp.Connections.Held.{IsHeld}
use relay_chatapp.Connections.Online.{IsOnline, closed-IsShown, timer-IsShown}
use relay_chatapp.Connections.Step.{
  Step, registers, closes, times_out, removes_session, removes_user, removes_connection,
  leaves_open, opens, Reached, started, next,
}
use relay_chatapp.Connections.Calls.{
  Everyone, connection-IsShown, register-IsShown, session-IsShown, user-IsShown,
}

still_open :
    (ready : List (ℕ × Ready)) (ws x : ℕ) (r : Ready)
    → r ≢ ready_open
    → is_open x (put ℕ_discrete ws r ready) ≡ true
    → is_open x ready ≡ true
unfolding is_open
still_open ready ws x ready_open other o = absurd (other refl)
still_open ready ws x connecting other o =
    ground (arith, o, get-put ℕ_discrete ws x connecting ready)
still_open ready ws x closing other o = ground (arith, o, get-put ℕ_discrete ws x closing ready)
still_open ready ws x closed other o = ground (arith, o, get-put ℕ_discrete ws x closed ready)

module _ (after_close : Ready) where
  step-IsShown :
      (limit : ℕ) (c after : Connections)
      → Step limit after_close c after
      → Everyone (max_sockets limit) c
      → Everyone (max_sockets limit) after
  unfolding is_open
  step-IsShown limit c after (registers now user session ws _ _ own becomes) h =
      register-IsShown after_close limit now user session ws c after own becomes h
  step-IsShown limit c after (closes user id ws _) h =
      closed-IsShown (λ _. ⊥) (max_sockets limit) user id ws c h
  step-IsShown limit c after (times_out user _) h =
      timer-IsShown (λ _. ⊥) (max_sockets limit) user c h
  step-IsShown limit c after (removes_session id _) h =
      session-IsShown after_close (max_sockets limit) id c h
  step-IsShown limit c after (removes_user user _) h =
      user-IsShown after_close (max_sockets limit) user c h
  step-IsShown limit c after (removes_connection ws _) h =
      connection-IsShown (max_sockets limit) ws c h
  step-IsShown limit c after (leaves_open ws r _ other) h = record {
    kept = h.kept;
    shown = λ id user x held o. h.shown id user x held (still_open c.ready ws x r other o);
  }
  step-IsShown limit c after (opens ws _ free) h = record {
    kept = h.kept;
    shown = λ id user x held o. elim (ℕ_discrete x ws) [
      | yes p ↦ absurd (free id user (subst (IsHeld c.sessions id user) p held))
      | no n ↦
          h.shown id user x held (ground (arith, o, n, get-put ℕ_discrete ws x ready_open c.ready))
    ];
  }

  Reached-IsShown :
      (limit : ℕ) (c : Connections) → Reached limit after_close c → Everyone (max_sockets limit) c
  unfolding get
  Reached-IsShown limit c started = record {
    kept = λ id s e. absurd (cc);
    shown = λ id user ws held o. absurd (let e : none ≡ some held.0 = held.1 in cc);
  }
  Reached-IsShown limit c (next before _ r s) =
      step-IsShown limit before c s (Reached-IsShown limit before r)

-- After any events in which a socket is registered with a session that is new or its user's own,
-- and no socket that a session holds opens again: a user is shown as online when a session of the
-- user holds an open socket.
pub open_user-IsOnline :
    (limit : ℕ) (after_close : Ready) (c : Connections) (id user : Text) (ws : ℕ)
    → Reached limit after_close c
    → IsHeld c.sessions id user ws
    → is_open ws c.ready ≡ true
    → IsOnline user c
open_user-IsOnline limit after_close c id user ws r held o =
    elim ((Reached-IsShown after_close limit c r).shown id user ws held o) [
      | inl on ↦ on
      | inr e ↦ absurd e
    ]
