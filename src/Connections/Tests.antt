-- ===== src/Connections/Tests.antt =====
-- Runs of the connection manager on concrete events, and the theorem at a concrete input.
use relay_chatapp.Base.{
  ◌≡◌, refl, sym, ap, ℕ, ◌+◌, Option, none, some, [], ◌∷◌, Text, codes, text_dec, ℕ_discrete, get,
  put,
}
use relay_chatapp.Sessions.Session.{Session}
use relay_chatapp.Connections.State.{
  ready_open, closing, online, offline, Connections, no_connections, is_open, get_sockets,
  offline_timer,
}
use relay_chatapp.Connections.Manager.{register, close_event, remove_user}
use relay_chatapp.Connections.Step.{registers, closes, times_out, opens, Reached, started, next}
use relay_chatapp.Connections.Presence.{open_user-IsOnline}

abbrev ann : Text
ann = codes "ann"

abbrev s1 : Text
s1 = codes "s1"

abbrev owner : Option Session → Text
owner none = []
owner (some s) = s.user_id

abbrev at : ℕ → ℕ → ℕ
at t k = t + k

abbrev or_none : Option Connections → Connections
or_none none = no_connections
or_none (some c) = c

abbrev opened : ℕ → Connections → Connections
unfolding put
opened ws c = record c { ready = put ℕ_discrete ws ready_open c.ready }

abbrev two_open : Connections
two_open = opened 2 (opened 1 no_connections)

-- a session of ann with room for one socket
abbrev first_tab : Connections
unfolding register
first_tab = or_none (register closing 1 (at 10) ann s1 1 two_open)

abbrev second_tab : Connections
unfolding register
second_tab = or_none (register closing 1 (at 20) ann s1 2 first_tab)

-- the socket of the first tab was evicted, and now its close event and a timer come
abbrev left_over : Connections
unfolding close_event offline_timer
left_over = offline_timer ann (close_event ann s1 1 second_tab)

-- only the second tab's socket is found
sockets_left : get_sockets ann left_over ≡ 2 ∷ []
unfolding get_sockets register close_event offline_timer get put text_dec ℕ_discrete
sockets_left = refl

-- all sockets of a user are removed: the user is told to be offline, and the session goes
removed_offline : get text_dec ann (remove_user closing ann left_over).presence ≡ some offline
unfolding remove_user get_sockets register close_event offline_timer get put text_dec ℕ_discrete
removed_offline = refl

reached : Reached 1 closing left_over
unfolding register close_event offline_timer get put text_dec ℕ_discrete
reached =
    next _ _
      (next _ _
        (next _ _
          (next _ _
            (next _ _
              (next _ _ started
                (opens 1 no_connections (λ _ _ held. let e : none ≡ some held.0 = held.1 in cc)))
              (opens 2 (opened 1 no_connections)
                (λ _ _ held. let e : none ≡ some held.0 = held.1 in cc)))
            (registers (at 10) ann s1 1 two_open first_tab (λ s e. absurd (cc)) refl))
          (registers (at 20) ann s1 2 first_tab second_tab (λ s e. sym (ap owner e)) refl))
        (closes ann s1 1 second_tab))
      (times_out ann (close_event ann s1 1 second_tab))

open_user-IsOnline_example : get text_dec ann left_over.presence ≡ some online
unfolding register close_event offline_timer get put text_dec ℕ_discrete is_open
open_user-IsOnline_example =
    open_user-IsOnline 1 closing left_over s1 ann 2 reached (_, refl, refl, refl) refl
