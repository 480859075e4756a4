-- ===== src/Sessions/Tests.antt =====
-- Runs of the session store on concrete calls, and the theorem at a concrete input.
use relay_chatapp.Base.{
  Bool, true, false, ℕ_discrete, ◌≤◌, arith, ℕ, ◌+◌, ◌≡◌, refl, Option, none, some, List, [], ◌∷◌,
  Text, codes, text_dec, get,
}
use relay_chatapp.Sessions.Session.{evict, Session}
use relay_chatapp.Sessions.Store.{no_sessions}
use relay_chatapp.Sessions.Step.{Call, create, attach, run}
use relay_chatapp.Sessions.Choice.{has_socket}
use relay_chatapp.Sessions.Eviction.{evict_oldest}
use relay_chatapp.Sessions.Kept.{IsKept, run-IsKept}

abbrev at : ℕ → ℕ → ℕ
at t k = t + k

abbrev ann : Text
ann = codes "ann"

abbrev s1 : Text
s1 = codes "s1"

-- ann opens three tabs with a limit of two, and closes the second
abbrev tabs : List ((ℕ → ℕ) × Call)
tabs = (at 10, create ann s1 (some 1)) ∷ (at 20, attach s1 2) ∷ (at 30, attach s1 3) ∷ []

abbrev sockets_of : Option Session → List ℕ
sockets_of none = []
sockets_of (some s) = s.sockets

-- the first tab was evicted
tabs_left : sockets_of (get text_dec s1 (run 2 tabs no_sessions).by_session) ≡ 2 ∷ 3 ∷ []
unfolding run get relay_chatapp.Base.ℕ_discrete
tabs_left = refl

run-IsKept_example : IsKept 2 (run 2 tabs no_sessions)
run-IsKept_example = run-IsKept 2 tabs

-- what three tabs leave where the limit is three
abbrev three_tabs : Session
three_tabs = record {
  user_id = ann;
  sockets = 1 ∷ 2 ∷ 3 ∷ [];
  primary = some 1;
  created_at = (1, 10) ∷ (2, 20) ∷ (3, 30) ∷ [];
  online = true;
  protocol_version = none;
  last_seen = none;
  last_sent = none;
  connected_at = 11;
}

three_tabs_stored : get text_dec s1 (run 3 tabs no_sessions).by_session ≡ some three_tabs
unfolding run get relay_chatapp.Base.ℕ_discrete
three_tabs_stored = refl

evict_oldest_example :
    (ws : ℕ) × (at : ℕ) × ((evict 2 three_tabs).1 ≡ some ws)
    × (get ℕ_discrete ws three_tabs.created_at ≡ some at)
    × ((x t : ℕ)
        → has_socket x three_tabs.sockets ≡ true
        → get ℕ_discrete x three_tabs.created_at ≡ some t
        → at ≤ t)
    × (has_socket ws three_tabs.sockets ≡ true)
    × ((x : ℕ)
        → has_socket x (evict 2 three_tabs).0.sockets
          ≡ (elim (ℕ_discrete x ws) [ yes _ ↦ false | no _ ↦ has_socket x three_tabs.sockets ]))
evict_oldest_example =
    evict_oldest 2 three_tabs (run-IsKept 3 tabs s1 three_tabs three_tabs_stored).0 (omega arith)
