-- ===== src/Sessions/Step.antt =====
-- Any sequence of calls of sessionStore.js.
use relay_chatapp.Base.{ℕ, Option, List, [], ◌∷◌, Text}
use relay_chatapp.Sessions.Store.{
  Store, create_session, attach_socket, mark_offline, update_last_sent, update_last_seen,
  set_protocol_version, set_protocol_version_by_session_id, mark_offline_by_user_id, delete_session,
}

pub data Call : Type 0 where
  create : Text → Text → Option ℕ → Call
  attach : Text → ℕ → Call
  offline : Text → ℕ → Call
  offline_by_user : Text → ℕ → Call
  sent seen : Text → Option Text → Call
  protocol protocol_by_id : Text → Option ℕ → Call
  delete : Text → Call

unfoldable pub step : ℕ → (ℕ → ℕ) → Call → Store → Store
unfolding create_session attach_socket mark_offline mark_offline_by_user_id update_last_sent
    update_last_seen set_protocol_version set_protocol_version_by_session_id delete_session
step limit now (create user id socket) store = create_session now user id socket store
step limit now (attach id ws) store = (attach_socket limit (now 0) id ws store).0
step limit now (offline id ws) store = (mark_offline id ws store).0
step limit now (offline_by_user user ws) store = (mark_offline_by_user_id user ws store).0
step limit now (sent user msg) store = update_last_sent user msg store
step limit now (seen user msg) store = update_last_seen user msg store
step limit now (protocol user v) store = set_protocol_version user v store
step limit now (protocol_by_id id v) store = set_protocol_version_by_session_id id v store
step limit now (delete id) store = (delete_session id store).0

unfoldable pub run : ℕ → List ((ℕ → ℕ) × Call) → Store → Store
unfolding step
run limit [] store = store
run limit ((now, c) ∷ calls) store = run limit calls (step limit now c store)
