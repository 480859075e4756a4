-- ===== src/Messages/Tests.antt =====
-- Runs of the messages on concrete inputs, and the theorems there (backend/services and
-- backend/storage/message.store.js).
use relay_chatapp.Messages.Delivery.{DeliveryState, Record, no_deliveries, is_sent}
use relay_chatapp.Messages.Timers.{run_timed}
use relay_chatapp.Messages.Calls.{Call, create, move, fires, force, run, dated}
use relay_chatapp.Base.{
  ◌≡◌, refl, ℕ, Bool, true, false, none, some, [], ◌∷◌, Text, codes, text_dec, ℕ_discrete, get, put,
  contains, distinct, trim, All, In, arith, not, ◌||◌, List, inl,
}
use relay_chatapp.Messages.Life.{sent, delivered, deleted}
use relay_chatapp.Messages.Rows.{
  Draft, Row, Db, no_messages, idempotency_key, get_message, insert_draft, soft_delete_message,
  is_message_delivered, row_of_key,
}
use relay_chatapp.Messages.Queries.{
  get_undelivered_messages, get_history_paginated, history, is_undelivered,
}
use relay_chatapp.Messages.Service.{
  Message, Chat, no_chat, Sending, Ack, duplicate, new_message, draft_of, is_persisted,
  accept_incoming_message, persist_and_return_ack,
}
use relay_chatapp.Messages.Receipts.{confirm_delivered}
use relay_chatapp.Messages.Replay.{Hub, Replayed, ReplayResult, replay_messages}
use relay_chatapp.Messages.Handler.{acked, nack, internal_error, nack_of, handle_message_send}
use relay_chatapp.Messages.Stored.{has}
use relay_chatapp.Messages.Step.{accept, persist, delivered_by, Reach, start, next, IsTimely}
use relay_chatapp.Messages.Reached.{memory_matches_store}
use relay_chatapp.Messages.Acks.{handle_message_send-stored}
use relay_chatapp.Messages.Waiting.{IsCopy, acknowledged_waits}
use relay_chatapp.Messages.Forward.{IsForward}
use relay_chatapp.Messages.Lifecycle.{step-IsForward}
use relay_chatapp.Messages.Once.{replay_messages_once}
use relay_chatapp.Messages.Pages.{read_pages}
use relay_chatapp.Messages.Reading.{read_pages-history}
use relay_chatapp.Messages.Restart.{retry_after_restart, deleted_still_given}
use relay_chatapp.Messages.Resend.{here, then, repeated_send}

abbrev hello : Sending
hello = record {
  sender_id = codes "alice";
  receiver_id = codes "bob";
  client_message_id = some (codes "k1");
  content = codes "hello";
  fresh_id = codes "m1";
}

abbrev clock : ℕ → ℕ
clock n = 7

-- after the intake, and after the acknowledgement
abbrev taken : Chat
taken = (accept_incoming_message 100 5 hello no_chat).0

abbrev stored : Chat
stored = (persist_and_return_ack clock (new_message 5 hello) taken).0

abbrev ack_1 : Ack
ack_1 = record {
  message_id = codes "m1";
  client_message_id = some (codes "k1");
  timestamp = 5;
  duplicate = false;
}

acks : (handle_message_send 100 5 clock false hello no_chat).1 ≡ acked ack_1
unfolding handle_message_send text_dec ℕ_discrete
acks = refl

taken_reached : Reach taken
unfolding get text_dec get_message
taken_reached = next start (accept 100 5 hello (refl, refl))

stored_reached : Reach stored
unfolding accept_incoming_message text_dec ℕ_discrete
stored_reached = next taken_reached (persist clock (new_message 5 hello) (new_message 5 hello) refl)

memory_matches_store_example :
    (is_persisted sent ≡ has (codes "m1") stored.db) × (codes "m1" ≡ codes "m1")
unfolding persist_and_return_ack accept_incoming_message text_dec ℕ_discrete
memory_matches_store_example =
    memory_matches_store (codes "m1") (record (new_message 5 hello) { state = sent }) stored_reached
      refl

handle_message_send-stored_example :
    has (codes "m1") (handle_message_send 100 5 clock false hello no_chat).0.db ≡ true
unfolding handle_message_send get text_dec ℕ_discrete get_message
handle_message_send-stored_example =
    handle_message_send-stored 100 5 clock false hello ack_1 start (refl, refl) refl

abbrev hello_row : Row
hello_row = record { draft = draft_of (new_message 5 hello); updated_at = 7; created_at = 7 }

abbrev later_row : Row
later_row = record hello_row { draft = record (hello_row.draft) { state = delivered } }

step-IsForward_example : IsForward hello_row later_row
unfolding persist_and_return_ack accept_incoming_message confirm_delivered text_dec ℕ_discrete
    get_message IsTimely
step-IsForward_example =
    step-IsForward (codes "m1") hello_row later_row stored_reached
      (delivered_by clock (codes "m1") (codes "bob")) tt refl
      ((λ e. absurd (cc e)), (λ e. absurd (cc e))) refl

abbrev by_first : Text → Text → Bool
by_first s t = true

acknowledged_waits_example :
    (row : Row) × (get_message (codes "m1") stored.db ≡ some row)
    × IsCopy (new_message 5 hello) row.draft
    × In row (get_undelivered_messages by_first (codes "bob") none 10 stored.db)
unfolding persist_and_return_ack accept_incoming_message text_dec ℕ_discrete
acknowledged_waits_example =
    acknowledged_waits clock (new_message 5 hello) ack_1 by_first 10 taken_reached refl refl refl
      (omega arith)

-- the same client's id, with another text and a new id
abbrev again : Sending
again = record hello { content = codes "hello again"; fresh_id = codes "m2" }

repeated_send_example :
    (m : Message) × (accept_incoming_message 100 9 again stored ≡ (stored, duplicate m))
    × (m.message_id ≡ codes "m1")
unfolding accept_incoming_message text_dec ℕ_discrete get_message idempotency_key
repeated_send_example =
    repeated_send 100 5 9 hello again (codes "alice:k1") (new_message 5 hello) start (refl, refl)
      refl refl refl refl
      (then here (persist clock (new_message 5 hello) (new_message 5 hello) refl)) refl

abbrev hub : Hub
hub = record { chat = stored; cache = []; counts = []; notices = [] }

abbrev replayed_hello : Replayed
replayed_hello = later_row.draft

abbrev answer : ReplayResult
answer = record {
  messages = replayed_hello ∷ [];
  last_message_id = some (codes "m1");
  requested_after = none;
}

replay_messages_once_example :
    All
      (λ d.
        (is_message_delivered d.message_id (codes "bob") stored.db ≡ false)
        × (is_message_delivered d.message_id
              (codes "bob")
              (replay_messages by_first (λ _. []) clock (codes "bob") none 0 hub).0.chat.db
            ≡ true))
      (replayed_hello ∷ [])
unfolding replay_messages persist_and_return_ack accept_incoming_message text_dec ℕ_discrete
replay_messages_once_example =
    replay_messages_once by_first (λ _. []) clock (codes "bob") none 0 hub answer refl

-- three messages to bob, read two at a time
abbrev note : Text → ℕ → Draft
note id at = record (draft_of (new_message at hello)) { message_id = id; client_message_id = none }

abbrev three : Db
three =
    insert_draft 7 (note (codes "m3") 6)
      (insert_draft 7 (note (codes "m2") 8) (insert_draft 7 (note (codes "m1") 5) no_messages))

read_pages-history_example :
    read_pages 3 (λ cursor. get_history_paginated by_first (codes "bob") 2 cursor three) none
    ≡ some (history by_first (codes "bob") three)
unfolding insert_draft distinct contains trim text_dec ℕ_discrete
read_pages-history_example =
    read_pages-history by_first (codes "bob") 2 3 three refl
      ((refl, refl), ((refl, refl), ((refl, refl), tt))) (omega arith) (omega arith)

-- a server that restarted, with the store of `stored`
abbrev restarted : Chat
restarted = record no_chat { db = stored.db }

retry_after_restart_example :
    ((handle_message_send 100 9 clock false again restarted).1 ≡ nack internal_error)
    × ((handle_message_send 100 9 clock false again restarted).0.db ≡ stored.db)
unfolding persist_and_return_ack accept_incoming_message text_dec ℕ_discrete get_message row_of_key
    nack_of
retry_after_restart_example =
    retry_after_restart 100 9 clock again hello_row restarted refl refl refl refl refl

abbrev removed : Db
removed = record (stored.db) {
  message_by_id =
      put text_dec (codes "m1")
        (record hello_row { draft = record (hello_row.draft) { state = deleted }; updated_at = 8 })
        stored.db.message_by_id;
}

deleted_still_given_example :
    (s : Row) × In s (get_undelivered_messages by_first (codes "bob") none 10 removed)
    × (get_message (codes "m1") removed ≡ some s)
    × (s.draft.state ≡ deleted)
    × (s.draft.content ≡ codes "hello")
unfolding persist_and_return_ack accept_incoming_message text_dec ℕ_discrete get_message
    soft_delete_message is_undelivered put get_undelivered_messages
deleted_still_given_example =
    deleted_still_given 8 by_first (codes "m1") (codes "bob") none 10 hello_row stored.db refl refl
      (inl refl) refl (omega arith)

-- a message goes out, its timer goes off, and the reader is marked by force
abbrev calls : List (ℕ × Call)
calls =
    (1, create (codes "m1") (codes "bob"))
    ∷ (2, move (codes "m1") (codes "bob") DeliveryState.sent)
    ∷ (3, fires (codes "m1") (codes "bob"))
    ∷ (4, force (codes "m1") (codes "bob"))
    ∷ []

abbrev read_record : Record
read_record = record {
  message_id = codes "m1";
  recipient_id = codes "bob";
  state = DeliveryState.read;
  persisted_at = 1;
  sent_at = some 2;
  delivered_at = some 4;
  read_at = some 4;
}

run_timed_example :
    (dated read_record ≡ true)
    × (not (contains text_dec (codes "m1:bob") (run calls no_deliveries).timers)
          || is_sent (read_record.state)
        ≡ true)
unfolding run text_dec ℕ_discrete
run_timed_example = run_timed calls (codes "m1:bob") read_record refl
