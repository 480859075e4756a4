-- ===== src/Messages/Lifecycle.antt =====
-- The life of a stored message over any calls (backend/services/message.service.js,
-- replay.service.js and backend/storage/message.store.js), with the FAILED mark of
-- websocket/safety/backpressure.js.
use relay_chatapp.Base.{
  ◌≡◌, refl, sym, subst, ◌∙◌, ℕ, ◌≤◌, false, Option, some, Text, text_dec, get, inl, inr,
  Option-cases, option_cases, if_cases, arith, Text,
}
use relay_chatapp.Messages.Life.{
  MessageState, sending, sent, delivered, read, deleted, failed, IsLive, stage,
}
use relay_chatapp.Messages.Rows.{
  Db, set_state, set_content, get_message, persist_message, update_message_state,
  mark_message_delivered, edit_message_content, soft_delete_message, Row,
}
use relay_chatapp.Messages.Service.{
  Message, Chat, Sending, Ack, draft_of, mark_self, is_persisted, has_valid_shape, store_new,
  accept_incoming_message, persist_new, persist_and_return_ack,
}
use relay_chatapp.Messages.Receipts.{
  persist_room_message_for_recipient, persist_room_message_canonical, rollback_persisted_messages,
  room_draft,
}
use relay_chatapp.Messages.Stored.{has, get-change_row}
use relay_chatapp.Messages.Step.{
  Step, accept, persist, delivered_by, read_by, replayed, room_row, room_history, rollback, fails,
  edit, remove, Reach, IsTimely,
}
use relay_chatapp.Messages.Backed.{IsBacked}
use relay_chatapp.Messages.Acks.{Persisted, persist_new_outcome}
use relay_chatapp.Messages.Reached.{reach-IsBacked}
use relay_chatapp.Messages.Forward.{
  Forward, refl-Forward, change-Forward, set_state-IsForward, persist_message-Forward,
  delete-Forward, IsForward,
}
use relay_chatapp.Messages.Onward.{
  confirm_delivered-Forward, confirm_read-Forward, replayed-Forward,
}

get-mark_self :
    (m : Message) (q : Text) (db : Db) → get_message q (mark_self m db) ≡ get_message q db
unfolding mark_message_delivered get_message
get-mark_self m q db =
    elim (text_dec m.recipient_id m.sender_id)
      as (λ x.
        get_message q
          (elim x [ yes _ ↦ mark_message_delivered m.message_id m.sender_id db | no _ ↦ db ])
        ≡ get_message q db) [ yes _ ↦ refl | no _ ↦ refl ]

-- The store had no row of a message that is persisted for the first time.
Persisted-Forward :
    (now : ℕ → ℕ) (m : Message) (c : Chat) (x : Chat × Option Ack)
    → has m.message_id c.db ≡ false
    → Persisted now m c x
    → Forward c.db x.0.db
unfolding update_message_state
Persisted-Forward now m c x new p = rw p.kept (record {
  forward = λ q r s at live at'.
      let written = (persist_message-Forward (now 0) (draft_of m) c.db p.write).forward q r in
      let at'' : get_message q p.updated ≡ some s = rw (← get-mark_self m q p.updated) at' in
      written s at live (
        ground
          (arith, at'', get-change_row m.message_id q (set_state (now 2) sent) p.written p.update));
})

persist_new-Forward :
    (now : ℕ → ℕ) (m : Message) (c : Chat)
    → has m.message_id c.db ≡ false
    → Forward c.db (persist_new now m c).0.db
persist_new-Forward now m c new = elim (persist_new_outcome now m c) [
  | inr p ↦ Persisted-Forward now m c _ new p
  | inl lost ↦ elim (lost.left) [
    | inl same ↦ rw same (refl-Forward c.db)
    | inr (db, e, kept) ↦ rw kept (persist_message-Forward (now 0) (draft_of m) c.db e)
  ]
]

persist-Forward :
    (now : ℕ → ℕ) (m stored : Message) (c : Chat)
    → get text_dec m.message_id c.memory ≡ some stored
    → IsBacked c
    → Forward c.db (persist_and_return_ack now m c).0.db
unfolding persist_and_return_ack
persist-Forward now m stored c at b =
    if_cases (λ (x : Chat × Option Ack). Forward c.db x.0.db) (has_valid_shape m)
      (λ _.
        option_cases (λ (x : Chat × Option Ack). Forward c.db x.0.db)
          (get text_dec m.message_id c.memory) (λ gone. absurd (cc gone))
          (λ old e.
            if_cases (λ (x : Chat × Option Ack). Forward c.db x.0.db) (is_persisted old.state)
              (λ _. refl-Forward c.db)
              (λ new. persist_new-Forward now m c (sym (b.backed m.message_id old e) ∙ new))))
      (λ _. refl-Forward c.db)

db-accept :
    (max_length now : ℕ) (p : Sending) (c : Chat)
    → (accept_incoming_message max_length now p c).0.db ≡ c.db
unfolding accept_incoming_message store_new
db-accept max_length now p c = ground arith

latest : (st : MessageState) → stage st ≤ stage deleted
latest sending = omega arith
latest sent = omega arith
latest delivered = omega arith
latest read = omega arith
latest deleted = omega arith
latest failed = omega arith

ended : (st : MessageState) → IsLive st → stage st ≤ stage failed
ended sending live = omega arith
ended sent live = omega arith
ended delivered live = omega arith
ended read live = omega arith
ended deleted live = absurd (live.0 refl)
ended failed live = omega arith

step-Forward : {c d : Chat} → Reach c → (st : Step c d) → IsTimely st → Forward c.db d.db
unfolding persist_room_message_for_recipient persist_room_message_canonical edit_message_content
    soft_delete_message rollback_persisted_messages update_message_state IsTimely
step-Forward {c} r (accept max_length now p u) timely =
    rw (db-accept max_length now p c) (refl-Forward c.db)
step-Forward {c} r (persist now m stored at) timely =
    persist-Forward now m stored c at (reach-IsBacked r)
step-Forward {c} r (delivered_by now id user) timely = confirm_delivered-Forward now id user c
step-Forward {c} r (read_by now id user) timely = confirm_read-Forward now id user c
step-Forward {c} r (replayed now id user row at h) waits =
    replayed-Forward now id user row c at waits h
step-Forward {c} {d} r (room_row now w foreign h) timely =
    elim (Option-cases (persist_message (now 0) (room_draft w.message_id w.recipient_id w) c.db)) [
      | inl gone ↦ absurd (ground arith)
      | inr (db, e) ↦
          let after : db ≡ d.db = ground arith in
          subst (Forward c.db) after
            (persist_message-Forward (now 0) (room_draft w.message_id w.recipient_id w) c.db e)
    ]
step-Forward {c} {d} r (room_history now w foreign h) timely =
    elim (Option-cases (persist_message (now 0) (room_draft w.room_message_id w.room_id w) c.db)) [
      | inl gone ↦ absurd (ground arith)
      | inr (db, e) ↦
          let after : db ≡ d.db = ground arith in
          subst (Forward c.db) after
            (persist_message-Forward (now 0) (room_draft w.room_message_id w.room_id w) c.db e)
    ]
step-Forward {c} r (rollback ids foreign) timely = delete-Forward ids c.db
step-Forward {c} r (edit now id content h) timely =
    change-Forward id (set_content now content) c.db h
      (λ row _ _. record { state = omega arith; sender = refl; recipient = refl; time = refl })
step-Forward {c} r (fails now id h) timely =
    change-Forward id (set_state now failed) c.db h
      (λ row _ live. set_state-IsForward now failed row (ended row.draft.state live))
step-Forward {c} r (remove now id h) timely =
    change-Forward id (set_state now deleted) c.db h
      (λ row _ _. set_state-IsForward now deleted row (latest row.draft.state))

-- Any call of these files and any FAILED mark of backpressure.js, after any of them on a server that
-- started empty: a row that is neither deleted nor FAILED, and is still there after the call, has a
-- state no earlier than before, with the same sender, recipient and time; `deleted` and FAILED count
-- as the latest states. When the call is a replay that marks a row, the row is not delivered or read
-- yet.
pub step-IsForward :
    (id : Text) (r s : Row) {c d : Chat}
    → Reach c
    → (st : Step c d) → IsTimely st
    → get_message id c.db ≡ some r
    → IsLive r.draft.state
    → get_message id d.db ≡ some s
    → IsForward r s
step-IsForward id r s reached st timely = (step-Forward reached st timely).forward id r s
