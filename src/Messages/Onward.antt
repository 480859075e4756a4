-- ===== src/Messages/Onward.antt =====
-- Receipts, replays and the state of a stored message (backend/services/message.service.js, replay.service.js and
-- backend/storage/message.store.js).
use relay_chatapp.Base.{
  ◌≡◌, refl, subst, ℕ, ◌≤◌, true, false, some, Text, inl, inr, Option-cases, arith,
}
use relay_chatapp.Messages.Life.{
  MessageState, sending, sent, delivered, read, deleted, failed, IsLive, stage, is_valid_transition,
  is_delivered_or_read,
}
use relay_chatapp.Messages.Rows.{
  Db, Row, set_state, get_message, update_message_state, mark_message_delivered,
}
use relay_chatapp.Messages.Service.{Chat}
use relay_chatapp.Messages.Receipts.{deliver, confirm_delivered, read_message, confirm_read}
use relay_chatapp.Messages.Replay.{mark_replayed}
use relay_chatapp.Messages.Outcomes.{
  confirm_delivered_outcome, confirm_read_outcome, db-persist_read_cursor,
}
use relay_chatapp.Messages.Forward.{Forward, refl-Forward, change-Forward, set_state-IsForward}

marked-Forward :
    (id user : Text) (c d : Db) → Forward c d → Forward c (mark_message_delivered id user d)
unfolding mark_message_delivered get_message
marked-Forward id user c d f = record { forward = λ q r s at live at'. f.forward q r s at live at' }

stage-valid : (from to : MessageState) → is_valid_transition from to ≡ true → stage from ≤ stage to
unfolding is_valid_transition
stage-valid sending to h = ground arith
stage-valid sent to h = ground arith
stage-valid delivered to h = ground arith
stage-valid read to h = ground arith
stage-valid deleted to h = ground arith
stage-valid failed to h = ground arith

-- the state that a row is given lies ahead
pub update-Forward :
    (now : ℕ) (id : Text) (state : MessageState) (row : Row) (c : Db) {d : Db}
    → get_message id c ≡ some row
    → stage row.draft.state ≤ stage state
    → update_message_state now id state c ≡ some d
    → Forward c d
unfolding update_message_state
update-Forward now id state row c at ahead h =
    change-Forward id (set_state now state) c h
      (λ r at' _. set_state-IsForward now state r (ground (arith, at, at', ahead)))

deliver-Forward :
    (now : ℕ → ℕ) (id user : Text) (row : Row) (c : Chat) {d : Chat}
    → get_message id c.db ≡ some row
    → is_valid_transition row.draft.state delivered ≡ true
    → deliver now id user row c ≡ some d
    → Forward c.db d.db
unfolding deliver
deliver-Forward now id user row c {d} at ok h =
    elim (Option-cases (update_message_state (now 0) id delivered c.db)) [
      | inl gone ↦ absurd (ground arith)
      | inr (db, e) ↦
          let after : mark_message_delivered id user db ≡ d.db = ground arith in
          subst (Forward c.db) after (
            marked-Forward id user c.db db
              (update-Forward (now 0) id delivered row c.db at (stage-valid _ delivered ok) e))
    ]

read_message-Forward :
    (now : ℕ → ℕ) (id user : Text) (row : Row) (c : Chat) {d : Chat}
    → get_message id c.db ≡ some row
    → is_valid_transition row.draft.state read ≡ true
    → read_message now id user row c ≡ some d
    → Forward c.db d.db
unfolding read_message
read_message-Forward now id user row c {d} at ok h =
    elim (Option-cases (update_message_state (now 0) id read c.db)) [
      | inl gone ↦ absurd (ground arith)
      | inr (db, e) ↦
          let after : mark_message_delivered id user db ≡ d.db = ground arith in
          subst (Forward c.db) after (
            marked-Forward id user c.db db
              (update-Forward (now 0) id read row c.db at (stage-valid _ read ok) e))
    ]

pub confirm_delivered-Forward :
    (now : ℕ → ℕ) (id user : Text) (c : Chat) → Forward c.db (confirm_delivered now id user c).0.db
confirm_delivered-Forward now id user c = elim (confirm_delivered_outcome now id user c) [
  | inl same ↦ rw same (refl-Forward c.db)
  | inr (m, e) ↦ rw e (deliver-Forward now id user m.row c m.found m.allowed m.done)
]

pub confirm_read-Forward :
    (now : ℕ → ℕ) (id user : Text) (c : Chat) → Forward c.db (confirm_read now id user c).0.db
confirm_read-Forward now id user c = elim (confirm_read_outcome now id user c) [
  | inl same ↦ rw same (refl-Forward c.db)
  | inr (inl (r, again)) ↦ rw (again, db-persist_read_cursor user r id c) (refl-Forward c.db)
  | inr (inr (m, e)) ↦
      rw (e, db-persist_read_cursor user m.row id m.after)
        (read_message-Forward now id user m.row c m.found m.allowed m.done)
]

-- a live row that goes out in a replay
pub replayed-Forward :
    (now : ℕ → ℕ) (id user : Text) (row : Row) (c : Chat) {d : Chat}
    → get_message id c.db ≡ some row
    → is_delivered_or_read row.draft.state ≡ false
    → mark_replayed now id user c ≡ some d
    → Forward c.db d.db
unfolding mark_replayed update_message_state is_delivered_or_read
replayed-Forward now id user row c {d} at waits h =
    elim (Option-cases (update_message_state (now 0) id delivered c.db)) [
      | inl gone ↦ absurd (ground arith)
      | inr (db, e) ↦
          let after : mark_message_delivered id user db ≡ d.db = ground arith in
          subst (Forward c.db) after (
            marked-Forward id user c.db db (
              change-Forward id (set_state (now 0) delivered) c.db e (λ r at' live.
                set_state-IsForward (now 0) delivered r
                  (early r.draft.state live (rw (← same at') waits)))))
    ]
  where
    same : {r : Row} → get_message id c.db ≡ some r → row.draft.state ≡ r.draft.state
    same e = ground (arith, at)

    early : (st : MessageState) → IsLive st → is_delivered_or_read st ≡ false → stage st ≤ 2
    early sending n k = omega arith
    early sent n k = omega arith
    early delivered n k = omega arith
    early read n k = absurd (cc k)
    early deleted n k = absurd (n.0 refl)
    early failed n k = absurd (n.1 refl)
