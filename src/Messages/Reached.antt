-- ===== src/Messages/Reached.antt =====
-- Memory and store of the messages agree whatever is called (backend/services/message.service.js).
use relay_chatapp.Messages.Stored.{has}
use relay_chatapp.Base.{text_dec, get, inl, inr, Option-cases, arith, Text, ◌≡◌, some}
use relay_chatapp.Messages.Life.{deleted, failed}
use relay_chatapp.Messages.Rows.{
  set_state, set_content, persist_message, update_message_state, edit_message_content,
  soft_delete_message,
}
use relay_chatapp.Messages.Service.{Chat, Message, is_persisted}
use relay_chatapp.Messages.Receipts.{
  room_draft, persist_room_message_for_recipient, persist_room_message_canonical,
}
use relay_chatapp.Messages.Step.{
  Step, accept, persist, delivered_by, read_by, replayed, room_row, room_history, rollback, fails,
  edit, remove, Reach, start, next,
}
use relay_chatapp.Messages.Backed.{IsBacked, accept-IsBacked}
use relay_chatapp.Messages.Moves.{
  persist-IsBacked, confirm_delivered-IsBacked, confirm_read-IsBacked, replayed-IsBacked,
  foreign-IsBacked, rollback-IsBacked, change-IsBacked,
}

pub step-IsBacked : {c d : Chat} → Step c d → IsBacked c → IsBacked d
unfolding persist_room_message_for_recipient persist_room_message_canonical edit_message_content
    soft_delete_message update_message_state
step-IsBacked {c} (accept max_length now p u) b = accept-IsBacked max_length now p c u b
step-IsBacked {c} (persist now m stored at) b = persist-IsBacked now m stored c at b
step-IsBacked {c} (delivered_by now id user) b = confirm_delivered-IsBacked now id user c b
step-IsBacked {c} (read_by now id user) b = confirm_read-IsBacked now id user c b
step-IsBacked {c} (replayed now id user row at h) b = replayed-IsBacked now id user c h b
step-IsBacked {c} {d} (room_row now w foreign h) b =
    elim (Option-cases (persist_message (now 0) (room_draft w.message_id w.recipient_id w) c.db)) [
      | inl gone ↦ absurd (ground arith)
      | inr (db, e) ↦
          foreign-IsBacked (now 0) (room_draft w.message_id w.recipient_id w) c d foreign e
            (ground arith) (ground arith) b
    ]
step-IsBacked {c} {d} (room_history now w foreign h) b =
    elim (Option-cases (persist_message (now 0) (room_draft w.room_message_id w.room_id w) c.db)) [
      | inl gone ↦ absurd (ground arith)
      | inr (db, e) ↦
          foreign-IsBacked (now 0) (room_draft w.room_message_id w.room_id w) c d foreign e
            (ground arith) (ground arith) b
    ]
step-IsBacked {c} (rollback ids foreign) b = rollback-IsBacked ids c foreign b
step-IsBacked {c} (edit now id content h) b = change-IsBacked id (set_content now content) c h b
step-IsBacked {c} (fails now id h) b = change-IsBacked id (set_state now failed) c h b
step-IsBacked {c} (remove now id h) b = change-IsBacked id (set_state now deleted) c h b

pub reach-IsBacked : {c : Chat} → Reach c → IsBacked c
unfolding get text_dec
reach-IsBacked start = record {
  backed = λ id m h. absurd (ground arith);
  named = λ id m h. absurd (ground arith);
}
reach-IsBacked (next r st) = step-IsBacked st (reach-IsBacked r)

-- After any calls on a server that started empty, a message in memory counts as sent exactly if the
-- store has a row under its id, and lies under that id.
pub memory_matches_store :
    (id : Text) (m : Message) {c : Chat}
    → Reach c
    → get text_dec id c.memory ≡ some m
    → (is_persisted m.state ≡ has id c.db) × (m.message_id ≡ id)
memory_matches_store id m r at = let b = reach-IsBacked r in (b.backed id m at, b.named id m at)
