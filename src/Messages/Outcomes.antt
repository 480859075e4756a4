-- ===== src/Messages/Outcomes.antt =====
-- What a receipt may do (confirmDeliveredAndReturnAck and confirmReadAndReturnAck of
-- backend/services/message.service.js).
use relay_chatapp.Base.{
  ◌≡◌, ◌⊎◌, refl, ℕ, true, false, ◌||◌, Option, some, Text, text_dec, inl, inr, arith, option_cases,
  if_cases, dec_cases,
}
use relay_chatapp.Messages.Life.{
  MessageState, delivered, read, is_valid_transition, is_delivered_or_read, missing,
}
use relay_chatapp.Messages.Rows.{Row, get_message}
use relay_chatapp.Messages.Service.{Chat}
use relay_chatapp.Messages.Receipts.{
  Confirmation, receipt, is_room_row, is_read, deliver, confirm_delivered, read_message,
  confirm_read, persist_read_cursor,
}

-- The call answers `answer` with the chat `after`: it found the row, it is that of the user, the
-- step is allowed, and `d` is the chat with the step made.
pub record Move (id user : Text) (to : MessageState) (step : Row → Chat → Option Chat) (c : Chat)
    : Type 0 where
  pub row : Row
  pub after : Chat
  pub found : get_message id c.db ≡ some row
  pub own : row.draft.recipient_id ≡ user
  pub allowed : is_valid_transition row.draft.state to ≡ true
  pub done : step row c ≡ some after

abbrev DeliveredOutcome : (ℕ → ℕ) → Text → Text → Chat → Chat × Option Confirmation → Type 0
DeliveredOutcome now id user c x =
    (x.0 ≡ c)
    ⊎ ((m : Move id user delivered (deliver now id user) c) × (x
          ≡ (m.after, some (receipt m.row delivered delivered false (now 2)))))

pub confirm_delivered_outcome :
    (now : ℕ → ℕ) (id user : Text) (c : Chat)
    → DeliveredOutcome now id user c (confirm_delivered now id user c)
unfolding confirm_delivered
confirm_delivered_outcome now id user c =
    if_cases (DeliveredOutcome now id user c) (missing id || missing user) (λ _. inl refl)
      (λ _.
        option_cases (DeliveredOutcome now id user c) (get_message id c.db) (λ _. inl refl)
          (λ r found.
            dec_cases (DeliveredOutcome now id user c) (text_dec r.draft.recipient_id user)
              (λ own.
                if_cases (DeliveredOutcome now id user c) (is_delivered_or_read r.draft.state)
                  (λ _. inl refl)
                  (λ _.
                    if_cases (DeliveredOutcome now id user c)
                      (is_valid_transition r.draft.state delivered)
                      (λ allowed.
                        option_cases (DeliveredOutcome now id user c) (deliver now id user r c)
                          (λ _. inl refl)
                          (λ d done. inr (
                            record {
                              row = r;
                              after = d;
                              found = found;
                              own = own;
                              allowed = allowed;
                              done = done;
                            },
                            refl,
                          )))
                      (λ _. inl refl)))
              (λ _. inl refl)))

abbrev ReadOutcome : (ℕ → ℕ) → Text → Text → Chat → Chat × Option Confirmation → Type 0
ReadOutcome now id user c x =
    (x.0 ≡ c)
    ⊎ ((r : Row) × (x.0 ≡ persist_read_cursor user r id c))
    ⊎ ((m : Move id user read (read_message now id user) c) × (x ≡ (
      persist_read_cursor user m.row id m.after,
      some (receipt m.row read read false (now 3)),
    )))

pub confirm_read_outcome :
    (now : ℕ → ℕ) (id user : Text) (c : Chat)
    → ReadOutcome now id user c (confirm_read now id user c)
unfolding confirm_read
confirm_read_outcome now id user c =
    if_cases (ReadOutcome now id user c) (missing id || missing user) (λ _. inl refl)
      (λ _.
        option_cases (ReadOutcome now id user c) (get_message id c.db) (λ _. inl refl)
          (λ r found.
            if_cases (ReadOutcome now id user c) (is_room_row r) (λ _. inl refl)
              (λ _.
                dec_cases (ReadOutcome now id user c) (text_dec r.draft.recipient_id user)
                  (λ own.
                    if_cases (ReadOutcome now id user c) (is_read r.draft.state)
                      (λ _. inr (inl (r, refl)))
                      (λ _.
                        if_cases (ReadOutcome now id user c)
                          (is_valid_transition r.draft.state read)
                          (λ allowed.
                            option_cases (ReadOutcome now id user c) (read_message now id user r c)
                              (λ _. inl refl)
                              (λ d done. inr (
                                inr (
                                  record {
                                    row = r;
                                    after = d;
                                    found = found;
                                    own = own;
                                    allowed = allowed;
                                    done = done;
                                  },
                                  refl,
                                ))))
                          (λ _. inl refl)))
                  (λ _. inl refl))))

pub memory-persist_read_cursor :
    (user : Text) (r : Row) (id : Text) (c : Chat)
    → (persist_read_cursor user r id c).memory ≡ c.memory
unfolding persist_read_cursor
memory-persist_read_cursor user r id c = ground arith

pub db-persist_read_cursor :
    (user : Text) (r : Row) (id : Text) (c : Chat) → (persist_read_cursor user r id c).db ≡ c.db
unfolding persist_read_cursor
db-persist_read_cursor user r id c = ground arith
