-- ===== src/Messages/Handler.antt =====
-- The answer to MESSAGE_SEND: backend/websocket/handlers/sendMessage.js, up to the acknowledgement.
-- What goes out after it, to the sockets of the two users, is left out. `accept` and `persist` of
-- message.service.js are the calls of Messages.Service.
use relay_chatapp.Base.{ℕ, Bool, ◌||◌, Option, none, some, length, ltb, if◌then◌else◌}
use relay_chatapp.Messages.Life.{is_blank, missing}
use relay_chatapp.Messages.Service.{
  Message, Chat, refused, duplicate, accepted, Sending, Ack, accept_incoming_message,
  persist_and_return_ack,
}

-- `NACK_CODE_MAP`
pub data NackCode : Type 0 where
  unauthorized : NackCode
  validation_error : NackCode
  internal_error : NackCode

pub data Answer : Type 0 where
  nack : NackCode → Answer
  acked : Ack → Answer

-- the checks of the handler itself; `in_room` tells whether the payload names a room
unfoldable pub nack_of : ℕ → Bool → Sending → Option NackCode
unfolding is_blank
nack_of max_length in_room p =
    if missing p.sender_id
    then some unauthorized
    else if in_room || missing p.receiver_id || is_blank p.content
    then some validation_error
    else if ltb max_length (length p.content)
    then some validation_error
    else none

abbrev pub answer_of : Option Ack → Answer
answer_of none = nack internal_error
answer_of (some a) = acked a

unfoldable pub persist_and_answer : (ℕ → ℕ) → Message → Chat → Chat × Answer
unfolding persist_and_return_ack
persist_and_answer now m c = let (c', ack) = persist_and_return_ack now m c in (c', answer_of ack)

-- `later` is the clock of the calls after the message was accepted
unfoldable pub handle_message_send : ℕ → ℕ → (ℕ → ℕ) → Bool → Sending → Chat → Chat × Answer
unfolding nack_of accept_incoming_message persist_and_answer
handle_message_send max_length now later in_room p c = elim (nack_of max_length in_room p) [
  | some code ↦ (c, nack code)
  | none ↦
      let (c', intake) = accept_incoming_message max_length now p c in
      elim intake [
        | refused _ ↦ (c', nack validation_error)
        | duplicate m ↦ persist_and_answer later m c'
        | accepted m ↦ persist_and_answer later m c'
      ]
]
