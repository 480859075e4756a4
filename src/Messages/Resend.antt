-- ===== src/Messages/Resend.antt =====
-- A repeated send (the deduplication of acceptIncomingMessage in
-- backend/services/message.service.js).
use relay_chatapp.Base.{
  ◌≡◌, refl, ℕ, false, none, some, Text, text_dec, get, get-put, inl, inr, Option-cases,
  option_cases, arith,
}
use relay_chatapp.Messages.Life.{missing}
use relay_chatapp.Messages.Rows.{idempotency_key}
use relay_chatapp.Messages.Service.{
  Message, Chat, Sending, Intake, accepted, duplicate, new_message, store_new, refusal_of,
  known_message, accept_incoming_message,
}
use relay_chatapp.Messages.Step.{Step, accept, Reach}
use relay_chatapp.Messages.Known.{IsKnown}
use relay_chatapp.Messages.KnownOn.{step-IsKnown}
use relay_chatapp.Messages.Step.{IsUnused, next}
use relay_chatapp.Messages.Backed.{IsBacked}
use relay_chatapp.Messages.Reached.{reach-IsBacked}

-- any number of calls
pub data Later (c : Chat) : Chat → Type 0 where
  here : Later c c
  then : {d e : Chat} → Later c d → Step d e → Later c e

Later-IsKnown : (key id : Text) {c d : Chat} → Later c d → IsKnown key id c → IsKnown key id d
Later-IsKnown key id here k = k
Later-IsKnown key id (then l st) k = step-IsKnown key id st (Later-IsKnown key id l k)

later-Reach : {c d : Chat} → Reach c → Later c d → Reach d
later-Reach r here = r
later-Reach r (then l st) = next (later-Reach r l) st

new_message-IsKnown :
    (key : Text) (now : ℕ) (p : Sending) (c : Chat)
    → idempotency_key p.sender_id p.client_message_id ≡ some key
    → missing p.fresh_id ≡ false
    → IsKnown key p.fresh_id (store_new now p c)
unfolding store_new
new_message-IsKnown key now p c e solid = record {
  keyed = rw e (ground (arith, get-put text_dec key key p.fresh_id c.client_ids));
  kept = ground (arith, get-put text_dec p.fresh_id p.fresh_id (new_message now p) c.memory);
  solid = solid;
}

accepted_state :
    (max_length now : ℕ) (p : Sending) (m : Message) (c : Chat)
    → (accept_incoming_message max_length now p c).1 ≡ accepted m
    → (accept_incoming_message max_length now p c).0 ≡ store_new now p c
unfolding accept_incoming_message
accepted_state max_length now p m c =
    option_cases (λ (x : Chat × Intake). x.1 ≡ accepted m → x.0 ≡ store_new now p c)
      (refusal_of max_length p)
      (λ _.
        option_cases (λ (x : Chat × Intake). x.1 ≡ accepted m → x.0 ≡ store_new now p c)
          (known_message (idempotency_key p.sender_id p.client_message_id) c) (λ _ _. refl)
          (λ _ _ h. absurd (cc h)))
      (λ _ _ h. absurd (cc h))

known_message-named :
    (key id : Text) (c : Chat)
    → IsBacked c
    → IsKnown key id c
    → (m : Message) × (known_message (some key) c ≡ some m) × (m.message_id ≡ id)
unfolding known_message
known_message-named key id c b k = elim (Option-cases (get text_dec id c.memory)) [
  | inl gone ↦ absurd (ground (arith, k.kept))
  | inr (m, at) ↦ (m, ground (arith, k.keyed, k.solid), b.named id m at)
]

-- A client that repeats a send, with its id of the message: if the first send was accepted on a
-- server that started empty, and whatever was called since, the repeated one is a duplicate of the
-- same message, and changes nothing; no second message is made. The two sends may differ in all but
-- the sender's id and the client's id. The payload of the second passes the checks.
pub repeated_send :
    (max_length now later : ℕ) (p q : Sending) (key : Text) (first : Message) {c d : Chat}
    → Reach c
    → IsUnused p.fresh_id c
    → missing p.fresh_id ≡ false
    → idempotency_key p.sender_id p.client_message_id ≡ some key
    → idempotency_key q.sender_id q.client_message_id ≡ some key
    → (accept_incoming_message max_length now p c).1 ≡ accepted first
    → Later (accept_incoming_message max_length now p c).0 d
    → refusal_of max_length q ≡ none
    → (m : Message) × (accept_incoming_message max_length later q d ≡ (d, duplicate m))
      × (m.message_id ≡ p.fresh_id)
unfolding accept_incoming_message
repeated_send max_length now later p q key first {c} {d} r u solid e e' ok l valid =
    let taken = accepted_state max_length now p first c ok in
    let known =
      Later-IsKnown key p.fresh_id l (rw taken (new_message-IsKnown key now p c e solid)) in
    let b = reach-IsBacked (later-Reach (next r (accept max_length now p u)) l) in
    let (m, found, named) = known_message-named key p.fresh_id d b known in
    (m, rw (accept_incoming_message, valid, e', found) refl, named)
