-- ===== src/Messages/Known.antt =====
-- A message that a client's id names (the deduplication of acceptIncomingMessage in
-- backend/services/message.service.js).
use relay_chatapp.Base.{
  ◌≡◌, ◌∙◌, ℕ, true, false, none, some, Text, text_dec, get, get-put, inl, inr, Option-cases,
  option_cases, arith,
}
use relay_chatapp.Messages.Life.{missing}
use relay_chatapp.Messages.Rows.{idempotency_key}
use relay_chatapp.Messages.Service.{
  Chat, Sending, Intake, new_message, store_new, refusal_of, known_message, accept_incoming_message,
}
use relay_chatapp.Messages.Stored.{is_some}

-- The client's id `key` names the message `id`, which is in memory.
pub record IsKnown (key id : Text) (c : Chat) : Type 0 where
  pub keyed : get text_dec key c.client_ids ≡ some id
  pub kept : is_some (get text_dec id c.memory) ≡ true
  pub solid : missing id ≡ false

pub kept-IsKnown :
    (key id : Text) (c d : Chat)
    → d.client_ids ≡ c.client_ids
    → is_some (get text_dec id d.memory) ≡ is_some (get text_dec id c.memory)
    → IsKnown key id c
    → IsKnown key id d
kept-IsKnown key id c d e f k = record { keyed = rw e k.keyed; kept = f ∙ k.kept; solid = k.solid }

pub known_message-IsKnown :
    (key id : Text) (c : Chat) → IsKnown key id c → is_some (known_message (some key) c) ≡ true
unfolding known_message
known_message-IsKnown key id c k = ground (arith, k.keyed, k.solid, k.kept)

store_new-IsKnown :
    (key id : Text) (now : ℕ) (p : Sending) (c : Chat)
    → known_message (idempotency_key p.sender_id p.client_message_id) c ≡ none
    → IsKnown key id c
    → IsKnown key id (store_new now p c)
unfolding store_new
store_new-IsKnown key id now p c new k = record {
  keyed = elim (Option-cases (idempotency_key p.sender_id p.client_message_id)) [
    | inl e ↦ rw e k.keyed
    | inr (key', e) ↦
        let known = known_message-IsKnown key id c k in
        rw e (ground (arith, get-put text_dec key' key p.fresh_id c.client_ids, new, e, k.keyed))
  ];
  kept = ground (arith, get-put text_dec p.fresh_id id (new_message now p) c.memory, k.kept);
  solid = k.solid;
}

pub accept-IsKnown :
    (key id : Text) (max_length now : ℕ) (p : Sending) (c : Chat)
    → IsKnown key id c
    → IsKnown key id (accept_incoming_message max_length now p c).0
unfolding accept_incoming_message
accept-IsKnown key id max_length now p c k =
    option_cases (λ (x : Chat × Intake). IsKnown key id x.0) (refusal_of max_length p)
      (λ _.
        option_cases (λ (x : Chat × Intake). IsKnown key id x.0)
          (known_message (idempotency_key p.sender_id p.client_message_id) c)
          (λ new. store_new-IsKnown key id now p c new k) (λ _ _. k))
      (λ _ _. k)
