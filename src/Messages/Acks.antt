-- ===== src/Messages/Acks.antt =====
-- What an acknowledgement promises (persistAndReturnAck of backend/services/message.service.js and
-- the answer of backend/websocket/handlers/sendMessage.js).
use relay_chatapp.Base.{
  ◌≡◌, ◌⊎◌, refl, sym, subst, ◌∙◌, ℕ, Bool, true, Option, none, some, Text, text_dec, get, get-put,
  inl, inr, Option-cases, option_cases, if_cases, arith,
}
use relay_chatapp.Messages.Life.{sent}
use relay_chatapp.Messages.Rows.{
  Db, set_state, idempotency_key, persist_message, update_message_state,
}
use relay_chatapp.Messages.Service.{
  Message, Chat, Sending, Intake, Refusal, refused, accepted, duplicate, Ack, first_ack,
  new_message, store_new, refusal_of, known_message, is_persisted, draft_of, mark_self,
  has_valid_shape, accept_incoming_message, persist_new, persist_and_return_ack,
}
use relay_chatapp.Messages.Handler.{Answer, acked, nack_of, persist_and_answer, handle_message_send}
use relay_chatapp.Messages.Stored.{has, has-change_row, has-of-change_row}
use relay_chatapp.Messages.Step.{IsUnused, Reach}
use relay_chatapp.Messages.Backed.{IsBacked, accept-IsBacked, has-mark_self}
use relay_chatapp.Messages.Reached.{reach-IsBacked}

known_message-held :
    (key : Option Text) (c : Chat) (m : Message)
    → IsBacked c
    → known_message key c ≡ some m
    → get text_dec m.message_id c.memory ≡ some m
unfolding known_message
known_message-held none c m b h = absurd (cc h)
known_message-held (some key) c m b h = elim (Option-cases (get text_dec key c.client_ids)) [
  | inl gone ↦ absurd (ground arith)
  | inr (id, e) ↦
      let at : get text_dec id c.memory ≡ some m = ground arith in
      subst (λ q. get text_dec q c.memory ≡ some m) (sym (b.named id m at)) at
]

pub new_message-held :
    (now : ℕ) (p : Sending) (c : Chat)
    → get text_dec p.fresh_id (store_new now p c).memory ≡ some (new_message now p)
unfolding store_new
new_message-held now p c =
    ground (arith, get-put text_dec p.fresh_id p.fresh_id (new_message now p) c.memory)

accept-held :
    (max_length now : ℕ) (p : Sending) (c : Chat) (m : Message)
    → IsBacked c
    → ((accept_incoming_message max_length now p c).1 ≡ accepted m)
      ⊎ ((accept_incoming_message max_length now p c).1 ≡ duplicate m)
    → get text_dec m.message_id (accept_incoming_message max_length now p c).0.memory ≡ some m
unfolding accept_incoming_message
accept-held max_length now p c m b h = elim (Option-cases (refusal_of max_length p)) [
  | inr (why, e) ↦ absurd (ground arith)
  | inl e ↦
      elim (Option-cases (known_message (idempotency_key p.sender_id p.client_message_id) c)) [
        | inl k ↦ ground (arith, new_message-held now p c)
        | inr (old, k) ↦
            ground
              (arith, known_message-held (idempotency_key p.sender_id p.client_message_id) c old b)
      ]
]

-- A new message was persisted: its row written, then updated.
pub record Persisted (now : ℕ → ℕ) (m : Message) (c : Chat) (x : Chat × Option Ack) : Type 0 where
  pub written : Db
  pub updated : Db
  pub write : persist_message (now 0) (draft_of m) c.db ≡ some written
  pub update : update_message_state (now 2) m.message_id sent written ≡ some updated
  pub kept : x.0.db ≡ mark_self m updated
  pub answer : x.1 ≡ some (first_ack m)

-- The call threw: before the store wrote anything, or after it.
pub record Failed (now : ℕ → ℕ) (m : Message) (c : Chat) (x : Chat × Option Ack) : Type 0 where
  pub threw : x.1 ≡ none
  pub left :
      (x.0.db ≡ c.db)
      ⊎ ((written : Db) × (persist_message (now 0) (draft_of m) c.db ≡ some written)
          × (x.0.db ≡ written))

abbrev NewOutcome : (ℕ → ℕ) → Message → Chat → Chat × Option Ack → Type 0
NewOutcome now m c x = Failed now m c x ⊎ Persisted now m c x

pub persist_new_outcome :
    (now : ℕ → ℕ) (m : Message) (c : Chat) → NewOutcome now m c (persist_new now m c)
unfolding persist_new
persist_new_outcome now m c =
    option_cases (NewOutcome now m c) (persist_message (now 0) (draft_of m) c.db)
      (λ _. inl (record { threw = refl; left = inl refl }))
      (λ db e.
        option_cases (NewOutcome now m c) (update_message_state (now 2) m.message_id sent db)
          (λ _. inl (record { threw = refl; left = inr (db, e, refl) }))
          (λ db' e'. inr (record {
            written = db;
            updated = db';
            write = e;
            update = e';
            kept = refl;
            answer = refl;
          })))

pub has-Persisted :
    (now : ℕ → ℕ) (m : Message) (c : Chat) (x : Chat × Option Ack)
    → Persisted now m c x
    → has m.message_id x.0.db ≡ true
unfolding update_message_state
has-Persisted now m c x p = rw p.kept (
    has-mark_self m m.message_id p.updated
    ∙ has-change_row m.message_id m.message_id (set_state (now 2) sent) p.written p.update
    ∙ has-of-change_row m.message_id (set_state (now 2) sent) p.written p.update)

-- An acknowledged message is the one that was given, and the store has it.
abbrev AckStored : Message → Chat × Option Ack → Type 0
AckStored m x =
    (a : Ack) → x.1 ≡ some a → (a.message_id ≡ m.message_id) × (has m.message_id x.0.db ≡ true)

pub persist_and_return_ack-AckStored :
    (now : ℕ → ℕ) (m : Message) (c : Chat)
    → get text_dec m.message_id c.memory ≡ some m
    → IsBacked c
    → AckStored m (persist_and_return_ack now m c)
unfolding persist_and_return_ack
persist_and_return_ack-AckStored now m c at b =
    if_cases (AckStored m) (has_valid_shape m)
      (λ _.
        option_cases (AckStored m) (get text_dec m.message_id c.memory) (λ gone. absurd (cc gone))
          (λ old e.
            if_cases (AckStored m) (is_persisted old.state)
              (λ done a h. (ground arith, ground (arith, b.backed m.message_id old)))
              (λ _ a h. elim (persist_new_outcome now m c) [
                | inl failed ↦ absurd (cc failed.threw)
                | inr p ↦ (ground (arith, p.answer), has-Persisted now m c _ p)
              ])))
      (λ _ a h. absurd (cc h))

pub intake_cases {ℓ κ} :
    {A : Type ℓ} (P : A → Type κ) (i : Intake) {f : Refusal → A} {g h : Message → A}
    → ((why : Refusal) → i ≡ refused why → P (f why))
    → ((m : Message) → i ≡ duplicate m → P (g m))
    → ((m : Message) → i ≡ accepted m → P (h m))
    → P (elim i [ refused why ↦ f why | duplicate m ↦ g m | accepted m ↦ h m ])
intake_cases P (refused why) f g h = f why refl
intake_cases P (duplicate m) f g h = g m refl
intake_cases P (accepted m) f g h = h m refl

-- what the client is told is stored
abbrev SendStored : Chat × Answer → Type 0
SendStored x = (a : Ack) → x.1 ≡ acked a → has a.message_id x.0.db ≡ true

persist_and_answer-SendStored :
    (later : ℕ → ℕ) (m : Message) (c : Chat)
    → get text_dec m.message_id c.memory ≡ some m
    → IsBacked c
    → SendStored (persist_and_answer later m c)
unfolding persist_and_answer
persist_and_answer-SendStored later m c at b a h =
    let stored = persist_and_return_ack-AckStored later m c at b a (ground arith) in
    rw stored.0 stored.1

-- A MESSAGE_SEND that is answered by MESSAGE_ACK, for a new message or for a repeated one and
-- whatever was called before on a server that started empty, has a row in the store under the id
-- that the acknowledgement names. The id that the server draws is new to it.
pub handle_message_send-stored :
    (max_length now : ℕ) (later : ℕ → ℕ) (in_room : Bool) (p : Sending) (a : Ack) {c : Chat}
    → Reach c
    → IsUnused p.fresh_id c
    → (handle_message_send max_length now later in_room p c).1 ≡ acked a
    → has a.message_id (handle_message_send max_length now later in_room p c).0.db ≡ true
unfolding handle_message_send
handle_message_send-stored max_length now later in_room p a {c} r u =
    let b = reach-IsBacked r in
    let b' = accept-IsBacked max_length now p c u b in
    let held = accept-held max_length now p c in
    option_cases SendStored (nack_of max_length in_room p)
      (λ _.
        intake_cases SendStored (accept_incoming_message max_length now p c).1
          (λ _ _ _ h. absurd (cc h))
          (λ m e. persist_and_answer-SendStored later m _ (held m b (inr e)) b')
          (λ m e. persist_and_answer-SendStored later m _ (held m b (inl e)) b'))
      (λ code _ _ h. absurd (cc h)) a
