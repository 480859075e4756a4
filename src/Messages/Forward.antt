-- ===== src/Messages/Forward.antt =====
-- A stored message only moves forward (VALID_TRANSITIONS of backend/models/message.state.js, and the
-- calls that write states).
use relay_chatapp.Base.{
  ◌≡◌, refl, subst, ℕ, ◌≤◌, some, List, [], ◌∷◌, Text, text_dec, get-drop_key, inl, inr, arith,
}
use relay_chatapp.Messages.Life.{MessageState, IsLive, stage}
use relay_chatapp.Messages.Rows.{
  Db, Draft, Row, set_state, get_message, change_row, persist_message, delete_message,
  delete_messages,
}
use relay_chatapp.Messages.Stored.{get-change_row, get-insert_draft, persist_message_cases}

-- `r` becomes `s`: the state is no earlier, and the message is between the same users and of the
-- same time.
pub record IsForward (r s : Row) : Type 0 where
  pub state : stage r.draft.state ≤ stage s.draft.state
  pub sender : s.draft.sender_id ≡ r.draft.sender_id
  pub recipient : s.draft.recipient_id ≡ r.draft.recipient_id
  pub time : s.draft.timestamp ≡ r.draft.timestamp

-- all live messages go forward, unless they are taken back
pub record Forward (c d : Db) : Type 0 where
  pub forward :
      (id : Text) (r s : Row)
      → get_message id c ≡ some r
      → IsLive r.draft.state
      → get_message id d ≡ some s
      → IsForward r s

pub stays : (r s : Row) → r ≡ s → IsForward r s
stays r s e =
    rw (← e) (record { state = omega arith; sender = refl; recipient = refl; time = refl })

pub same-Forward : (c d : Db) → ((id : Text) → get_message id d ≡ get_message id c) → Forward c d
same-Forward c d same = record { forward = λ id r s at _ at'. stays r s (cc (at, at', same id)) }

pub refl-Forward : (c : Db) → Forward c c
refl-Forward c = same-Forward c c (λ _. refl)

-- one row changes, forward
pub change-Forward :
    (id : Text) (f : Row → Row) (c : Db) {d : Db}
    → change_row id f c ≡ some d
    → ((r : Row) → get_message id c ≡ some r → IsLive r.draft.state → IsForward r (f r))
    → Forward c d
change-Forward id f c {d} h ok = record {
  forward = λ q r s at live at'. elim (text_dec q id) [
    | yes e ↦
        let becomes : f r ≡ s = ground (arith, get-change_row id q f c h) in
        subst (IsForward r) becomes (ok r (rw (← e) at) live)
    | no n ↦ stays r s (ground (arith, get-change_row id q f c h))
  ];
}

pub set_state-IsForward :
    (now : ℕ) (state : MessageState) (r : Row)
    → stage r.draft.state ≤ stage state
    → IsForward r (set_state now state r)
set_state-IsForward now state r h = record {
  state = h;
  sender = refl;
  recipient = refl;
  time = refl;
}

pub persist_message-Forward :
    (now : ℕ) (d : Draft) (c : Db) {db : Db} → persist_message now d c ≡ some db → Forward c db
persist_message-Forward now d c h = elim (persist_message_cases now d c h) [
  | inl e ↦ rw e (refl-Forward c)
  | inr (new, e) ↦ record {
    forward = λ q r s at _ at'. stays r s (ground (arith, e, new, get-insert_draft now d q c));
  }
]

kept-delete_messages :
    (q : Text) (s : Row) (ids : List Text) (c : Db)
    → get_message q (delete_messages ids c) ≡ some s
    → get_message q c ≡ some s
unfolding delete_messages delete_message get_message
kept-delete_messages q s [] c h = h
kept-delete_messages q s (id ∷ ids) c h = ground (
  arith,
  kept-delete_messages q s ids (delete_message id c) h,
  get-drop_key text_dec id q c.message_by_id,
)

pub delete-Forward : (ids : List Text) (c : Db) → Forward c (delete_messages ids c)
delete-Forward ids c = record {
  forward = λ q r s at _ at'. stays r s (cc (at, kept-delete_messages q s ids c at'));
}
