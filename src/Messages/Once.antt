-- ===== src/Messages/Once.antt =====
-- A replay gives a message once (replayMessages of backend/services/replay.service.js).
use relay_chatapp.Base.{
  ◌≡◌, refl, subst, ap, ◌∙◌, ℕ, Bool, true, false, Option, none, some, List, [], ◌∷◌, Text,
  text_dec, get, get-put, add, contains-add, inl, inr, All, Option-cases, Bool-cases, option_cases,
  if_cases, arith, if◌then◌else◌,
}
use relay_chatapp.Messages.Life.{delivered, missing}
use relay_chatapp.Messages.Rows.{
  Db, Row, get_message, set_state, update_message_state, mark_message_delivered,
  is_message_delivered, users_or_none,
}
use relay_chatapp.Messages.Stored.{tracking-change_row}
use relay_chatapp.Messages.Service.{Chat}
use relay_chatapp.Messages.Replay.{
  Hub, Replayed, ReplayResult, ReplayAnswer, replay_complete, may_replay, sync_missing,
  sync_delivered, tell_sender, count_replay, with_chat, mark_replayed, replay_row, replay_rows,
  reread, replay_after, replay_messages, cursor_of, limit_or_default,
}
use relay_chatapp.Messages.Queries.{get_undelivered_messages}

module _ (id user : Text) (db : Db) where
  marked : is_message_delivered id user (mark_message_delivered id user db) ≡ true
  unfolding is_message_delivered mark_message_delivered
  marked = ground (
    arith,
    get-put text_dec id id
        (add text_dec user (users_or_none (get text_dec id db.delivery_tracking)))
        db.delivery_tracking,
    contains-add text_dec user user (users_or_none (get text_dec id db.delivery_tracking)),
  )

  still_marked :
      (q : Text) (u : Text)
      → is_message_delivered q u db ≡ true
      → is_message_delivered q u (mark_message_delivered id user db) ≡ true
  unfolding is_message_delivered mark_message_delivered
  still_marked q u h = ground (
    arith,
    get-put text_dec id q (add text_dec user (users_or_none (get text_dec id db.delivery_tracking)))
        db.delivery_tracking,
    contains-add text_dec user u (users_or_none (get text_dec id db.delivery_tracking)),
  )

chat-sync_missing : (r : Row) (h : Hub) → (sync_missing r h).chat ≡ h.chat
unfolding sync_missing
chat-sync_missing r h = ground arith

chat-sync_delivered : (id : Text) (h : Hub) → (sync_delivered id h).chat ≡ h.chat
unfolding sync_delivered
chat-sync_delivered id h = ground arith

chat-tell_sender :
    (members : Text → List Text) (user : Text) (r : Row) (h : Hub)
    → (tell_sender members user r h).chat ≡ h.chat
unfolding tell_sender count_replay
chat-tell_sender members user r h = ground arith

abbrev IsMarked : Text → Text → Hub → Type 0
IsMarked id user h = is_message_delivered id user h.chat.db ≡ true

-- marks are kept, and a message that goes out has its own
record Marks (id user : Text) (h : Hub) (x : Hub × Bool) : Type 0 where
  kept : (q : Text) → IsMarked q user h → IsMarked q user x.0
  made : x.1 ≡ true → IsMarked id user x.0

mark_replayed-Marks :
    (now : ℕ → ℕ) (id user : Text) (c d : Chat)
    → mark_replayed now id user c ≡ some d
    → (db : Db) × (db.delivery_tracking ≡ c.db.delivery_tracking)
      × (d.db ≡ mark_message_delivered id user db)
unfolding mark_replayed update_message_state
mark_replayed-Marks now id user c d h =
    elim (Option-cases (update_message_state (now 0) id delivered c.db)) [
      | inl gone ↦ absurd (ground arith)
      | inr (db, e) ↦
          (db, tracking-change_row id (set_state (now 0) delivered) c.db e, ground arith)
    ]

delivered-by_tracking :
    (q user : Text) (a b : Db)
    → a.delivery_tracking ≡ b.delivery_tracking
    → is_message_delivered q user a ≡ is_message_delivered q user b
unfolding is_message_delivered
delivered-by_tracking q user a b e = rw e refl

replay_row-Marks :
    (members : Text → List Text) (now : ℕ → ℕ) (user : Text) (r : Row) (h : Hub)
    → Marks r.draft.message_id user h (replay_row members now user r h)
unfolding replay_row
replay_row-Marks members now user r h =
    option_cases (Marks r.draft.message_id user h)
      (mark_replayed now r.draft.message_id user (sync_missing r h).chat)
      (λ _. record { kept = λ q m. rw (chat-sync_missing r h) m; made = λ out. absurd (cc out) })
      (λ c e.
        let (db, same, after) =
          mark_replayed-Marks now r.draft.message_id user (sync_missing r h).chat c e in
        let shown =
          chat-tell_sender members user r
            (sync_delivered r.draft.message_id (with_chat c (sync_missing r h)))
          ∙ chat-sync_delivered r.draft.message_id (with_chat c (sync_missing r h)) in
        record {
          kept = λ q m.
              rw (shown, after)
                (still_marked r.draft.message_id user db q user (
                  delivered-by_tracking q user db h.chat.db
                    (same ∙ ap (λ (t : Chat). t.db.delivery_tracking) (chat-sync_missing r h))
                  ∙ m));
          made = λ _. rw (shown, after) (marked r.draft.message_id user db);
        })

-- the loop keeps the marks, and marks what it gives, which had no mark before
record Once (user : Text) (h : Hub) (x : Hub × List Replayed) : Type 0 where
  kept : (q : Text) → IsMarked q user h → IsMarked q user x.0
  once :
      All
        (λ d.
          (is_message_delivered d.message_id user h.chat.db ≡ false)
          × IsMarked d.message_id user x.0)
        x.1

All-map {ℓ κ μ} :
    {A : Type ℓ} {P : A → Type κ} {Q : A → Type μ} (xs : List A)
    → ((a : A) → P a → Q a)
    → All P xs
    → All Q xs
All-map [] f h = tt
All-map (x ∷ xs) f h = (f x h.0, All-map xs f h.1)

unmarked :
    (q user : Text) (h h' : Hub)
    → (IsMarked q user h → IsMarked q user h')
    → is_message_delivered q user h'.chat.db ≡ false
    → is_message_delivered q user h.chat.db ≡ false
unmarked q user h h' keep e = elim (Bool-cases (is_message_delivered q user h.chat.db)) [
  | inl t ↦ let t' = keep t in absurd (cc (t', e))
  | inr f ↦ f
]

may_replay-unmarked :
    (user : Text) (r : Row) (h : Hub)
    → may_replay user r h ≡ true
    → is_message_delivered r.draft.message_id user h.chat.db ≡ false
unfolding may_replay
may_replay-unmarked user r h ok = ground arith

-- one message, then the rest
Once-next :
    (r : Row) (user : Text) (h : Hub) (y : Hub × Bool) (z : Hub × List Replayed)
    → Marks r.draft.message_id user h y
    → is_message_delivered r.draft.message_id user h.chat.db ≡ false
    → Once user y.0 z
    → Once user h (z.0, if y.1 then record (r.draft) { state = delivered } ∷ z.1 else z.1)
Once-next r user h y z m new rest = record {
  kept = λ q k. rest.kept q (m.kept q k);
  once =
      if_cases (All Given) (y.1) (λ out. ((new, rest.kept r.draft.message_id (m.made out)), later))
        (λ _. later);
}
  where
    Given : Replayed → Type 0
    Given d =
        (is_message_delivered d.message_id user h.chat.db ≡ false) × IsMarked d.message_id user z.0

    later : All Given z.1
    later =
        All-map z.1 (λ d g. (unmarked d.message_id user h y.0 (m.kept d.message_id) g.0, g.1))
          rest.once

replay_rows-Once :
    (members : Text → List Text) (now : ℕ → ℕ) (user : Text) (rows : List Row) (h : Hub)
    → Once user h (replay_rows members now user rows h)
unfolding replay_rows
replay_rows-Once members now user [] h = record { kept = λ q m. m; once = tt }
replay_rows-Once members now user (r ∷ rows) h =
    if_cases
      (λ (y : Hub × Bool). Once user h (
        let (h'', rest) = replay_rows members now user rows y.0 in
        (h'', if y.1 then record (r.draft) { state = delivered } ∷ rest else rest)))
      (may_replay user r h)
      (λ ok.
        Once-next r user h (replay_row members now user r h)
          (replay_rows members now user rows (replay_row members now user r h).0)
          (replay_row-Marks members now user r h) (may_replay-unmarked user r h ok)
          (replay_rows-Once members now user rows (replay_row members now user r h).0))
      (λ _. replay_rows-Once members now user rows h)

replay_after-once :
    (first : Text → Text → Bool) (members : Text → List Text) (now : ℕ → ℕ) (user : Text)
    (after : Option Text) (limit : ℕ) (h : Hub) (res : ReplayResult)
    → (replay_after first members now user after limit h).1 ≡ replay_complete res
    → All
        (λ d.
          (is_message_delivered d.message_id user h.chat.db ≡ false)
          × IsMarked d.message_id user (replay_after first members now user after limit h).0)
        res.messages
unfolding replay_after
replay_after-once first members now user after limit h res e =
    let rows =
      reread h.chat.db
        (get_undelivered_messages first user after (limit_or_default limit) h.chat.db) in
    let given : (replay_rows members now user rows h).1 ≡ res.messages = ground arith in
    subst
      (All (λ d.
        (is_message_delivered d.message_id user h.chat.db ≡ false)
        × IsMarked d.message_id user (replay_rows members now user rows h).0))
      given (replay_rows-Once members now user rows h).once

abbrev GivenOnce : Text → Hub → Hub × ReplayAnswer → Type 0
GivenOnce user h x =
    (res : ReplayResult)
    → x.1 ≡ replay_complete res
    → All
        (λ d.
          (is_message_delivered d.message_id user h.chat.db ≡ false)
          × (is_message_delivered d.message_id user x.0.chat.db ≡ true))
        res.messages

-- A replay that gives messages: each of them had no delivery mark for the user in the store before
-- the call, and has one after it.
pub replay_messages_once :
    (first : Text → Text → Bool) (members : Text → List Text) (now : ℕ → ℕ) (user : Text)
    (last : Option Text) (limit : ℕ) (h : Hub) (res : ReplayResult)
    → (replay_messages first members now user last limit h).1 ≡ replay_complete res
    → All
        (λ d.
          (is_message_delivered d.message_id user h.chat.db ≡ false)
          × (is_message_delivered d.message_id user
                (replay_messages first members now user last limit h).0.chat.db
              ≡ true))
        res.messages
unfolding replay_messages
replay_messages_once first members now user last limit h =
    if_cases (GivenOnce user h) (missing user) (λ _ res e. absurd (cc e))
      (λ _.
        option_cases (GivenOnce user h) (cursor_of last)
          (λ _. replay_after-once first members now user none limit h)
          (λ id _.
            option_cases (GivenOnce user h) (get_message id h.chat.db) (λ _ res e. absurd (cc e))
              (λ _ _. replay_after-once first members now user (some id) limit h)))
