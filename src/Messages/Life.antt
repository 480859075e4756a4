-- ===== src/Messages/Life.antt =====
-- The states of a message: backend/models/message.state.js, with the tests on texts that the
-- services make and the chat ids of backend/utils/chatId.js.
use relay_chatapp.Base.{
  ◌≢◌, ℕ, Bool, true, false, ◌||◌, List, [], ◌∷◌, ◌++◌, Text, codes, trim, contains, ltb,
  if◌then◌else◌,
}

-- `deleted` is what softDeleteMessageSync of message.store.js writes, and `failed` what sendOrFail
-- of websocket/safety/backpressure.js does.
pub data MessageState : Type 0 where
  sending : MessageState
  sent : MessageState
  delivered : MessageState
  read : MessageState
  deleted : MessageState
  failed : MessageState

unfoldable pub state_dec : Discrete MessageState
state_dec = hlevel

-- `VALID_TRANSITIONS`
unfoldable pub valid_transitions : MessageState → List MessageState
valid_transitions sending = sent ∷ []
valid_transitions sent = delivered ∷ []
valid_transitions delivered = read ∷ []
valid_transitions read = []
valid_transitions deleted = []
valid_transitions failed = []

unfoldable pub is_valid_transition : MessageState → MessageState → Bool
unfolding valid_transitions contains state_dec
is_valid_transition current next = contains state_dec next (valid_transitions current)

unfoldable pub is_delivered_or_read : MessageState → Bool
is_delivered_or_read sending = false
is_delivered_or_read sent = false
is_delivered_or_read delivered = true
is_delivered_or_read read = true
is_delivered_or_read deleted = false
is_delivered_or_read failed = false

-- how far the message has come
abbrev pub stage : MessageState → ℕ
stage sending = 0
stage sent = 1
stage delivered = 2
stage read = 3
stage failed = 4
stage deleted = 5

-- a message that no call has ended: neither deleted nor marked FAILED
abbrev pub IsLive : MessageState → Type 0
IsLive st = (st ≢ deleted) × (st ≢ failed)

-- `!s`
abbrev pub missing : Text → Bool
missing [] = true
missing (c ∷ s) = false

-- no `isNonEmptyString(s)`
unfoldable pub is_blank : Text → Bool
unfolding trim
is_blank s = missing (trim s)

-- `a < b` on strings
unfoldable pub is_before : Text → Text → Bool
is_before s [] = false
is_before [] (d ∷ t) = true
is_before (c ∷ s) (d ∷ t) =
    let rest = is_before s t in if ltb c d then true else if ltb d c then false else rest

unfoldable pub to_direct_chat_id : Text → Text → Text
unfolding is_before
to_direct_chat_id u v =
    if missing u || missing v
    then []
    else if is_before v u
    then codes "direct:" ++ v ++ codes ":" ++ u
    else codes "direct:" ++ u ++ codes ":" ++ v

unfoldable pub to_room_chat_id : Text → Text
unfolding trim
to_room_chat_id id = if missing id then [] else codes "room:" ++ trim id
