-- ===== src/Sends/Step.antt =====
-- What can happen to a socket and its queue, one event at a time.
use relay_chatapp.Base.{
  ℕ, ◌-◌, Bool, false, Option, none, some, List, [], ◌∷◌, ◌++◌, Text, if◌then◌else◌,
}
use relay_chatapp.Sockets.State.{Outgoing}
use relay_chatapp.Sends.Line.{
  settle, next, Line, World, idle, send_next, Reply, queued, unusable, queue_message,
}

-- The message of `sendMessage`: a text; an object, with the text that `JSON.stringify` makes of it
-- and its `messageId`; or neither.
pub data Content : Type 0 where
  text : Text → Content
  object : Text → Option Text → Content
  neither : Content

-- an empty text or id counts as none
abbrev pub present : Text → Option Text
present [] = none
present (c ∷ s) = some (c ∷ s)

-- `context.messageId || message.messageId || null`
abbrev pub message_id_of : Text → Option Text → Option Text
message_id_of [] none = none
message_id_of [] (some id) = present id
message_id_of (c ∷ s) _ = some (c ∷ s)

-- The message as it is queued, given the `messageId` of the context.
abbrev pub to_outgoing : Text → Content → Option Outgoing
to_outgoing ctx (text s) =
    some (record { payload = present s; message_id = message_id_of ctx none })
to_outgoing ctx (object s id) =
    some (record { payload = present s; message_id = message_id_of ctx id })
to_outgoing ctx neither = none

unfoldable pub send_message : World → (ℕ → ℕ) → Text → Content → Line → Line × Reply
unfolding queue_message
send_message world now ctx content line =
    if line.is_open
    then elim (to_outgoing ctx content) [
      | none ↦ (line, unusable)
      | some msg ↦ queue_message world now msg line
    ]
    else (line, unusable)

-- the answer to a send, in `processQueue`
abbrev pub settle_send : Bool → Line → Line
settle_send ok line =
    let l = record line { out = record line.out { pending_sends = line.out.pending_sends - 1 } } in
    if ok then record l { tasks = l.tasks ++ next ∷ [] } else idle l

unfoldable pub run_task : World → ℕ → Line → Line
unfolding send_next
run_task world now line = elim line.tasks [
  | [] ↦ line
  | task ∷ tasks ↦
      let l = record line { tasks = tasks } in
      elim task [ settle ok ↦ settle_send ok l | next ↦ send_next world now l ]
]

pub data Event : Type 0 where
  send : Text → Content → Event
  task : Event
  drain : ℕ → Event
  close : Event

unfoldable pub step : World → (ℕ → ℕ) → Event → Line → Line
unfolding send_message run_task
step world now (send ctx content) line = (send_message world now ctx content line).0
step world now task line = run_task world (now 0) line
step world now (drain amount) line = record line { buffered = amount }
step world now close line = record line { is_open = false }

unfoldable pub run : World → List ((ℕ → ℕ) × Event) → Line → Line
unfolding step
run world [] line = line
run world ((now, e) ∷ events) line = run world events (step world now e line)

-- the message, if the call reports it queued
abbrev pub of_reply : Option Outgoing → Reply → List Outgoing
of_reply (some msg) queued = msg ∷ []
of_reply _ _ = []

abbrev pub entered : World → (ℕ → ℕ) → Event → Line → List Outgoing
entered world now (send ctx content) line =
    of_reply (to_outgoing ctx content) (send_message world now ctx content line).1
entered world now _ line = []

unfoldable pub all_entered : World → List ((ℕ → ℕ) × Event) → Line → List Outgoing
unfolding step send_message
all_entered world [] line = []
all_entered world ((now, e) ∷ events) line =
    entered world now e line ++ all_entered world events (step world now e line)
