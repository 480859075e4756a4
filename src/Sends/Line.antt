-- ===== src/Sends/Line.antt =====
-- The queue of one socket in backpressure.js: checkBackpressure, queueMessage, processQueue,
-- sendMessage, canSend and sendOrFail. A socket without a state gets a fresh one at its first call,
-- so a line starts with one.
use relay_chatapp.Base.{
  ℕ, ◌+◌, ◌*◌, Bool, true, false, not, ◌&&◌, ◌||◌, none, some, List, [], ◌∷◌, ◌++◌, Text, length,
  ltb, leb, if◌then◌else◌,
}
use relay_chatapp.Sockets.State.{Backpressure, Outgoing, Outbound, fresh_outbound}

-- What `checkBackpressure` returns: `canSend`, or the reason. Only a persistent overflow asks for
-- the close.
pub data Pressure : Type 0 where
  clear buffered_amount_exceeded pending_sends_exceeded queue_overflow_persistent queue_full :
      Pressure

abbrev pub is_clear : Pressure → Bool
is_clear clear = true
is_clear _ = false

-- `checkBackpressure` below the test of `bufferedAmount`
unfoldable pub check_counters : Backpressure → Outbound → Outbound × Pressure
check_counters bp s =
    if leb bp.threshold s.pending_sends
    then (s, pending_sends_exceeded)
    else if leb s.max_size (length s.queue)
    then (s, if leb bp.max_overflows s.overflows then queue_overflow_persistent else queue_full)
    else if ltb 0 s.overflows && ltb (2 * length s.queue) s.max_size
    then (record s { overflows = 0 }, clear)
    else (s, clear)

unfoldable pub check_backpressure : Backpressure → ℕ → ℕ → Outbound → Outbound × Pressure
unfolding check_counters
check_backpressure bp now buffered s =
    if ltb (s.last_check + 100) now
    then if ltb bp.buffered_threshold buffered
      then (record s { last_check = now }, buffered_amount_exceeded)
      else check_counters bp (record s { last_check = now })
    else check_counters bp s

-- What waits to run: the answer to a send, or `setImmediate(sendNext)`.
pub data Task : Type 0 where
  settle : Bool → Task
  next : Task

-- What became of a message that left the queue.
pub data Fate : Type 0 where
  sent failed skipped : Fate

-- A socket: its state, what it shows, the tasks that wait, and what the code did so far: the
-- messages taken from the queue with their fate, and the ids that it marked FAILED in the store.
pub record Line : Type 0 where
  pub out : Outbound
  pub is_open : Bool
  pub buffered : ℕ
  pub tasks : List Task
  pub taken : List (Outgoing × Fate)
  pub marked : List Text

-- What the code meets outside: the limits, whether the store has a message and takes its mark,
-- and whether `ws.send` throws on the message that is the `n`-th to leave the queue.
pub record World : Type 0 where
  pub bp : Backpressure
  pub is_stored : Text → Bool
  pub throws : ℕ → Bool

abbrev pub open_line : Backpressure → Line
open_line bp = record {
  out = fresh_outbound bp;
  is_open = true;
  buffered = 0;
  tasks = [];
  taken = [];
  marked = [];
}

unfoldable pub can_send : Backpressure → Line → Bool
can_send bp line = line.is_open && ltb line.buffered bp.buffered_threshold

-- the id that a failed send marks FAILED
abbrev pub stored_id : World → Outgoing → List Text
stored_id world msg = elim msg.message_id [
  | none ↦ []
  | some id ↦ if world.is_stored id then id ∷ [] else []
]

-- `sendOrFail` on a text; it catches what its calls of the store throw.
unfoldable pub send_or_fail : World → Outgoing → Line → Line × Bool
unfolding can_send
send_or_fail world msg line =
    if can_send world.bp line && not (world.throws (length line.taken))
    then (record line { taken = line.taken ++ (msg, sent) ∷ [] }, true)
    else (
      record line {
        taken = line.taken ++ (msg, failed) ∷ [];
        marked = line.marked ++ stored_id world msg;
      },
      false,
    )

abbrev pub idle : Line → Line
idle line = record line { out = record line.out { processing = false } }

-- `sendNext` once a message has left the queue
unfoldable pub send_taken : World → Outgoing → Line → Line
unfolding send_or_fail
send_taken world msg line = elim msg.payload [
  | none ↦ record line {
    taken = line.taken ++ (msg, skipped) ∷ [];
    tasks = line.tasks ++ next ∷ [];
  }
  | some _ ↦
      let (l, ok) =
        send_or_fail world msg
          (record line { out = record line.out { pending_sends = line.out.pending_sends + 1 } }) in
      record l { tasks = l.tasks ++ settle ok ∷ [] }
]

-- `sendNext` once it may send
unfoldable pub take_next : World → Line → Line
unfolding send_taken
take_next world line = elim line.out.queue [
  | [] ↦ idle line
  | msg ∷ rest ↦ send_taken world msg (record line { out = record line.out { queue = rest } })
]

unfoldable pub send_next : World → ℕ → Line → Line
unfolding check_backpressure take_next
send_next world now line =
    if line.is_open
    then (let (out, p) = check_backpressure world.bp now line.buffered line.out in
        if is_clear p
        then take_next world (record line { out = out })
        else idle (record line { out = out }))
    else idle line

abbrev pub has_more : List Outgoing → Bool
has_more [] = false
has_more (msg ∷ queue) = true

-- The clock is read here and again in `sendNext`.
unfoldable pub process_queue : World → (ℕ → ℕ) → Line → Line
unfolding check_backpressure send_next
process_queue world now line =
    if line.out.processing || not line.is_open
    then line
    else let (out, p) = check_backpressure world.bp (now 0) line.buffered line.out in
      if is_clear p && has_more out.queue
      then send_next world (now 1) (record line { out = record out { processing = true } })
      else record line { out = out }

-- The replies of `queueMessage` and `sendMessage`; `full` says whether the socket is to be closed.
pub data Reply : Type 0 where
  queued no_payload unusable : Reply
  full : Bool → Reply

-- `config.BACKPRESSURE?.maxQueueOverflows || 5`
abbrev pub overflow_limit : Backpressure → ℕ
overflow_limit bp = elim bp.max_overflows [ ℕ.zero ↦ 5 | ℕ.suc n ↦ ℕ.suc n ]

unfoldable pub queue_message : World → (ℕ → ℕ) → Outgoing → Line → Line × Reply
unfolding process_queue
queue_message world now msg line = elim msg.payload [
  | none ↦ (line, no_payload)
  | some _ ↦
      if leb line.out.max_size (length line.out.queue)
      then (
        record line { out = record line.out { overflows = line.out.overflows + 1 } },
        full (leb (overflow_limit world.bp) (line.out.overflows + 1)),
      )
      else (
        process_queue world now
            (record line { out = record line.out { queue = line.out.queue ++ msg ∷ [] } }),
        queued,
      )
]
