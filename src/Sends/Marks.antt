-- ===== src/Sends/Marks.antt =====
-- The messages of backpressure.js that failed are marked FAILED in the store.
use relay_chatapp.Base.{
  ℕ, ◌+◌, ◌≡◌, refl, sym, ap, ◌∙◌, Bool, true, false, arith, none, some, if◌then◌else◌, not, ◌&&◌,
  ◌||◌, List, [], ◌∷◌, ◌++◌, Text, length, leb, if_cases, option_cases,
}
use mathlib.Core.List.{append-nil}
use relay_chatapp.Sockets.State.{Outgoing}
use relay_chatapp.Sends.Line.{
  is_clear, check_backpressure, Task, settle, next, Fate, sent, failed, skipped, Line, World,
  open_line, can_send, send_or_fail, stored_id, send_taken, take_next, send_next, has_more,
  process_queue, Reply, queue_message,
}
use relay_chatapp.Sends.Step.{
  to_outgoing, send_message, run_task, Event, send, task, drain, close, step, run,
}

-- the ids of the failed messages that the store has, in order
unfoldable pub lost_ids : World → List (Outgoing × Fate) → List Text
lost_ids world [] = []
lost_ids world ((msg, failed) ∷ l) =
    let rest = lost_ids world l in
    elim msg.message_id [ none ↦ rest | some id ↦ if world.is_stored id then id ∷ rest else rest ]
lost_ids world (_ ∷ l) = lost_ids world l

lost_ids-append :
    (world : World) (l m : List (Outgoing × Fate))
    → lost_ids world (l ++ m) ≡ lost_ids world l ++ lost_ids world m
unfolding lost_ids
lost_ids-append world [] m = refl
lost_ids-append world ((msg, failed) ∷ l) m = ground (arith, lost_ids-append world l m)
lost_ids-append world ((msg, sent) ∷ l) m = lost_ids-append world l m
lost_ids-append world ((msg, skipped) ∷ l) m = lost_ids-append world l m

abbrev IsMarked : World → Line → Type 0
IsMarked world line = line.marked ≡ lost_ids world line.taken

grown :
    (world : World) (msg : Outgoing) (fate : Fate) (line : Line)
    → IsMarked world line
    → line.marked ++ lost_ids world ((msg, fate) ∷ [])
      ≡ lost_ids world (line.taken ++ (msg, fate) ∷ [])
grown world msg fate line h =
    ap (λ (x : List Text). x ++ lost_ids world ((msg, fate) ∷ [])) h
    ∙ sym (lost_ids-append world line.taken ((msg, fate) ∷ []))

stored_id-lost :
    (world : World) (msg : Outgoing) → stored_id world msg ≡ lost_ids world ((msg, failed) ∷ [])
unfolding lost_ids
stored_id-lost world msg = ground arith

send_or_fail-IsMarked :
    (world : World) (msg : Outgoing) (line : Line)
    → IsMarked world line
    → IsMarked world (send_or_fail world msg line).0
unfolding send_or_fail lost_ids
send_or_fail-IsMarked world msg line h =
    if_cases (λ (o : Line × Bool). IsMarked world o.0)
      (can_send world.bp line && not (world.throws (length line.taken)))
      (λ _. sym (append-nil line.marked) ∙ grown world msg sent line h)
      (λ _.
        ap (λ (x : List Text). line.marked ++ x) (stored_id-lost world msg)
        ∙ grown world msg failed line h)

send_taken-IsMarked :
    (world : World) (msg : Outgoing) (line : Line)
    → IsMarked world line
    → IsMarked world (send_taken world msg line)
unfolding send_taken lost_ids
send_taken-IsMarked world msg line h =
    option_cases (IsMarked world) msg.payload
      (λ _. sym (append-nil line.marked) ∙ grown world msg skipped line h)
      (λ _ _.
        send_or_fail-IsMarked world msg
          (record line { out = record line.out { pending_sends = line.out.pending_sends + 1 } }) h)

take_next-IsMarked :
    (world : World) (line : Line) → IsMarked world line → IsMarked world (take_next world line)
unfolding take_next
take_next-IsMarked world line h = by_queue line.out.queue refl
  where
    by_queue :
        (queue : List Outgoing) → line.out.queue ≡ queue → IsMarked world (take_next world line)
    by_queue [] e = rw (e, take_next) h
    by_queue (msg ∷ rest) e =
        rw (e, take_next)
          (send_taken-IsMarked world msg (record line { out = record line.out { queue = rest } }) h)

send_next-IsMarked :
    (world : World) (now : ℕ) (line : Line)
    → IsMarked world line
    → IsMarked world (send_next world now line)
unfolding send_next
send_next-IsMarked world now line h =
    if_cases (IsMarked world) line.is_open
      (λ _.
        if_cases (IsMarked world)
          (is_clear (check_backpressure world.bp now line.buffered line.out).1)
          (λ _.
            take_next-IsMarked world
              (record line { out = (check_backpressure world.bp now line.buffered line.out).0 }) h)
          (λ _. h))
      (λ _. h)

process_queue-IsMarked :
    (world : World) (now : ℕ → ℕ) (line : Line)
    → IsMarked world line
    → IsMarked world (process_queue world now line)
unfolding process_queue
process_queue-IsMarked world now line h =
    if_cases (IsMarked world) (line.out.processing || not line.is_open) (λ _. h)
      λ _.
        let out = (check_backpressure world.bp (now 0) line.buffered line.out).0 in
        if_cases (IsMarked world)
          (is_clear (check_backpressure world.bp (now 0) line.buffered line.out).1
            && has_more out.queue)
          (λ _.
            send_next-IsMarked world (now 1)
              (record line { out = record out { processing = true } }) h)
          (λ _. h)

queue_message-IsMarked :
    (world : World) (now : ℕ → ℕ) (msg : Outgoing) (line : Line)
    → IsMarked world line
    → IsMarked world (queue_message world now msg line).0
unfolding queue_message
queue_message-IsMarked world now msg line h =
    option_cases P msg.payload (λ _. h)
      λ _ _.
        if_cases P (leb line.out.max_size (length line.out.queue)) (λ _. h)
          (λ _.
            process_queue-IsMarked world now
              (record line { out = record line.out { queue = line.out.queue ++ msg ∷ [] } }) h)
  where
    P : Line × Reply → Type 0
    P o = IsMarked world o.0

run_task-IsMarked :
    (world : World) (now : ℕ) (line : Line)
    → IsMarked world line
    → IsMarked world (run_task world now line)
unfolding run_task
run_task-IsMarked world now line h = by_tasks line.tasks refl
  where
    by_tasks : (tasks : List Task) → line.tasks ≡ tasks → IsMarked world (run_task world now line)
    by_tasks [] e = rw (e, run_task) h
    by_tasks (settle true ∷ tasks) e = rw (e, run_task) h
    by_tasks (settle false ∷ tasks) e = rw (e, run_task) h
    by_tasks (next ∷ tasks) e =
        rw (e, run_task) (send_next-IsMarked world now (record line { tasks = tasks }) h)

step-IsMarked :
    (world : World) (now : ℕ → ℕ) (e : Event) (line : Line)
    → IsMarked world line
    → IsMarked world (step world now e line)
unfolding step send_message
step-IsMarked world now (send ctx content) line h =
    if_cases P line.is_open
      (λ _.
        option_cases P (to_outgoing ctx content) (λ _. h)
          (λ msg _. queue_message-IsMarked world now msg line h))
      (λ _. h)
  where
    P : Line × Reply → Type 0
    P o = IsMarked world o.0
step-IsMarked world now task line h = run_task-IsMarked world (now 0) line h
step-IsMarked world now (drain amount) line h = h
step-IsMarked world now close line h = h

run_from-IsMarked :
    (world : World) (events : List ((ℕ → ℕ) × Event)) (line : Line)
    → IsMarked world line
    → IsMarked world (run world events line)
unfolding run
run_from-IsMarked world [] line h = h
run_from-IsMarked world ((now, e) ∷ events) line h =
    run_from-IsMarked world events (step world now e line) (step-IsMarked world now e line h)

-- From a new socket on, the ids that the code marks FAILED are those of the messages whose send failed and which the
-- store has, in the order in which they left the queue.
pub run-marked :
    (world : World) (events : List ((ℕ → ℕ) × Event))
    → (run world events (open_line world.bp)).marked
      ≡ lost_ids world (run world events (open_line world.bp)).taken
unfolding lost_ids
run-marked world events = run_from-IsMarked world events (open_line world.bp) refl
