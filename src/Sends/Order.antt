-- ===== src/Sends/Order.antt =====
-- The queue of backpressure.js keeps the order of the messages, and accounts for each of them.
use relay_chatapp.Base.{
  ℕ, ◌+◌, ◌≡◌, refl, sym, ap, ◌∙◌, true, false, not, ◌&&◌, ◌||◌, Option, none, some, List, [], ◌∷◌,
  ◌++◌, length, leb, arith, if_cases, option_cases,
}
use mathlib.Core.List.{append-nil, append_assoc}
use relay_chatapp.Sockets.State.{Backpressure, Outgoing}
use relay_chatapp.Sends.Line.{
  is_clear, check_backpressure, Task, settle, next, Fate, sent, failed, skipped, Line, World,
  open_line, send_or_fail, send_taken, take_next, send_next, has_more, process_queue, Reply,
  unusable, queue_message,
}
use relay_chatapp.Sends.Step.{
  to_outgoing, send_message, run_task, Event, send, task, drain, close, step, run, of_reply,
  entered, all_entered,
}
use relay_chatapp.Sends.Busy.{check_backpressure-IsKept}

-- the messages that were taken, in order
unfoldable pub messages : List (Outgoing × Fate) → List Outgoing
messages [] = []
messages ((msg, fate) ∷ l) = msg ∷ messages l

messages-append : (l m : List (Outgoing × Fate)) → messages (l ++ m) ≡ messages l ++ messages m
unfolding messages
messages-append [] m = refl
messages-append (e ∷ l) m = ap (λ (x : List Outgoing). e.0 ∷ x) (messages-append l m)

-- all messages that came in, in order: those taken and those in the queue
abbrev pub ledger : Line → List Outgoing
ledger line = messages line.taken ++ line.out.queue

taken-one :
    (taken : List (Outgoing × Fate)) (msg : Outgoing) (fate : Fate) (queue : List Outgoing)
    → messages (taken ++ (msg, fate) ∷ []) ++ queue ≡ messages taken ++ msg ∷ queue
unfolding messages
taken-one taken msg fate queue =
    ap (λ (x : List Outgoing). x ++ queue) (messages-append taken ((msg, fate) ∷ []))
    ∙ append_assoc (messages taken) (msg ∷ []) queue

send_or_fail-ledger :
    (world : World) (msg : Outgoing) (line : Line)
    → ledger (send_or_fail world msg line).0 ≡ messages line.taken ++ msg ∷ line.out.queue
unfolding send_or_fail
send_or_fail-ledger world msg line = ground (
  arith,
  taken-one line.taken msg sent line.out.queue,
  taken-one line.taken msg failed line.out.queue,
)

send_taken-ledger :
    (world : World) (msg : Outgoing) (line : Line)
    → ledger (send_taken world msg line) ≡ messages line.taken ++ msg ∷ line.out.queue
unfolding send_taken
send_taken-ledger world msg line =
    option_cases (λ (l : Line). ledger l ≡ messages line.taken ++ msg ∷ line.out.queue) msg.payload
      (λ _. taken-one line.taken msg skipped line.out.queue)
      (λ _ _.
        send_or_fail-ledger world msg
          (record line { out = record line.out { pending_sends = line.out.pending_sends + 1 } }))

take_next-ledger : (world : World) (line : Line) → ledger (take_next world line) ≡ ledger line
unfolding take_next
take_next-ledger world line = by_queue line.out.queue refl
  where
    by_queue :
        (queue : List Outgoing)
        → line.out.queue ≡ queue
        → ledger (take_next world line) ≡ ledger line
    by_queue [] e = rw (e, take_next) (rw e refl)
    by_queue (msg ∷ rest) e =
        rw (e, take_next)
          (send_taken-ledger world msg (record line { out = record line.out { queue = rest } }))

checked-ledger :
    (bp : Backpressure) (now : ℕ) (line : Line)
    → ledger (record line { out = (check_backpressure bp now line.buffered line.out).0 })
      ≡ ledger line
checked-ledger bp now line =
    ap (λ (q : List Outgoing). messages line.taken ++ q)
      (check_backpressure-IsKept bp now line.buffered line.out).0

send_next-ledger :
    (world : World) (now : ℕ) (line : Line) → ledger (send_next world now line) ≡ ledger line
unfolding send_next
send_next-ledger world now line =
    if_cases P line.is_open
      (λ _.
        if_cases P (is_clear (check_backpressure world.bp now line.buffered line.out).1)
          (λ _. take_next-ledger world checked ∙ checked-ledger world.bp now line)
          (λ _. checked-ledger world.bp now line))
      (λ _. refl)
  where
    P : Line → Type 0
    P l = ledger l ≡ ledger line

    checked : Line
    checked = record line { out = (check_backpressure world.bp now line.buffered line.out).0 }

process_queue-ledger :
    (world : World) (now : ℕ → ℕ) (line : Line)
    → ledger (process_queue world now line) ≡ ledger line
unfolding process_queue
process_queue-ledger world now line =
    if_cases P (line.out.processing || not line.is_open) (λ _. refl)
      λ _.
        if_cases P
          (is_clear (check_backpressure world.bp (now 0) line.buffered line.out).1
            && has_more checked.out.queue)
          (λ _.
            send_next-ledger world (now 1)
              (record checked { out = record checked.out { processing = true } })
            ∙ checked-ledger world.bp (now 0) line)
          (λ _. checked-ledger world.bp (now 0) line)
  where
    P : Line → Type 0
    P l = ledger l ≡ ledger line

    checked : Line
    checked = record line { out = (check_backpressure world.bp (now 0) line.buffered line.out).0 }

queue_message-ledger :
    (world : World) (now : ℕ → ℕ) (msg : Outgoing) (line : Line)
    → let o = queue_message world now msg line in
      ledger o.0 ≡ ledger line ++ of_reply (some msg) o.1
unfolding queue_message
queue_message-ledger world now msg line =
    option_cases P msg.payload (λ _. sym (append-nil (ledger line)))
      λ _ _.
        if_cases P (leb line.out.max_size (length line.out.queue))
          (λ _. sym (append-nil (ledger line)))
          (λ _.
            process_queue-ledger world now
              (record line { out = record line.out { queue = line.out.queue ++ msg ∷ [] } })
            ∙ sym (append_assoc (messages line.taken) line.out.queue (msg ∷ [])))
  where
    P : Line × Reply → Type 0
    P o = ledger o.0 ≡ ledger line ++ of_reply (some msg) o.1

run_task-ledger :
    (world : World) (now : ℕ) (line : Line) → ledger (run_task world now line) ≡ ledger line
unfolding run_task
run_task-ledger world now line = by_tasks line.tasks refl
  where
    by_tasks :
        (tasks : List Task) → line.tasks ≡ tasks → ledger (run_task world now line) ≡ ledger line
    by_tasks [] e = rw (e, run_task) refl
    by_tasks (settle true ∷ tasks) e = rw (e, run_task) refl
    by_tasks (settle false ∷ tasks) e = rw (e, run_task) refl
    by_tasks (next ∷ tasks) e =
        rw (e, run_task) (send_next-ledger world now (record line { tasks = tasks }))

entered-ledger :
    (world : World) (now : ℕ → ℕ) (e : Event) (line : Line)
    → ledger (step world now e line) ≡ ledger line ++ entered world now e line
unfolding step send_message
entered-ledger world now (send ctx content) line =
    if_cases P line.is_open (λ _. by_message (to_outgoing ctx content))
      (λ _. by_refusal (to_outgoing ctx content))
  where
    P : Line × Reply → Type 0
    P o = ledger o.0 ≡ ledger line ++ of_reply (to_outgoing ctx content) o.1

    by_refusal : (m : Option Outgoing) → ledger line ≡ ledger line ++ of_reply m unusable
    by_refusal none = sym (append-nil (ledger line))
    by_refusal (some msg) = sym (append-nil (ledger line))

    by_message :
        (m : Option Outgoing)
        → let o : Line × Reply = elim m as (λ _. Line × Reply) [
          | none ↦ (line, unusable)
          | some msg ↦ queue_message world now msg line
        ] in
          ledger o.0 ≡ ledger line ++ of_reply m o.1
    by_message none = sym (append-nil (ledger line))
    by_message (some msg) = queue_message-ledger world now msg line
entered-ledger world now task line =
    run_task-ledger world (now 0) line ∙ sym (append-nil (ledger line))
entered-ledger world now (drain amount) line = sym (append-nil (ledger line))
entered-ledger world now close line = sym (append-nil (ledger line))

run_from-ledger :
    (world : World) (events : List ((ℕ → ℕ) × Event)) (line : Line)
    → ledger (run world events line) ≡ ledger line ++ all_entered world events line
unfolding run all_entered
run_from-ledger world [] line = sym (append-nil (ledger line))
run_from-ledger world ((now, e) ∷ events) line =
    let l = step world now e line in
    run_from-ledger world events l
    ∙ ap (λ (x : List Outgoing). x ++ all_entered world events l) (entered-ledger world now e line)
    ∙ append_assoc (ledger line) (entered world now e line) (all_entered world events l)

-- From a new socket on, the messages that were taken from the queue, in order, followed by those still in it, are
-- exactly those whose call reported them queued, in the order of the calls: none is lost, doubled
-- or overtaken, whatever happens in between.
pub run-all_entered :
    (world : World) (events : List ((ℕ → ℕ) × Event))
    → let line = run world events (open_line world.bp) in
      messages line.taken ++ line.out.queue ≡ all_entered world events (open_line world.bp)
unfolding messages
run-all_entered world events = run_from-ledger world events (open_line world.bp)
