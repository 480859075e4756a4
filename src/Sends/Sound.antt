-- ===== src/Sends/Sound.antt =====
-- The queue of backpressure.js never grows too long and is served by one task at a time.
use relay_chatapp.Base.{
  ℕ, ◌≡◌, refl, ◌∙◌, Bool, true, false, not, ◌&&◌, ◌||◌, List, [], ◌∷◌, ◌++◌, length, length-append,
  leb, arith, if_cases, option_cases,
}
use relay_chatapp.Sockets.State.{Backpressure, Outgoing}
use relay_chatapp.Sends.Line.{
  is_clear, check_backpressure, Task, settle, next, Line, World, open_line, has_more, process_queue,
  Reply, queue_message,
}
use relay_chatapp.Sends.Step.{
  to_outgoing, send_message, settle_send, run_task, Event, send, task, drain, close, step, run,
}
use relay_chatapp.Sends.Busy.{
  check_backpressure-IsKept, AtWork, HasBound, IsSound, IsBusy, send_next-IsSound,
}

at_rest :
    (tasks : List Task) (processing : Bool) (pending : ℕ)
    → AtWork tasks processing pending
    → processing ≡ false
    → (tasks ≡ []) × (pending ≡ 0)
at_rest [] processing pending w e = (refl, w.1)
at_rest (settle ok ∷ []) processing pending w e = absurd (ground (arith, w))
at_rest (next ∷ []) processing pending w e = absurd (ground (arith, w))
at_rest (_ ∷ _ ∷ _) processing pending w e = absurd w

begin-IsBusy :
    (bp : Backpressure) (line : Line)
    → IsSound bp line
    → line.out.processing ≡ false
    → IsBusy bp (record line { out = record line.out { processing = true } })
begin-IsBusy bp line (b, w) e =
    let (t, n) = at_rest line.tasks line.out.processing line.out.pending_sends w e in
    (b, t, refl, n)

checked-IsSound :
    (bp : Backpressure) (now : ℕ) (line : Line)
    → IsSound bp line
    → IsSound bp (record line { out = (check_backpressure bp now line.buffered line.out).0 })
checked-IsSound bp now line h =
    let (q, m, pr, pe) = check_backpressure-IsKept bp now line.buffered line.out in
    rw (q, m, pr, pe) h

process_queue-IsSound :
    (world : World) (now : ℕ → ℕ) (line : Line)
    → IsSound world.bp line
    → IsSound world.bp (process_queue world now line)
unfolding process_queue
process_queue-IsSound world now line h =
    if_cases (IsSound world.bp) (line.out.processing || not line.is_open) (λ _. h)
      λ e.
        if_cases (IsSound world.bp)
          (is_clear (check_backpressure world.bp (now 0) line.buffered line.out).1
            && has_more checked.out.queue)
          (λ _. send_next-IsSound world (now 1) _ (
            begin-IsBusy world.bp checked k (
              at_start (check_backpressure-IsKept world.bp (now 0) line.buffered line.out).2
                (ground (arith, e)))))
          (λ _. k)
  where
    checked : Line
    checked = record line { out = (check_backpressure world.bp (now 0) line.buffered line.out).0 }

    k : IsSound world.bp checked
    k = checked-IsSound world.bp (now 0) line h

    at_start :
        checked.out.processing ≡ line.out.processing
        → line.out.processing ≡ false
        → checked.out.processing ≡ false
    at_start p q = p ∙ q

queue_message-IsSound :
    (world : World) (now : ℕ → ℕ) (msg : Outgoing) (line : Line)
    → IsSound world.bp line
    → IsSound world.bp (queue_message world now msg line).0
unfolding queue_message
queue_message-IsSound world now msg line (b, w) =
    option_cases P msg.payload (λ _. (b, w))
      λ _ _.
        if_cases P (leb line.out.max_size (length line.out.queue)) (λ _. (b, w))
          λ e.
            process_queue-IsSound world now
              (record line { out = record line.out { queue = line.out.queue ++ msg ∷ [] } })
              ((b.0, ground (arith, b, e, length-append line.out.queue (msg ∷ []))), w)
  where
    P : Line × Reply → Type 0
    P o = IsSound world.bp o.0

settle_send-IsSound :
    (bp : Backpressure) (ok : Bool) (line : Line)
    → HasBound bp line
    → line.tasks ≡ []
    → line.out.processing ≡ true
    → line.out.pending_sends ≡ 1
    → IsSound bp (settle_send ok line)
settle_send-IsSound bp true line b t p n = (b, rw t (p, omega (arith, n)))
settle_send-IsSound bp false line b t p n = (b, rw t (refl, omega (arith, n)))

run_task-IsSound :
    (world : World) (now : ℕ) (line : Line)
    → IsSound world.bp line
    → IsSound world.bp (run_task world now line)
unfolding run_task
run_task-IsSound world now line (b, w) = by_tasks line.tasks refl w
  where
    by_tasks :
        (tasks : List Task)
        → line.tasks ≡ tasks
        → AtWork tasks line.out.processing line.out.pending_sends
        → IsSound world.bp (run_task world now line)
    by_tasks [] e v = rw (e, run_task) (b, rw e v)
    by_tasks (settle ok ∷ []) e v =
        rw (e, run_task)
          (settle_send-IsSound world.bp ok (record line { tasks = [] }) b refl v.0 v.1)
    by_tasks (next ∷ []) e v =
        rw (e, run_task)
          (send_next-IsSound world now (record line { tasks = [] }) (b, refl, v.0, v.1))
    by_tasks (_ ∷ _ ∷ _) e v = absurd v

step-IsSound :
    (world : World) (now : ℕ → ℕ) (e : Event) (line : Line)
    → IsSound world.bp line
    → IsSound world.bp (step world now e line)
unfolding step send_message
step-IsSound world now (send ctx content) line h =
    if_cases P line.is_open
      (λ _.
        option_cases P (to_outgoing ctx content) (λ _. h)
          (λ msg _. queue_message-IsSound world now msg line h))
      (λ _. h)
  where
    P : Line × Reply → Type 0
    P o = IsSound world.bp o.0
step-IsSound world now task line h = run_task-IsSound world (now 0) line h
step-IsSound world now (drain amount) line h = h
step-IsSound world now close line h = h

run_from-IsSound :
    (world : World) (events : List ((ℕ → ℕ) × Event)) (line : Line)
    → IsSound world.bp line
    → IsSound world.bp (run world events line)
unfolding run
run_from-IsSound world [] line h = h
run_from-IsSound world ((now, e) ∷ events) line h =
    run_from-IsSound world events (step world now e line) (step-IsSound world now e line h)

-- Whatever happens to a new socket, its queue never holds more than the maximum, no send is pending
-- or waiting to run while the queue rests, and while it is processed exactly one task waits.
pub run-IsSound :
    (world : World) (events : List ((ℕ → ℕ) × Event))
    → IsSound world.bp (run world events (open_line world.bp))
run-IsSound world events =
    run_from-IsSound world events (open_line world.bp) ((refl, omega arith), (refl, refl))
