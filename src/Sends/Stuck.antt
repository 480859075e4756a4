-- ===== src/Sends/Stuck.antt =====
-- A full queue of backpressure.js that rests.
use relay_chatapp.Base.{
  ℕ, ◌≤◌, ◌≡◌, refl, ◌∙◌, List, [], ◌∷◌, length, leb, arith, if_cases, option_cases,
}
use relay_chatapp.Sockets.State.{Outgoing}
use relay_chatapp.Sends.Line.{Line, World, Reply, queue_message}
use relay_chatapp.Sends.Step.{
  to_outgoing, send_message, run_task, Event, send, task, drain, close, step, run,
}

-- the queue is full, and nothing waits to run
abbrev pub IsStuck : Line → Type 0
IsStuck line = (line.out.max_size ≤ length line.out.queue) × (line.tasks ≡ [])

-- `l` is stuck as well, with what was queued and taken before
abbrev StaysStuck : Line → Line → Type 0
StaysStuck line l = IsStuck l × (l.out.queue ≡ line.out.queue) × (l.taken ≡ line.taken)

queue_message-StaysStuck :
    (world : World) (now : ℕ → ℕ) (msg : Outgoing) (line : Line)
    → IsStuck line
    → StaysStuck line (queue_message world now msg line).0
unfolding queue_message
queue_message-StaysStuck world now msg line h =
    option_cases P msg.payload (λ _. (h, refl, refl))
      λ _ _.
        if_cases P (leb line.out.max_size (length line.out.queue)) (λ _. (h, refl, refl))
          (λ e. absurd (ground (arith, h, e)))
  where
    P : Line × Reply → Type 0
    P o = StaysStuck line o.0

step-StaysStuck :
    (world : World) (now : ℕ → ℕ) (e : Event) (line : Line)
    → IsStuck line
    → StaysStuck line (step world now e line)
unfolding step send_message run_task
step-StaysStuck world now (send ctx content) line h =
    if_cases P line.is_open
      (λ _.
        option_cases P (to_outgoing ctx content) (λ _. (h, refl, refl))
          (λ msg _. queue_message-StaysStuck world now msg line h))
      (λ _. (h, refl, refl))
  where
    P : Line × Reply → Type 0
    P o = StaysStuck line o.0
step-StaysStuck world now task line h = rw (h.1, run_task) (h, refl, refl)
step-StaysStuck world now (drain amount) line h = (h, refl, refl)
step-StaysStuck world now close line h = (h, refl, refl)

-- Once the queue of a socket is full while nothing waits to run, no event makes the code send
-- from it again: the queue and the messages taken stay as they are, also when the buffer of the
-- socket has drained.
pub full_queue_stays :
    (world : World) (events : List ((ℕ → ℕ) × Event)) (line : Line)
    → line.out.max_size ≤ length line.out.queue
    → line.tasks ≡ []
    → ((run world events line).out.queue ≡ line.out.queue)
      × ((run world events line).taken ≡ line.taken)
unfolding run
full_queue_stays world [] line full rest = (refl, refl)
full_queue_stays world ((now, e) ∷ events) line full rest =
    let l = step world now e line in
    let (stuck, q, t) = step-StaysStuck world now e line (full, rest) in
    let (q', t') = full_queue_stays world events l stuck.0 stuck.1 in (q' ∙ q, t' ∙ t)
