-- ===== src/Sends/Drain.antt =====
-- The queue of backpressure.js empties while the socket takes what it sends.
use relay_chatapp.Base.{
  ℕ, ◌+◌, ◌*◌, ◌<◌, ◌≡◌, refl, sym, ap, ◌∙◌, true, false, List, [], ◌∷◌, ◌++◌, map, length, arith,
  All, subst,
}
use mathlib.Core.List.{append-nil, append_assoc}
use relay_chatapp.Sockets.State.{Outgoing}
use relay_chatapp.Sends.Line.{
  check_backpressure, settle, next, Fate, sent, Line, World, idle, take_next,
}
use relay_chatapp.Sends.Step.{run_task, Event, task, step, run}
use relay_chatapp.Sends.Busy.{IsKept, check_backpressure-IsKept}
use relay_chatapp.Sends.Flow.{Flows, HasPayload, take_next_sent, checked, send_next-clear}

-- turns of the event loop, in each of which the task that waits runs
unfoldable pub turns : List (ℕ → ℕ) → List ((ℕ → ℕ) × Event)
turns [] = []
turns (now ∷ clocks) = (now, task) ∷ turns clocks

-- `line` is about to send `queue`, with `done` taken before
record Serves (world : World) (done : List (Outgoing × Fate)) (queue : List Outgoing) (line : Line)
    : Type 0 where
  flows : Flows world line
  waits : line.tasks ≡ next ∷ []
  rests : line.out.pending_sends ≡ 0
  room : length queue < line.out.max_size
  queue_is : line.out.queue ≡ queue
  taken_is : line.taken ≡ done

record Answers (world : World) (done : List (Outgoing × Fate)) (queue : List Outgoing) (line : Line)
    : Type 0 where
  flows : Flows world line
  waits : line.tasks ≡ settle true ∷ []
  pends : line.out.pending_sends ≡ 1
  room : length queue < line.out.max_size
  queue_is : line.out.queue ≡ queue
  taken_is : line.taken ≡ done

send_turn :
    (world : World) (now : ℕ) (msg : Outgoing) (queue : List Outgoing)
    (done : List (Outgoing × Fate)) (line : Line)
    → HasPayload msg
    → Serves world done (msg ∷ queue) line
    → Answers world (done ++ (msg, sent) ∷ []) queue (run_task world now line)
unfolding run_task checked
send_turn world now msg queue done line p h =
    rw (h.waits, run_task)
      (subst (Answers world (done ++ (msg, sent) ∷ []) queue)
        (sym (
          send_next-clear world now l flows h.rests (omega (arith, h.room, ap length h.queue_is))
          ∙ take_next_sent world msg queue (checked world now l) p flows (same.0 ∙ h.queue_is)))
        (record {
          flows = flows;
          waits = refl;
          pends = omega (arith, same, h.rests);
          room = omega (arith, same, h.room);
          queue_is = refl;
          taken_is = ap (λ (x : List (Outgoing × Fate)). x ++ (msg, sent) ∷ []) h.taken_is;
        }))
  where
    l : Line
    l = record line { tasks = [] }

    flows : Flows world l
    flows = h.flows

    same : IsKept l.out (check_backpressure world.bp now l.buffered l.out).0
    same = check_backpressure-IsKept world.bp now l.buffered l.out

settle_turn :
    (world : World) (now : ℕ) (queue : List Outgoing) (done : List (Outgoing × Fate)) (line : Line)
    → Answers world done queue line
    → Serves world done queue (run_task world now line)
unfolding run_task
settle_turn world now queue done line h =
    rw (h.waits, run_task)
      (record {
        flows = h.flows;
        waits = refl;
        rests = omega (arith, h.pends);
        room = h.room;
        queue_is = h.queue_is;
        taken_is = h.taken_is;
      })

take_next_none : (world : World) (l : Line) → l.out.queue ≡ [] → take_next world l ≡ idle l
unfolding take_next
take_next_none world l q = rw (q, take_next) (rw q refl)

-- The queue is empty and rests, and `done` was taken.
abbrev HasServed : List (Outgoing × Fate) → Line → Type 0
HasServed done line =
    (line.out.queue ≡ []) × (line.tasks ≡ []) × (line.out.processing ≡ false) × (line.taken ≡ done)

stop_turn :
    (world : World) (now : ℕ) (done : List (Outgoing × Fate)) (line : Line)
    → Serves world done [] line
    → HasServed done (run_task world now line)
unfolding run_task checked
stop_turn world now done line h =
    let same = check_backpressure-IsKept world.bp now line.buffered line.out in
    rw (h.waits, run_task)
      (subst (HasServed done)
        (sym (
          send_next-clear world now l h.flows h.rests (omega (arith, h.room, ap length h.queue_is))
          ∙ take_next_none world (checked world now l) (same.0 ∙ h.queue_is)))
        (same.0 ∙ h.queue_is, refl, refl, h.taken_is))
  where
    l : Line
    l = record line { tasks = [] }

abbrev pub all_sent : List Outgoing → List (Outgoing × Fate)
all_sent queue = map (λ msg. (msg, sent)) queue

serve :
    (world : World) (queue : List Outgoing) (done : List (Outgoing × Fate)) (clocks : List (ℕ → ℕ))
    (line : Line)
    → All HasPayload queue
    → length clocks ≡ 2 * length queue + 1
    → Serves world done queue line
    → HasServed (done ++ all_sent queue) (run world (turns clocks) line)
unfolding run turns step
serve world [] done [] line p n h = absurd (omega (arith, n))
serve world [] done (now ∷ []) line p n h =
    rw (append-nil done) (stop_turn world (now 0) done line h)
serve world [] done (now ∷ later ∷ clocks) line p n h = absurd (omega (arith, n))
serve world (msg ∷ queue) done [] line p n h = absurd (omega (arith, n))
serve world (msg ∷ queue) done (now ∷ []) line p n h = absurd (omega (arith, n))
serve world (msg ∷ queue) done (now ∷ later ∷ clocks) line p n h =
    let l = run_task world (now 0) line in
    subst
      (λ (x : List (Outgoing × Fate)).
        HasServed x (run world (turns clocks) (run_task world (later 0) l)))
      (append_assoc done ((msg, sent) ∷ []) (all_sent queue))
      (serve world queue (done ++ (msg, sent) ∷ []) clocks (run_task world (later 0) l) p.1
        (omega (arith, n))
        (settle_turn world (later 0) queue (done ++ (msg, sent) ∷ []) l
          (send_turn world (now 0) msg queue done line p.0 h)))

-- A socket is open, its buffer stays below the threshold, the threshold on pending sends is not
-- zero, and no send throws. If its queue of `n` messages, each with a payload, is below its maximum
-- and is about to be processed, with no send pending, then `2 n + 1` turns send all of them
-- in order and leave the queue empty and at rest.
pub queue_drains :
    (world : World) (clocks : List (ℕ → ℕ)) (line : Line)
    → Flows world line
    → All HasPayload line.out.queue
    → length line.out.queue < line.out.max_size
    → line.tasks ≡ next ∷ []
    → line.out.pending_sends ≡ 0
    → length clocks ≡ 2 * length line.out.queue + 1
    → let l = run world (turns clocks) line in
      (l.out.queue ≡ [])
      × (l.tasks ≡ [])
      × (l.out.processing ≡ false)
      × (l.taken ≡ line.taken ++ all_sent line.out.queue)
queue_drains world clocks line flows payloads room waits rests n =
    serve world line.out.queue line.taken clocks line payloads n (record {
      flows = flows;
      waits = waits;
      rests = rests;
      room = room;
      queue_is = refl;
      taken_is = refl;
    })
