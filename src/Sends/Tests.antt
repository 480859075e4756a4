-- ===== src/Sends/Tests.antt =====
-- Runs of a socket's queue on concrete events, and the theorems at concrete inputs.
use relay_chatapp.Base.{
  ℕ, ◌+◌, ◌≤◌, ◌≡◌, refl, true, false, none, some, List, [], ◌∷◌, ◌++◌, codes, length, arith,
}
use relay_chatapp.Sockets.State.{Outgoing}
use relay_chatapp.Sends.Line.{next, sent, Line, World, open_line, full}
use relay_chatapp.Sends.Step.{
  Content, text, object, send_message, Event, send, task, drain, run, all_entered,
}
use relay_chatapp.Sends.Sound.{run-IsSound}
use relay_chatapp.Sends.Busy.{IsSound}
use relay_chatapp.Sends.Order.{messages, run-all_entered}
use relay_chatapp.Sends.Marks.{lost_ids, run-marked}
use relay_chatapp.Sends.Stuck.{full_queue_stays}
use relay_chatapp.Sends.Drain.{turns, queue_drains}

abbrev world : World
world = record {
  bp = record { threshold = 10; max_queue_size = 2; buffered_threshold = 50; max_overflows = 2 };
  is_stored = λ _. true;
  throws = λ _. false;
}

abbrev at : ℕ → ℕ → ℕ
at t k = t + k

abbrev hi : Content
hi = object (codes "hi") (some (codes "m1"))

abbrev yo : Content
yo = text (codes "yo")

abbrev hi_out : Outgoing
hi_out = record { payload = some (codes "hi"); message_id = some (codes "m1") }

abbrev yo_out : Outgoing
yo_out = record { payload = some (codes "yo"); message_id = none }

-- the buffer fills, two messages come in, the buffer drains, a third comes
abbrev clogged : List ((ℕ → ℕ) × Event)
clogged = (at 200, drain 60) ∷ (at 300, send [] hi) ∷ (at 500, send [] yo) ∷ (at 900, drain 0) ∷ []

abbrev clogged_line : Line
clogged_line = run world clogged (open_line world.bp)

abbrev two_sends : List ((ℕ → ℕ) × Event)
two_sends = (at 200, send [] hi) ∷ (at 300, send [] yo) ∷ (at 400, task) ∷ (at 500, task) ∷ []

two_sends_taken :
    (run world two_sends (open_line world.bp)).taken ≡ (hi_out, sent) ∷ (yo_out, sent) ∷ []
unfolding run
two_sends_taken = refl

clogged_refuses : (send_message world (at 1000) [] yo clogged_line).1 ≡ full false
unfolding run send_message
clogged_refuses = refl

run-IsSound_example : IsSound world.bp (run world two_sends (open_line world.bp))
run-IsSound_example = run-IsSound world two_sends

run-all_entered_example :
    messages clogged_line.taken ++ clogged_line.out.queue
    ≡ all_entered world clogged (open_line world.bp)
run-all_entered_example = run-all_entered world clogged

run-marked_example : clogged_line.marked ≡ lost_ids world clogged_line.taken
run-marked_example = run-marked world clogged

clogged_full : clogged_line.out.max_size ≤ length clogged_line.out.queue
unfolding run
clogged_full = omega arith

clogged_rests : clogged_line.tasks ≡ []
unfolding run
clogged_rests = refl

full_queue_stays_example :
    ((run world ((at 1000, send [] yo) ∷ (at 1100, task) ∷ []) clogged_line).out.queue
      ≡ clogged_line.out.queue)
    × ((run world ((at 1000, send [] yo) ∷ (at 1100, task) ∷ []) clogged_line).taken
        ≡ clogged_line.taken)
full_queue_stays_example =
    full_queue_stays world ((at 1000, send [] yo) ∷ (at 1100, task) ∷ []) clogged_line clogged_full
      clogged_rests

-- a line that is about to send one message
abbrev busy : Line
busy = record (open_line world.bp) {
  out = record (open_line world.bp).out { queue = hi_out ∷ []; processing = true };
  tasks = next ∷ [];
}

queue_drains_example :
    let l = run world (turns (at 1 ∷ at 2 ∷ at 3 ∷ [])) busy in
    (l.out.queue ≡ [])
    × (l.tasks ≡ [])
    × (l.out.processing ≡ false)
    × (l.taken ≡ (hi_out, sent) ∷ [])
queue_drains_example =
    queue_drains world (at 1 ∷ at 2 ∷ at 3 ∷ []) busy (refl, omega arith, omega arith, λ n. refl)
      ((codes "hi", refl), tt) (omega arith) refl refl refl
