-- ===== src/Sends/Flow.antt =====
-- A send of backpressure.js on a socket that takes it.
use relay_chatapp.Base.{
  ℕ, ◌+◌, ◌<◌, ◌≡◌, refl, ap, Bool, true, false, some, List, [], ◌∷◌, ◌++◌, Text, length, arith,
  option_cases,
}
use relay_chatapp.Sockets.State.{Backpressure, Outgoing, Outbound}
use relay_chatapp.Sends.Line.{
  clear, check_counters, check_backpressure, settle, sent, Line, World, can_send, send_or_fail,
  send_taken, take_next, send_next,
}

-- The socket is open, its buffer is below the threshold, and sends do not throw.
abbrev pub Flows : World → Line → Type 0
Flows world line =
    (line.is_open ≡ true)
    × (line.buffered < world.bp.buffered_threshold)
    × (0 < world.bp.threshold)
    × ((n : ℕ) → world.throws n ≡ false)

abbrev pub HasPayload : Outgoing → Type 0
HasPayload msg = (t : Text) × (msg.payload ≡ some t)

pub check_clear :
    (bp : Backpressure) (now buffered : ℕ) (s : Outbound)
    → buffered < bp.buffered_threshold
    → s.pending_sends < bp.threshold
    → length s.queue < s.max_size
    → (check_backpressure bp now buffered s).1 ≡ clear
unfolding check_backpressure check_counters
check_clear bp now buffered s low few short = ground arith

-- the line after a send of `msg` that passed
abbrev pub after : Outgoing → Line → Line
after msg l = record l {
  out = record l.out { pending_sends = l.out.pending_sends + 1 };
  taken = l.taken ++ (msg, sent) ∷ [];
  tasks = l.tasks ++ settle true ∷ [];
}

pub send_or_fail_sent :
    (world : World) (msg : Outgoing) (l : Line)
    → Flows world l
    → send_or_fail world msg l ≡ (record l { taken = l.taken ++ (msg, sent) ∷ [] }, true)
unfolding send_or_fail can_send
send_or_fail_sent world msg l h = ground (arith, h.0, h.1, h.3 (length l.taken))

pub send_taken_sent :
    (world : World) (msg : Outgoing) (l : Line)
    → HasPayload msg
    → Flows world l
    → send_taken world msg l ≡ after msg l
unfolding send_taken
send_taken_sent world msg l (t, p) h =
    option_cases (λ (m : Line). m ≡ after msg l) msg.payload (λ e. absurd (cc))
      (λ _ _.
        ap (λ (o : Line × Bool). record o.0 { tasks = o.0.tasks ++ settle o.1 ∷ [] })
          (send_or_fail_sent world msg
            (record l { out = record l.out { pending_sends = l.out.pending_sends + 1 } }) h))

pub take_next_sent :
    (world : World) (msg : Outgoing) (rest : List Outgoing) (l : Line)
    → HasPayload msg
    → Flows world l
    → l.out.queue ≡ msg ∷ rest
    → take_next world l ≡ after msg (record l { out = record l.out { queue = rest } })
unfolding take_next
take_next_sent world msg rest l p h q =
    rw (q, take_next)
      (send_taken_sent world msg (record l { out = record l.out { queue = rest } }) p h)

unfoldable pub checked : World → ℕ → Line → Line
checked world now l = record l { out = (check_backpressure world.bp now l.buffered l.out).0 }

pub send_next-clear :
    (world : World) (now : ℕ) (l : Line)
    → Flows world l
    → l.out.pending_sends ≡ 0
    → length l.out.queue < l.out.max_size
    → send_next world now l ≡ take_next world (checked world now l)
unfolding send_next checked
send_next-clear world now l h n short =
    rw (h.0, check_clear world.bp now l.buffered l.out h.1 (omega (arith, n, h.2)) short) refl
