-- ===== src/Sends/Busy.antt =====
-- What holds of a socket while backpressure.js sends from its queue.
use relay_chatapp.Base.{
  ℕ, ◌+◌, ◌≤◌, ◌≡◌, refl, Bool, true, false, List, [], ◌∷◌, length, arith, if_cases, option_cases,
}
use relay_chatapp.Sockets.State.{Backpressure, Outgoing, Outbound, queue_limit}
use relay_chatapp.Sends.Line.{
  is_clear, check_counters, check_backpressure, Task, settle, next, Line, World, send_or_fail, idle,
  send_taken, take_next, send_next,
}

-- A check changes the overflows and the time of the last check at most.
abbrev pub IsKept : Outbound → Outbound → Type 0
IsKept s t =
    (t.queue ≡ s.queue)
    × (t.max_size ≡ s.max_size)
    × (t.processing ≡ s.processing)
    × (t.pending_sends ≡ s.pending_sends)

pub check_counters-IsKept : (bp : Backpressure) (s : Outbound) → IsKept s (check_counters bp s).0
unfolding check_counters
check_counters-IsKept bp s = ground arith

pub check_backpressure-IsKept :
    (bp : Backpressure) (now buffered : ℕ) (s : Outbound)
    → IsKept s (check_backpressure bp now buffered s).0
unfolding check_backpressure
check_backpressure-IsKept bp now buffered s =
    ground
      (arith, check_counters-IsKept bp s, check_counters-IsKept bp (record s { last_check = now }))

-- No task waits while the queue rests; else one does, and a send is pending while its answer is.
abbrev pub AtWork : List Task → Bool → ℕ → Type 0
AtWork [] processing pending = (processing ≡ false) × (pending ≡ 0)
AtWork (settle ok ∷ []) processing pending = (processing ≡ true) × (pending ≡ 1)
AtWork (next ∷ []) processing pending = (processing ≡ true) × (pending ≡ 0)
AtWork (_ ∷ _ ∷ _) processing pending = ⊥

abbrev pub HasBound : Backpressure → Line → Type 0
HasBound bp line = (line.out.max_size ≡ queue_limit bp) × (length line.out.queue ≤ queue_limit bp)

abbrev pub IsSound : Backpressure → Line → Type 0
IsSound bp line = HasBound bp line × AtWork line.tasks line.out.processing line.out.pending_sends

-- in the middle of `sendNext`
abbrev pub IsBusy : Backpressure → Line → Type 0
IsBusy bp line =
    HasBound bp line
    × (line.tasks ≡ [])
    × (line.out.processing ≡ true)
    × (line.out.pending_sends ≡ 0)

pub idle-IsSound : (bp : Backpressure) (line : Line) → IsBusy bp line → IsSound bp (idle line)
idle-IsSound bp line (b, t, p, n) = (b, rw t (refl, n))

pub send_or_fail-keeps :
    (world : World) (msg : Outgoing) (line : Line)
    → ((send_or_fail world msg line).0.out ≡ line.out)
      × ((send_or_fail world msg line).0.tasks ≡ line.tasks)
unfolding send_or_fail
send_or_fail-keeps world msg line = ground arith

pub send_taken-IsSound :
    (world : World) (msg : Outgoing) (line : Line)
    → IsBusy world.bp line
    → IsSound world.bp (send_taken world msg line)
unfolding send_taken
send_taken-IsSound world msg line (b, t, p, n) =
    option_cases (IsSound world.bp) msg.payload (λ _. (b, rw t (p, n)))
      (λ _ _.
        let (out, tasks) =
          send_or_fail-keeps world msg (record line {
            out = record line.out { pending_sends = line.out.pending_sends + 1 };
          }) in
        rw (out, tasks, t) (b, (p, omega arith)))

pub take_next-IsSound :
    (world : World) (line : Line) → IsBusy world.bp line → IsSound world.bp (take_next world line)
unfolding take_next
take_next-IsSound world line (b, t, p, n) = by_queue line.out.queue refl
  where
    by_queue :
        (queue : List Outgoing) → line.out.queue ≡ queue → IsSound world.bp (take_next world line)
    by_queue [] e = rw (e, take_next) (idle-IsSound world.bp line (b, t, p, n))
    by_queue (msg ∷ rest) e =
        rw (e, take_next)
          (send_taken-IsSound world msg (record line { out = record line.out { queue = rest } })
            ((b.0, ground (arith, b.1, e)), t, p, n))

pub checked-IsBusy :
    (bp : Backpressure) (now : ℕ) (line : Line)
    → IsBusy bp line
    → IsBusy bp (record line { out = (check_backpressure bp now line.buffered line.out).0 })
checked-IsBusy bp now line (b, t, p, n) =
    let (q, m, pr, pe) = check_backpressure-IsKept bp now line.buffered line.out in
    rw (q, m, pr, pe) (b, t, p, n)

pub send_next-IsSound :
    (world : World) (now : ℕ) (line : Line)
    → IsBusy world.bp line
    → IsSound world.bp (send_next world now line)
unfolding send_next
send_next-IsSound world now line h =
    let k = checked-IsBusy world.bp now line h in
    if_cases (IsSound world.bp) line.is_open
      (λ _.
        if_cases (IsSound world.bp)
          (is_clear (check_backpressure world.bp now line.buffered line.out).1)
          (λ _. take_next-IsSound world checked k) (λ _. idle-IsSound world.bp checked k))
      (λ _. idle-IsSound world.bp line h)
  where
    checked : Line
    checked = record line { out = (check_backpressure world.bp now line.buffered line.out).0 }
