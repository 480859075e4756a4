-- ===== src/Sockets/Tests.antt =====
-- Runs of the safety layer on concrete calls, and the theorems at concrete inputs.
use relay_chatapp.Base.{
  List, ℕ, ◌+◌, ◌≡◌, refl, inl, inr, true, false, none, some, [], ◌∷◌, length, codes, arith, ◌≤◌,
}
use relay_chatapp.Sockets.State.{RateLimit, Backpressure, RateState, Socket, fresh_limits}
use relay_chatapp.Sockets.Limits.{max_send_rate, send_window, check_rate_limit}
use relay_chatapp.Sockets.Users.{typing_window, max_typing}
use relay_chatapp.Sockets.Gate.{
  ping, other, payload_too_large, rate_limit_exceeded, allowed, fail, check_message,
}
use relay_chatapp.Sockets.Sliding.{in_window}
use relay_chatapp.Sockets.Floods.{
  sends_allowed, sends_allowed-bounded, typing_allowed, typing_allowed-bounded,
}
use relay_chatapp.Sockets.UserFloods.{Call, allowed_times, allowed_times-bounded}
use relay_chatapp.Sockets.Escalation.{recorded, recorded-bounded, close_needs_violations}
use relay_chatapp.Sockets.Policy.{IsJustified, check_message-IsJustified}

abbrev cfg : RateLimit
cfg = record {
  max_messages = 3;
  window_ms = 1000;
  max_sensitive = 2;
  warning_percent = 80;
  violations_before_throttle = 2;
  max_violations = 10;
  violations_before_close = 4;
}

abbrev bp : Backpressure
bp = record { threshold = 10; max_queue_size = 100; buffered_threshold = 1000; max_overflows = 5 }

abbrev ws : Socket
ws = record { limits = none; outbound = none; db = none; is_open = true; buffered = 0 }

abbrev at : ℕ → ℕ
at k = 100 + k

-- at the limit, with three violations behind it and its warning given
abbrev full : RateState
full = record fresh_limits {
  messages = 1 ∷ 2 ∷ 3 ∷ [];
  violations = 3;
  warned = true;
  last_warning = 5;
}

-- at the limit, not warned yet
abbrev unwarned : RateState
unwarned = record fresh_limits { messages = 1 ∷ 2 ∷ 3 ∷ [] }

ping_passes :
    (check_message cfg bp 50 at true (record { size = 9; parsed = some ping }) ws).1 ≡ allowed false
unfolding check_message
ping_passes = refl

large_fails :
    (check_message cfg bp 50 at true (record { size = 51; parsed = none }) ws).1
    ≡ fail payload_too_large false
unfolding check_message
large_fails = refl

full_closes :
    (check_message cfg bp 50 at true
      (record { size = 9; parsed = some other })
      (record ws { limits = some full })).1
    ≡ fail rate_limit_exceeded true
unfolding check_message
full_closes = refl

sends_allowed-bounded_example :
    length (in_window send_window 4999 (sends_allowed (1 ∷ 1 ∷ 7 ∷ []) fresh_limits))
    ≤ max_send_rate
sends_allowed-bounded_example =
    sends_allowed-bounded (1 ∷ 1 ∷ 7 ∷ []) 4999 (omega arith, (omega arith, (omega arith, tt)))

typing_allowed-bounded_example :
    length (
      in_window typing_window 40 (
        typing_allowed
          (codes "ann")
          (codes "r1")
          ((1, 1) ∷ (2, 3) ∷ (3, 3) ∷ (4, 4) ∷ (5, 5) ∷ [])
          []))
    ≤ max_typing
typing_allowed-bounded_example =
    typing_allowed-bounded 97 (codes "nn") (codes "r1")
      ((1, 1) ∷ (2, 3) ∷ (3, 3) ∷ (4, 4) ∷ (5, 5) ∷ []) 40
      (
        omega arith,
        omega arith,
        (
          omega arith,
          omega arith,
          (omega arith, omega arith, (omega arith, omega arith, (omega arith, omega arith, tt))),
        ),
      )

recorded-bounded_example :
    length (in_window 1000 9 (recorded cfg ((1, 1) ∷ (2, 2) ∷ (3, 3) ∷ (4, 4) ∷ []) fresh_limits))
    ≤ 3
recorded-bounded_example =
    recorded-bounded cfg ((1, 1) ∷ (2, 2) ∷ (3, 3) ∷ (4, 4) ∷ []) 9
      (omega arith, (omega arith, (omega arith, (omega arith, tt))))

close_needs_violations_example :
    (4 ≤ (check_rate_limit cfg 6 6 full).0.violations)
    × (3 ≤ length (check_rate_limit cfg 6 6 full).0.messages)
unfolding check_rate_limit
close_needs_violations_example = close_needs_violations cfg 6 6 full none 1006 refl

check_message-IsJustified_example :
    IsJustified cfg 50
      (record { size = 9; parsed = some other })
      (check_message cfg bp 50 at true
        (record { size = 9; parsed = some other })
        (record ws { limits = some full }))
check_message-IsJustified_example =
    check_message-IsJustified cfg bp 50 at true (record { size = 9; parsed = some other })
      (record ws { limits = some full })

-- ann sends three times, bob once in between
abbrev user_calls : List Call
user_calls =
    record { time = 5; user = codes "ann"; is_sensitive = true }
    ∷ record { time = 6; user = codes "bob"; is_sensitive = true }
    ∷ record { time = 7; user = codes "ann"; is_sensitive = true }
    ∷ record { time = 8; user = codes "ann"; is_sensitive = true }
    ∷ []

third_refused : allowed_times true cfg (codes "ann") user_calls [] ≡ 5 ∷ 7 ∷ []
unfolding allowed_times relay_chatapp.Base.ℕ_discrete
third_refused = refl

allowed_times-bounded_example :
    length (in_window 1000 9 (allowed_times true cfg (codes "ann") user_calls [])) ≤ 2
allowed_times-bounded_example =
    allowed_times-bounded true cfg 97 (codes "nn") user_calls 9
      (omega arith, (omega arith, (omega arith, (omega arith, tt))))
