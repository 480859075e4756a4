-- ===== src/Suspicious/Calls.antt =====
-- The calls on the detector in any sequence (backend/suspicious/suspicious.detector.js), and what
-- each user did by them.
use relay_chatapp.Base.{ℕ, Bool, false, not, List, [], ◌∷◌, Text, text_dec, if◌then◌else◌}
use relay_chatapp.Messages.Life.{missing}
use relay_chatapp.Suspicious.Flags.{
  Detector, message_burst_threshold, message_burst_window, reconnect_burst_threshold,
  reconnect_burst_window, message_burst, reconnect_burst,
}
use relay_chatapp.Suspicious.Detector.{
  record_message, record_reconnect, record_flag, evaluate_user, get_user_flags,
  get_total_flags_count,
}

pub data Call : Type 0 where
  message : Text → Call
  reconnect : Text → Call
  flag : Text → Text → Text → Call
  evaluate : Text → Call
  user_flags : Text → Call
  total_flags : Call

unfoldable pub step : ℕ → ℕ → Call → Detector → Detector
unfolding record_message record_reconnect record_flag evaluate_user get_user_flags
    get_total_flags_count
step retention now (message user) d = record_message retention now user d
step retention now (reconnect user) d = record_reconnect retention now user d
step retention now (flag user reason detail) d = record_flag retention now user reason detail d
step retention now (evaluate user) d = evaluate_user retention now user d
step retention now (user_flags user) d = (get_user_flags retention now user d).0
step retention now total_flags d = (get_total_flags_count retention now d).0

unfoldable pub run : ℕ → List (ℕ × Call) → Detector → Detector
unfolding step
run retention [] d = d
run retention ((now, call) ∷ calls) d = run retention calls (step retention now call d)

-- the two things whose bursts are flagged
pub data Activity : Type 0 where
  messages : Activity
  reconnects : Activity

abbrev pub burst_window : Activity → ℕ
burst_window messages = message_burst_window
burst_window reconnects = reconnect_burst_window

abbrev pub burst_threshold : Activity → ℕ
burst_threshold messages = message_burst_threshold
burst_threshold reconnects = reconnect_burst_threshold

abbrev pub burst_reason : Activity → Text
burst_reason messages = message_burst
burst_reason reconnects = reconnect_burst

abbrev pub timestamps : Activity → Detector → List (Text × List ℕ)
timestamps messages d = d.message_timestamps
timestamps reconnects d = d.reconnect_timestamps

-- the call that records an activity
unfoldable pub record_activity : Activity → ℕ → ℕ → Text → Detector → Detector
unfolding record_message record_reconnect
record_activity messages retention now user d = record_message retention now user d
record_activity reconnects retention now user d = record_reconnect retention now user d

unfoldable pub is_activity : Activity → Text → Call → Bool
unfolding text_dec
is_activity messages user (message who) = elim (text_dec user who) [
  | yes _ ↦ not (missing who)
  | no _ ↦ false
]
is_activity reconnects user (reconnect who) = elim (text_dec user who) [
  | yes _ ↦ not (missing who)
  | no _ ↦ false
]
is_activity _ user _ = false

-- when a user did it, oldest call first
unfoldable pub times_of : Activity → Text → List (ℕ × Call) → List ℕ
unfolding is_activity
times_of kind user [] = []
times_of kind user ((now, call) ∷ calls) =
    let rest = times_of kind user calls in if is_activity kind user call then now ∷ rest else rest
