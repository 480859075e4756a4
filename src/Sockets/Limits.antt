-- ===== src/Sockets/Limits.antt =====
-- The rate limiters: checkRateLimit, checkSendRateLimit and allowUserMessage of socketSafety.js,
-- and typingRateLimit.js.
use relay_chatapp.Base.{
  ℕ, ◌+◌, ◌-◌, ◌*◌, ◌/◌, Bool, true, false, not, ◌&&◌, ◌||◌, Option, none, some, List, [], ◌∷◌,
  ◌++◌, length, keep, ltb, leb, max, if◌then◌else◌,
}
use relay_chatapp.Sockets.State.{RateLimit, RateState}

-- `list.filter(t => t > now - window)`, the subtraction moved to the other side
unfoldable pub prune : ℕ → ℕ → List ℕ → List ℕ
unfolding keep
prune window now times = keep (λ t. ltb now (t + window)) times

abbrev pub is_nil : List ℕ → Bool
is_nil [] = true
is_nil (t ∷ ts) = false

-- A limiter over a window: refuse at the limit, else record the time `stamp` of a second reading
-- of the clock.
unfoldable pub admit : ℕ → ℕ → ℕ → ℕ → List ℕ → List ℕ × Bool
unfolding prune
admit limit window now stamp times =
    let recent = prune window now times in
    if leb limit (length recent) then (recent, false) else (recent ++ stamp ∷ [], true)

abbrev pub max_send_rate : ℕ
max_send_rate = 60

abbrev pub send_window : ℕ
send_window = 5000

-- `checkSendRateLimit`
unfoldable pub check_send_rate_limit : ℕ → RateState → RateState × Bool
unfolding admit
check_send_rate_limit now s =
    let (times, allowed) = admit max_send_rate send_window now now s.send_timestamps in
    (record s { send_timestamps = times }, allowed)

-- What `checkRateLimit` returns.
pub data Verdict : Type 0 where
  allow : Bool → ℕ → ℕ → Verdict
  deny : Bool → Option ℕ → ℕ → Verdict

-- `Math.floor(maxMessages * warningThreshold)`
abbrev pub warning_threshold : RateLimit → ℕ
warning_threshold cfg = cfg.max_messages * cfg.warning_percent / 100

-- the first part of `checkRateLimit`: the window moves on, and an expired one resets the state
unfoldable pub roll : RateLimit → ℕ → RateState → RateState
unfolding prune
roll cfg now s =
    let recent = prune cfg.window_ms now s.messages in
    if is_nil recent && not (is_nil s.messages)
    then record s {
      messages = [];
      violations = 0;
      throttled_until = 0;
      warned = false;
      last_warning = 0;
    }
    else record s { messages = recent }

-- `throttledUntil` after a violation: the rest of the window of the oldest message, a second at
-- least. With no message the code stores NaN, which throttles nothing, as 0 does.
unfoldable pub throttle_end : ℕ → ℕ → List ℕ → ℕ
throttle_end window now [] = 0
throttle_end window now (oldest ∷ _) = now + max (oldest + window - now) 1000

-- the branch of `checkRateLimit` at the limit
unfoldable pub violate : RateLimit → ℕ → RateState → RateState × Verdict
unfolding throttle_end
violate cfg now s =
    let n = s.violations + 1 in
    let until =
      if leb cfg.violations_before_throttle n
      then throttle_end cfg.window_ms now s.messages
      else s.throttled_until in
    let s' = record s { violations = n; throttled_until = until } in
    if leb cfg.violations_before_close n
    then (s', deny true none until)
    else (s', deny false (some 0) until)

-- the part of `checkRateLimit` below the warning
unfoldable pub enforce : RateLimit → ℕ → RateState → RateState × Verdict
unfolding violate
enforce cfg now s =
    let calm =
      if s.warned && ltb (2 * length s.messages) (warning_threshold cfg) then false else s.warned in
    let s' = record s { warned = calm } in
    if leb cfg.max_messages (length s'.messages)
    then violate cfg now s'
    else let t = record s' { messages = s'.messages ++ now ∷ [] } in
      (t, allow false (cfg.max_messages - length t.messages) (now + cfg.window_ms))

-- `timeSinceLastWarning > windowMs / 4`, in whole numbers
abbrev pub may_warn : RateLimit → ℕ → RateState → Bool
may_warn cfg now s =
    leb (warning_threshold cfg) (length s.messages)
    && (not s.warned || ltb (4 * s.last_warning + cfg.window_ms) (4 * now))

-- the part of `checkRateLimit` after the window has moved on
unfoldable pub judge : RateLimit → ℕ → ℕ → RateState → RateState × Verdict
unfolding enforce
judge cfg now later s =
    if ltb later s.throttled_until
    then (record s { violations = s.violations + 1 }, deny false none s.throttled_until)
    else if may_warn cfg now s
    then (
      record s { warned = true; last_warning = now },
      allow true (cfg.max_messages - length s.messages) (now + cfg.window_ms),
    )
    else enforce cfg now s

-- The clock is read again for the throttle: `later`.
unfoldable pub check_rate_limit : RateLimit → ℕ → ℕ → RateState → RateState × Verdict
unfolding roll judge
check_rate_limit cfg now later s = judge cfg now later (roll cfg now s)
