-- ===== src/Sockets/Gate.antt =====
-- The safety gate for what a socket receives: validateIncomingMessage and checkMessage of
-- socketSafety.js, and its counter of database failures.
use relay_chatapp.Base.{ℕ, ◌+◌, ◌-◌, Bool, true, false, Option, none, some, ltb, leb, if◌then◌else◌}
use relay_chatapp.Sockets.State.{
  RateLimit, Backpressure, RateState, DbState, Socket, fresh_limits, init_socket,
}
use relay_chatapp.Sockets.Limits.{Verdict, allow, deny, check_send_rate_limit, check_rate_limit}

-- The message types that the safety layer tells apart; `other` is every other type, or none.
pub data MessageType : Type 0 where
  message_send room_message typing_start typing_stop : MessageType
  ping client_ack message_delivered_confirm message_read_confirm message_read : MessageType
  presence_ping resume state_sync message_replay : MessageType
  room_create room_delete room_set_role room_remove_member room_add_members : MessageType
  other : MessageType

abbrev pub is_noise : MessageType → Bool
is_noise ping = true
is_noise client_ack = true
is_noise message_delivered_confirm = true
is_noise message_read_confirm = true
is_noise message_read = true
is_noise presence_ping = true
is_noise resume = true
is_noise state_sync = true
is_noise message_replay = true
is_noise _ = false

-- `SENSITIVE_ROOM_ACTION_TYPES`
abbrev pub is_sensitive_action : MessageType → Bool
is_sensitive_action room_create = true
is_sensitive_action room_delete = true
is_sensitive_action room_set_role = true
is_sensitive_action room_remove_member = true
is_sensitive_action room_add_members = true
is_sensitive_action _ = false

-- Raw data: its size in bytes, and the type of the message that `JSON.parse` makes of it.
pub record Incoming : Type 0 where
  pub size : ℕ
  pub parsed : Option MessageType

pub data Code : Type 0 where
  payload_too_large invalid_json rate_limit_exceeded : Code

-- the flags of the suspicious-activity detector that the gate records
pub data Flag : Type 0 where
  ws_rate_limit ws_rate_limit_close : Flag

-- Accepted, with a warning or not; or rejected: the code, whether the socket is to be closed, and
-- the flag that is recorded against the user.
pub data Validation : Type 0 where
  accepted : Bool → Validation
  rejected : Code → Bool → Option Flag → Validation

-- `state.violations++` where the socket has a state, and the test for the close
unfoldable pub count_violation : RateLimit → Socket → Socket × Bool
count_violation cfg ws = elim ws.limits [
  | none ↦ (ws, false)
  | some s ↦ (
    record ws { limits = some (record s { violations = s.violations + 1 }) },
    leb cfg.max_violations (s.violations + 1),
  )
]

-- A limiter initialises a socket that has no state.
unfoldable pub ensure_limits : Backpressure → Socket → Socket
unfolding init_socket
ensure_limits bp ws = elim ws.limits [ none ↦ init_socket bp ws | some _ ↦ ws ]

abbrev pub limits_of : Socket → RateState
limits_of ws = elim ws.limits [ none ↦ fresh_limits | some s ↦ s ]

unfoldable pub is_throttled : ℕ → Socket → Bool
is_throttled now ws = elim ws.limits [ none ↦ false | some s ↦ ltb now s.throttled_until ]

-- a flag wants a user id
abbrev pub flag_if : Bool → Flag → Option Flag
flag_if known f = if known then some f else none

unfoldable pub validate_send : Backpressure → ℕ → Bool → Socket → Socket × Validation
unfolding ensure_limits check_send_rate_limit
validate_send bp now known ws₀ =
    let ws = ensure_limits bp ws₀ in
    let (s, allowed) = check_send_rate_limit now (limits_of ws) in
    (
      record ws { limits = some s },
      if allowed
          then accepted false
          else rejected rate_limit_exceeded false (flag_if known ws_rate_limit),
    )

abbrev pub verdict_to_validation : Bool → Verdict → Validation
verdict_to_validation known (allow warning _ _) = accepted warning
verdict_to_validation known (deny close _ _) =
    rejected rate_limit_exceeded close
      (flag_if known (if close then ws_rate_limit_close else ws_rate_limit))

-- Here the clock is read three times.
unfoldable pub validate_generic :
    RateLimit → Backpressure → (ℕ → ℕ) → Bool → Socket → Socket × Validation
unfolding is_throttled ensure_limits check_rate_limit
validate_generic cfg bp now known ws₀ =
    if is_throttled (now 0) ws₀
    then (ws₀, rejected rate_limit_exceeded false (flag_if known ws_rate_limit))
    else let ws = ensure_limits bp ws₀ in
      let (s, verdict) = check_rate_limit cfg (now 1) (now 2) (limits_of ws) in
      (record ws { limits = some s }, verdict_to_validation known verdict)

-- the limiter that a parsed message meets
unfoldable pub validate_type :
    RateLimit → Backpressure → (ℕ → ℕ) → Bool → MessageType → Socket → Socket × Validation
unfolding validate_send validate_generic
validate_type cfg bp now known message_send ws = validate_send bp (now 0) known ws
validate_type cfg bp now known room_message ws = validate_send bp (now 0) known ws
validate_type cfg bp now known typing_start ws = (ws, accepted false)
validate_type cfg bp now known typing_stop ws = (ws, accepted false)
validate_type cfg bp now known type ws =
    if is_noise type then (ws, accepted false) else validate_generic cfg bp now known ws

unfoldable pub validate_incoming :
    RateLimit → Backpressure → ℕ → (ℕ → ℕ) → Bool → Incoming → Socket → Socket × Validation
unfolding count_violation validate_type
validate_incoming cfg bp max_size now known msg ws =
    if ltb max_size msg.size
    then (let (ws', close) = count_violation cfg ws in (ws', rejected payload_too_large close none))
    else elim msg.parsed [
      | none ↦ let (ws', close) = count_violation cfg ws in (ws', rejected invalid_json close none)
      | some type ↦ validate_type cfg bp now known type ws
    ]

-- The policies of the gate, with the code and `shouldClose` of their meta.
pub data Policy : Type 0 where
  allowed : Bool → Policy
  dropped : Code → Bool → Policy
  fail : Code → Bool → Policy

abbrev pub policy_of : Validation → Policy
policy_of (accepted warning) = allowed warning
policy_of (rejected payload_too_large true _) = dropped payload_too_large true
policy_of (rejected invalid_json true _) = dropped invalid_json true
policy_of (rejected code close _) = fail code close

unfoldable pub check_message :
    RateLimit → Backpressure → ℕ → (ℕ → ℕ) → Bool → Incoming → Socket → Socket × Policy
unfolding validate_incoming
check_message cfg bp max_size now known msg ws =
    let (ws', v) = validate_incoming cfg bp max_size now known msg ws in (ws', policy_of v)

-- `recordDbFailure` on the state it finds; a minute without failures resets the count
unfoldable pub count_failure : ℕ → DbState → DbState × Bool
count_failure now s =
    let n = (if ltb (s.last_failure + 60000) now then 0 else s.failures) + 1 in
    (record { failures = n; last_failure = now }, ltb 10 n)

unfoldable pub record_db_failure : Backpressure → ℕ → Socket → Socket × Bool
unfolding count_failure init_socket
record_db_failure bp now ws = elim ws.db [
  | none ↦
      let (d, degrade) = count_failure now (record { failures = 0; last_failure = 0 }) in
      (record (init_socket bp ws) { db = some d }, degrade)
  | some s ↦ let (d, degrade) = count_failure now s in (record ws { db = some d }, degrade)
]

-- `resetDbFailureCount`
unfoldable pub reset_db_failure_count : ℕ → Socket → Socket
reset_db_failure_count now ws = elim ws.db [
  | none ↦ ws
  | some s ↦
      if ltb (s.last_failure + 5000) now
      then record ws { db = some (record s { failures = s.failures - 1 }) }
      else ws
]
