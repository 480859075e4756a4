-- ===== src/Sockets/State.antt =====
-- What socketStateStore.js keeps of a socket, with the limits of constants.js that the safety
-- layer reads, and the start and end of a socket in socketSafety.js.
use relay_chatapp.Base.{ℕ, Bool, false, Option, some, List, [], Text}

-- `RATE_LIMIT`; the warning threshold is a percentage.
pub record RateLimit : Type 0 where
  pub max_messages : ℕ
  pub window_ms : ℕ
  pub max_sensitive : ℕ
  pub warning_percent : ℕ
  pub violations_before_throttle : ℕ
  pub max_violations : ℕ
  pub violations_before_close : ℕ

-- `BACKPRESSURE`
pub record Backpressure : Type 0 where
  pub threshold : ℕ
  pub max_queue_size : ℕ
  pub buffered_threshold : ℕ
  pub max_overflows : ℕ

-- the state of the limiters of one socket
pub record RateState : Type 0 where
  pub messages : List ℕ
  pub violations : ℕ
  pub throttled_until : ℕ
  pub warned : Bool
  pub last_warning : ℕ
  pub send_timestamps : List ℕ

-- A queued message: its payload, where it has one, and the id of the stored message, where it is
-- stored.
pub record Outgoing : Type 0 where
  pub payload : Option Text
  pub message_id : Option Text

pub record Outbound : Type 0 where
  pub pending_sends : ℕ
  pub queue : List Outgoing
  pub max_size : ℕ
  pub overflows : ℕ
  pub last_check : ℕ
  pub processing : Bool

pub record DbState : Type 0 where
  pub failures : ℕ
  pub last_failure : ℕ

-- The three weak maps at one socket, and what the socket itself shows.
pub record Socket : Type 0 where
  pub limits : Option RateState
  pub outbound : Option Outbound
  pub db : Option DbState
  pub is_open : Bool
  pub buffered : ℕ

abbrev pub fresh_limits : RateState
fresh_limits = record {
  messages = [];
  violations = 0;
  throttled_until = 0;
  warned = false;
  last_warning = 0;
  send_timestamps = [];
}

-- `config.BACKPRESSURE?.maxQueueSize || 100`
abbrev pub queue_limit : Backpressure → ℕ
queue_limit bp = elim bp.max_queue_size [ ℕ.zero ↦ 100 | ℕ.suc n ↦ ℕ.suc n ]

abbrev pub fresh_outbound : Backpressure → Outbound
fresh_outbound bp = record {
  pending_sends = 0;
  queue = [];
  max_size = queue_limit bp;
  overflows = 0;
  last_check = 0;
  processing = false;
}

unfoldable pub init_socket : Backpressure → Socket → Socket
init_socket bp ws = record ws {
  limits = some fresh_limits;
  outbound = some (fresh_outbound bp);
  db = some (record { failures = 0; last_failure = 0 });
}

-- The three deletions of socketStateStore.js do nothing.
unfoldable pub cleanup_socket : Socket → Socket
cleanup_socket ws = ws
