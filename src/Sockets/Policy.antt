-- ===== src/Sockets/Policy.antt =====
-- What the safety gate of socketSafety.js decides about an incoming message.
use relay_chatapp.Base.{
  ℕ, ◌+◌, ◌≤◌, ◌<◌, ◌≡◌, refl, ◌⊎◌, inl, inr, Bool, true, false, Option, none, some, ltb, arith,
  le→ltb, if_cases, option_cases, Option-cases,
}
use relay_chatapp.Sockets.State.{RateLimit, Backpressure, RateState, Socket}
use relay_chatapp.Sockets.Limits.{Verdict, allow, deny, check_rate_limit, check_send_rate_limit}
use relay_chatapp.Sockets.Gate.{
  MessageType, message_send, room_message, typing_start, typing_stop, room_create, room_delete,
  room_set_role, room_remove_member, room_add_members, other, is_noise, Incoming, payload_too_large,
  invalid_json, rate_limit_exceeded, Validation, accepted, rejected, count_violation, ensure_limits,
  limits_of, is_throttled, verdict_to_validation, validate_send, validate_generic, validate_type,
  validate_incoming, Policy, allowed, dropped, fail, policy_of, check_message,
}
use relay_chatapp.Sockets.Escalation.{close_needs_violations}

-- the types that no limiter of the gate counts
abbrev pub IsExempt : MessageType → Type 0
IsExempt type = (type ≡ typing_start) ⊎ (type ≡ typing_stop) ⊎ (is_noise type ≡ true)

validate_exempt :
    (cfg : RateLimit) (bp : Backpressure) (now : ℕ → ℕ) (known : Bool) (type : MessageType)
    (ws : Socket)
    → IsExempt type
    → validate_type cfg bp now known type ws ≡ (ws, accepted false)
unfolding validate_type
validate_exempt cfg bp now known message_send ws h = ground arith
validate_exempt cfg bp now known room_message ws h = ground arith
validate_exempt cfg bp now known typing_start ws h = refl
validate_exempt cfg bp now known _ ws h = ground arith

-- A message of a type that the limiters leave alone, and that is no larger than the maximum,
-- passes without a warning and leaves the socket as it was, whatever its state.
pub exempt_passes :
    (cfg : RateLimit) (bp : Backpressure) (max_size : ℕ) (now : ℕ → ℕ) (known : Bool)
    (type : MessageType) (size : ℕ) (ws : Socket)
    → IsExempt type
    → size ≤ max_size
    → check_message cfg bp max_size now known (record { size = size; parsed = some type }) ws
      ≡ (ws, allowed false)
unfolding check_message validate_incoming
exempt_passes cfg bp max_size now known type size ws h k =
    simp (le→ltb max_size size k, validate_exempt cfg bp now known type ws h)

-- the socket's violations have reached `n`
abbrev pub HasViolations : ℕ → Socket → Type 0
HasViolations n ws = (s : RateState) × (ws.limits ≡ some s) × (n ≤ s.violations)

-- why a message got its validation
abbrev IsFounded : RateLimit → ℕ → Incoming → Socket × Validation → Type 0
IsFounded cfg max_size msg (ws, accepted _) =
    (msg.size ≤ max_size) × ((type : MessageType) × (msg.parsed ≡ some type))
IsFounded cfg max_size msg (ws, rejected payload_too_large close _) =
    (max_size < msg.size) × (close ≡ true → HasViolations cfg.max_violations ws)
IsFounded cfg max_size msg (ws, rejected invalid_json close _) =
    (msg.parsed ≡ none) × (close ≡ true → HasViolations cfg.max_violations ws)
IsFounded cfg max_size msg (ws, rejected rate_limit_exceeded close _) =
    (msg.size ≤ max_size)
    × ((type : MessageType) × (msg.parsed ≡ some type))
    × (close ≡ true → HasViolations cfg.violations_before_close ws)

count_some :
    (cfg : RateLimit) (s : RateState) (ws : Socket)
    → ws.limits ≡ some s
    → (count_violation cfg ws).1 ≡ true
    → HasViolations cfg.max_violations (count_violation cfg ws).0
unfolding count_violation
count_some cfg s ws e h = (record s { violations = s.violations + 1 }, rw e refl, ground arith)

count_violation-HasViolations :
    (cfg : RateLimit) (ws : Socket)
    → (count_violation cfg ws).1 ≡ true
    → HasViolations cfg.max_violations (count_violation cfg ws).0
unfolding count_violation
count_violation-HasViolations cfg ws h = elim (Option-cases ws.limits) [
  | inl e ↦ ground arith
  | inr (s, e) ↦ count_some cfg s ws e h
]

module _ (cfg : RateLimit) (bp : Backpressure) (max_size : ℕ) (known : Bool) (msg : Incoming)
    (small : msg.size ≤ max_size) (type : MessageType) (is_type : msg.parsed ≡ some type) where
  validate_send-IsFounded :
      (now : ℕ) (ws : Socket) → IsFounded cfg max_size msg (validate_send bp now known ws)
  unfolding validate_send
  validate_send-IsFounded now ws =
      if_cases
        (λ (v : Validation). IsFounded cfg max_size msg ((validate_send bp now known ws).0, v))
        (check_send_rate_limit now (limits_of (ensure_limits bp ws))).1
        (λ _. (small, (type, is_type))) (λ _. (small, (type, is_type), λ c. ground arith))

  verdict-IsFounded :
      (s : RateState) (ws : Socket) (v : Verdict)
      → ((left : Option ℕ) (until : ℕ)
          → v ≡ deny true left until
          → cfg.violations_before_close ≤ s.violations)
      → IsFounded cfg max_size msg (record ws { limits = some s }, verdict_to_validation known v)
  verdict-IsFounded s ws (allow warning left until) h = (small, (type, is_type))
  verdict-IsFounded s ws (deny false left until) h = (small, (type, is_type), λ c. ground arith)
  verdict-IsFounded s ws (deny true left until) h =
      (small, (type, is_type), λ c. (s, refl, h left until refl))

  validate_generic-IsFounded :
      (now : ℕ → ℕ) (ws : Socket)
      → IsFounded cfg max_size msg (validate_generic cfg bp now known ws)
  unfolding validate_generic
  validate_generic-IsFounded now ws =
      if_cases (IsFounded cfg max_size msg) (is_throttled (now 0) ws)
        (λ _. (small, (type, is_type), λ c. ground arith))
        (λ _. verdict-IsFounded o.0 (ensure_limits bp ws) o.1 (λ left until e.
          (close_needs_violations cfg (now 1) (now 2) (limits_of (ensure_limits bp ws)) left until
            e).0))
    where
      o : RateState × Verdict
      o = check_rate_limit cfg (now 1) (now 2) (limits_of (ensure_limits bp ws))

  validate_type-IsFounded :
      (now : ℕ → ℕ) (t : MessageType) (ws : Socket)
      → IsFounded cfg max_size msg (validate_type cfg bp now known t ws)
  unfolding validate_type
  validate_type-IsFounded now message_send ws = validate_send-IsFounded (now 0) ws
  validate_type-IsFounded now room_message ws = validate_send-IsFounded (now 0) ws
  validate_type-IsFounded now room_create ws = validate_generic-IsFounded now ws
  validate_type-IsFounded now room_delete ws = validate_generic-IsFounded now ws
  validate_type-IsFounded now room_set_role ws = validate_generic-IsFounded now ws
  validate_type-IsFounded now room_remove_member ws = validate_generic-IsFounded now ws
  validate_type-IsFounded now room_add_members ws = validate_generic-IsFounded now ws
  validate_type-IsFounded now other ws = validate_generic-IsFounded now ws
  validate_type-IsFounded now _ ws = (small, (type, is_type))

validate_incoming-IsFounded :
    (cfg : RateLimit) (bp : Backpressure) (max_size : ℕ) (now : ℕ → ℕ) (known : Bool)
    (msg : Incoming) (ws : Socket)
    → IsFounded cfg max_size msg (validate_incoming cfg bp max_size now known msg ws)
unfolding validate_incoming
validate_incoming-IsFounded cfg bp max_size now known msg ws =
    if_cases (IsFounded cfg max_size msg) (ltb max_size msg.size)
      (λ big. (ground arith, count_violation-HasViolations cfg ws))
      λ small.
        option_cases (IsFounded cfg max_size msg) msg.parsed
          (λ e. (e, count_violation-HasViolations cfg ws))
          (λ type e.
            validate_type-IsFounded cfg bp max_size known msg (ground arith) type e now type ws)

-- what a policy of the gate says of the message and of the socket
abbrev pub IsJustified : RateLimit → ℕ → Incoming → Socket × Policy → Type 0
IsJustified cfg max_size msg (ws, allowed _) =
    (msg.size ≤ max_size) × ((type : MessageType) × (msg.parsed ≡ some type))
IsJustified cfg max_size msg (ws, dropped code close) =
    (close ≡ true)
    × (((code ≡ payload_too_large) × (max_size < msg.size))
        ⊎ ((code ≡ invalid_json) × (msg.parsed ≡ none)))
    × HasViolations cfg.max_violations ws
IsJustified cfg max_size msg (ws, fail code false) =
    (max_size < msg.size) ⊎ (msg.parsed ≡ none) ⊎ (code ≡ rate_limit_exceeded)
IsJustified cfg max_size msg (ws, fail code true) =
    (code ≡ rate_limit_exceeded)
    × (msg.size ≤ max_size)
    × HasViolations cfg.violations_before_close ws

policy_of-IsJustified :
    (cfg : RateLimit) (max_size : ℕ) (msg : Incoming) (ws : Socket) (v : Validation)
    → IsFounded cfg max_size msg (ws, v)
    → IsJustified cfg max_size msg (ws, policy_of v)
policy_of-IsJustified cfg max_size msg ws (accepted _) h = h
policy_of-IsJustified cfg max_size msg ws (rejected payload_too_large true _) h =
    (refl, inl (refl, h.0), h.1 refl)
policy_of-IsJustified cfg max_size msg ws (rejected payload_too_large false _) h = inl h.0
policy_of-IsJustified cfg max_size msg ws (rejected invalid_json true _) h =
    (refl, inr (refl, h.0), h.1 refl)
policy_of-IsJustified cfg max_size msg ws (rejected invalid_json false _) h = inr (inl h.0)
policy_of-IsJustified cfg max_size msg ws (rejected rate_limit_exceeded true _) h =
    (refl, h.0, h.2 refl)
policy_of-IsJustified cfg max_size msg ws (rejected rate_limit_exceeded false _) h = inr (inr refl)

-- The gate allows only what is no larger than the maximum and parses. It drops only what is too
-- large, or does not parse, with the code that says so, from a socket with `maxViolations`
-- violations, and a DROP always asks for the close of the socket. A FAIL asks for the close only of
-- a socket with `violationsBeforeClose` violations, for the rate and for a message that is not too
-- large; without the close it is for the size, the parse or the rate.
pub check_message-IsJustified :
    (cfg : RateLimit) (bp : Backpressure) (max_size : ℕ) (now : ℕ → ℕ) (known : Bool)
    (msg : Incoming) (ws : Socket)
    → IsJustified cfg max_size msg (check_message cfg bp max_size now known msg ws)
unfolding check_message
check_message-IsJustified cfg bp max_size now known msg ws =
    let o = validate_incoming cfg bp max_size now known msg ws in
    policy_of-IsJustified cfg max_size msg o.0 o.1
      (validate_incoming-IsFounded cfg bp max_size now known msg ws)
